-- ===== src/Prototype.antt =====
-- The worker runtime that sends tensors (worker/model, worker/task, worker/runtime/worker_runtime):
-- one child module for each class.
pub mod Tensor
pub mod TaskExecutor
pub mod WorkerRuntime
