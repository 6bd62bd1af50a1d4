-- ===== src/Worker.antt =====
-- The worker process under worker/: one child module for each part.
pub mod Task
pub mod TaskQueue
pub mod Executor
pub mod Config
pub mod SchedulerClient
pub mod Http
pub mod TcpTransport
pub mod ThreadPool
pub mod Node
pub mod Timer
pub mod Logger
pub mod WorkerNode
pub mod Main
