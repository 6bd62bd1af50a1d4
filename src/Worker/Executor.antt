-- ===== src/Worker/Executor.antt =====
-- worker/include/executor.h, worker/src/executor.cpp and worker/mock/fake_model.cpp. The time
-- that the model sleeps is not modelled.
use rdma_ai_platform.Common.{true, false, ◌++◌}
use rdma_ai_platform.Text.{Text, codes}
use rdma_ai_platform.Worker.Task.{Task, TaskResult}

-- How a call of the model ends: with a value, a `std::exception` with its text, or another throw.
pub data Inference : Type 0 where
  returned : Text → Inference
  threw : Text → Inference
  threw_unknown : Inference

-- `FakeModel::infer`.
unfoldable pub infer : Text → Inference
infer prompt = returned (codes "processed: " ++ prompt)

-- The `try` block and its handlers.
unfoldable pub conclude : Text → Inference → TaskResult
conclude task_id (returned output) = record { task_id = task_id; output = output; success = true }
conclude task_id (threw what) = record { task_id = task_id; output = what; success = false }
conclude task_id threw_unknown = record {
  task_id = task_id;
  output = codes "unknown executor error";
  success = false;
}

unfoldable pub execute : Task → TaskResult
unfolding conclude infer
execute task = conclude task.id (infer task.prompt)
