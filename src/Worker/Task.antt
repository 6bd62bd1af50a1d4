-- ===== src/Worker/Task.antt =====
-- worker/include/task.h.
use rdma_ai_platform.Common.{Bool}
use rdma_ai_platform.Text.{Text}

pub record Task : Type 0 where
  pub id : Text
  pub prompt : Text

pub record TaskResult : Type 0 where
  pub task_id : Text
  pub output : Text
  pub success : Bool
