-- ===== src/Worker/TaskQueue.antt =====
-- worker/include/task_queue.h and worker/src/task_queue.cpp. Each method runs under the queue's
-- mutex and is one step; `wait_pop` is the step of a waiting thread that looks at the queue.
pub mod History
use rdma_ai_platform.Common.{Bool, true, false, List, [], ◌∷◌, ◌++◌, if◌then◌else◌, ℕ}
use rdma_ai_platform.Worker.Task.{Task}

pub record TaskQueue : Type 0 where
  pub queue : List Task
  pub stopped : Bool

unfoldable pub empty_queue : TaskQueue
empty_queue = record { queue = []; stopped = false }

unfoldable pub push : Task → TaskQueue → TaskQueue × Bool
push task q = if q.stopped then (q, false) else (record q { queue = q.queue ++ task ∷ [] }, true)

-- What a waiting thread finds: nothing yet, so that it waits on; that the queue was stopped; or a
-- task.
pub data Popped : Type 0 where
  waits stops : Popped
  pops : Task → Popped

-- The front of the queue, once it is not stopped.
unfoldable pub pop_open : List Task → TaskQueue → TaskQueue × Popped
pop_open [] q = (q, waits)
pop_open (task ∷ rest) q = (record q { queue = rest }, pops task)

unfoldable pub wait_pop : TaskQueue → TaskQueue × Popped
unfolding pop_open
wait_pop q = if q.stopped then (q, stops) else pop_open q.queue q

unfoldable pub stop : TaskQueue → TaskQueue
stop q = record q { stopped = true }
