-- ===== src/Worker/Node.antt =====
-- worker/include/worker_node.h and worker/src/worker_node.cpp: the path of a task through the
-- worker, from the task server's thread to a consumer of the thread pool. What a thread does
-- under one mutex, or with the network, is one step. Starting and stopping the parts is not here;
-- of `stop` the model has the two steps that this path can see.
pub mod Places
pub mod InFlight
pub mod Reports
use rdma_ai_platform.Assoc.{contains, insert, remove}
use rdma_ai_platform.Common.{
  Bool, true, false, not, Option, none, some, List, [], ◌∷◌, ◌++◌, ℕ, length, get_elem?, set,
  replicate, if◌then◌else◌,
}
use rdma_ai_platform.Text.{Text}
use rdma_ai_platform.Worker.Executor.{execute}
use rdma_ai_platform.Worker.Task.{Task, TaskResult}
use rdma_ai_platform.Worker.TaskQueue.{
  TaskQueue, empty_queue, push, Popped, waits, stops, pops, wait_pop, stop,
}

-- Where the loop of `startConsumers` stands: before its test, in `waitPop`, before `execute`,
-- before `finishTask`, or behind its end.
pub data Consumer : Type 0 where
  checks polls ended : Consumer
  executes : Task → Consumer
  finishes : Text → Consumer

-- `handler` is the task of a call of `enqueueTask` between its two blocks: only the task server's
-- thread makes such calls, one after the other. `reports` are the results given to `reportResult`.
pub record Node : Type 0 where
  pub running : Bool
  pub task_queue : TaskQueue
  pub active_task_ids : List Text
  pub handler : Option Task
  pub consumers : List Consumer
  pub reports : List TaskResult

-- A started node with its consumers.
unfoldable pub started_node : ℕ → Node
started_node threads = record {
  running = true;
  task_queue = empty_queue;
  active_task_ids = [];
  handler = none;
  consumers = replicate threads checks;
  reports = [];
}

unfoldable pub finish_task : Text → Node → Node
finish_task task_id n = record n { active_task_ids = remove task_id n.active_task_ids }

-- The first block of `enqueueTask`.
unfoldable pub mark_active : Task → Node → Node
mark_active task n =
    if contains task.id n.active_task_ids
    then n
    else record n { active_task_ids = insert task.id n.active_task_ids; handler = some task }

-- The handler of the task server, up to the end of that block. A second call cannot begin while
-- one is going on.
unfoldable pub receive : Task → Node → Node
unfolding mark_active
receive task n = elim n.handler [
  | some _ ↦ n
  | none ↦ if not n.running then n else mark_active task n
]

-- `if (!task_queue_.push(...)) { finishTask(task_id); ... }`
unfoldable pub settle : Text → Node → TaskQueue × Bool → Node
unfolding finish_task
settle task_id n (q, true) = record n { task_queue = q; handler = none }
settle task_id n (q, false) = finish_task task_id (record n { task_queue = q; handler = none })

-- The rest of `enqueueTask`.
unfoldable pub push_task : Node → Node
unfolding settle
push_task n = elim n.handler [ none ↦ n | some task ↦ settle task.id n (push task n.task_queue) ]

unfoldable pub snapshot_active_task_ids : Node → List Text
snapshot_active_task_ids n = n.active_task_ids

unfoldable pub running_task_count : Node → ℕ
running_task_count n = length n.active_task_ids

-- Consumer `i` behind a look at the queue.
unfoldable pub popped : ℕ → Node → TaskQueue × Popped → Node
popped i n (q, waits) = record n { task_queue = q }
popped i n (q, stops) = record n { task_queue = q; consumers = set n.consumers i ended }
popped i n (q, pops task) = record n {
  task_queue = q;
  consumers = set n.consumers i (executes task);
}

-- The next step of consumer `i`, which stands at the place given.
unfoldable pub advance : ℕ → Option Consumer → Node → Node
unfolding popped finish_task
advance i none n = n
advance i (some checks) n = record n {
  consumers = set n.consumers i (if n.running then polls else ended);
}
advance i (some polls) n = popped i n (wait_pop n.task_queue)
advance i (some (executes task)) n = record n {
  consumers = set n.consumers i (finishes task.id);
  reports = n.reports ++ execute task ∷ [];
}
advance i (some (finishes task_id)) n =
    finish_task task_id (record n { consumers = set n.consumers i checks })
advance i (some ended) n = n

unfoldable pub consume : ℕ → Node → Node
unfolding advance
consume i n = advance i (get_elem? n.consumers i) n

-- `running_.exchange(false)` and `task_queue_.stop()` of `stop`.
unfoldable pub clear_running : Node → Node
clear_running n = record n { running = false }

unfoldable pub stop_queue : Node → Node
stop_queue n = record n { task_queue = stop n.task_queue }
