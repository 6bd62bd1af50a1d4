-- ===== src/Worker/WorkerNode.antt =====
-- worker/include/worker_node.h and worker/src/worker_node.cpp: starting and stopping the worker
-- with all its parts (Worker/Node has the path of a task). What the system and the scheduler answer
-- to a start is an `Environment`. The heartbeat that `stop` sends changes nothing here.
pub mod Running
pub mod Starting
pub mod Lifecycle
pub mod Restart
use rdma_ai_platform.Common.Int.{ℤ, pos, negsuc}
use rdma_ai_platform.Common.{
  [], zero, suc, ◌-◌, ◌^◌, Bool, true, false, not, Option, none, some, ◌++◌, if◌then◌else◌, ℕ,
}
use rdma_ai_platform.Text.{Text, codes}
use rdma_ai_platform.Worker.Config.{WorkerConfig, default_config, load_config}
use rdma_ai_platform.Worker.SchedulerClient.{SchedulerClient, configure, print_int}
use rdma_ai_platform.Worker.TaskQueue as Queue
use rdma_ai_platform.Worker.TaskQueue.{TaskQueue, empty_queue}
use rdma_ai_platform.Worker.TcpTransport as Server
use rdma_ai_platform.Worker.TcpTransport.{TcpTransport, new_transport, Calls}
use rdma_ai_platform.Worker.ThreadPool as Pool
use rdma_ai_platform.Worker.ThreadPool.{ThreadPool, enqueue}
use rdma_ai_platform.Worker.Timer as Clock
use rdma_ai_platform.Worker.Timer.{Timer, new_timer}

pub record WorkerNode : Type 0 where
  pub config : WorkerConfig
  pub running : Bool
  pub task_queue : TaskQueue
  pub scheduler_client : SchedulerClient
  pub transport : Option TcpTransport
  pub thread_pool : Option ThreadPool
  pub heartbeat_timer : Timer

unfoldable pub new_node : WorkerNode
new_node = record {
  config = default_config;
  running = false;
  task_queue = empty_queue;
  scheduler_client = record { scheduler_addr = []; worker_id = [] };
  transport = none;
  thread_pool = none;
  heartbeat_timer = new_timer;
}

-- What a start meets: the configuration file, the answers of the task server's system calls, the
-- number of threads that can be made, and what `registerWorker` returns.
pub record Environment : Type 0 where
  pub file : Option Text
  pub calls : Calls
  pub threads : ℕ
  pub registered : Bool

unfoldable pub worker_address : WorkerNode → Text
worker_address n = codes "127.0.0.1:" ++ print_int n.config.listen_port

-- `if (pointer) pointer->stop();`
unfoldable pub stop_transport : Option TcpTransport → Option TcpTransport
stop_transport none = none
stop_transport (some t) = some (Server.stop t)

unfoldable pub stop_pool : Option ThreadPool → Option ThreadPool
stop_pool none = none
stop_pool (some p) = some (Pool.stop p)

-- `stop`. The queue is stopped before the pool is, so that every consumer ends its loop.
unfoldable pub stop : WorkerNode → WorkerNode
unfolding stop_transport stop_pool
stop n = record n {
  running = false;
  heartbeat_timer = Clock.stop n.heartbeat_timer;
  transport = stop_transport n.transport;
  task_queue = Queue.stop n.task_queue;
  thread_pool = stop_pool n.thread_pool;
}

-- A step of the `try` block of `start`: the node, and whether nothing was thrown.
unfoldable pub start_task_server : Environment → WorkerNode → WorkerNode × Bool
start_task_server e n =
    let (t, ok) = Server.start e.calls new_transport in (record n { transport = some t }, ok)

-- `static_cast<std::size_t>`.
abbrev pub to_size : ℤ → ℕ
to_size (pos n) = n
to_size (negsuc n) = 2 ^ 64 - suc n

-- How often a loop from 0 up to an `int` runs.
abbrev pub rounds_to : ℤ → ℕ
rounds_to (pos n) = n
rounds_to (negsuc n) = 0

-- The loop that hands the consumers to the pool; it ends with the first that the pool refuses.
unfoldable pub enqueue_consumers : ℕ → ThreadPool → ThreadPool × Bool
enqueue_consumers zero p = (p, true)
enqueue_consumers (suc n) p =
    let (p', queued) = enqueue n p in
    let rest = enqueue_consumers n p' in if not queued then (p', false) else rest

unfoldable pub start_consumers : Environment → WorkerNode → WorkerNode × Bool
unfolding enqueue_consumers
start_consumers e n =
    let (p, started) = Pool.start e.threads (Pool.make (to_size n.config.threads)) in
    if not started
    then (record n { thread_pool = some p }, false)
    else let (q, ok) = enqueue_consumers (rounds_to n.config.threads) p in
      (record n { thread_pool = some q }, ok)

unfoldable pub register_to_scheduler : Environment → WorkerNode → WorkerNode × Bool
register_to_scheduler e n = (n, e.registered)

unfoldable pub start_heartbeat : WorkerNode → WorkerNode × Bool
start_heartbeat n =
    let (t, started) = Clock.start n.config.heartbeat_interval true n.heartbeat_timer in
    (record n { heartbeat_timer = t }, started)

-- The next statement of the `try` block, or the handler: `stop` and `return false`.
unfoldable pub proceed : WorkerNode × Bool → (WorkerNode → WorkerNode × Bool) → WorkerNode × Bool
unfolding stop
proceed (n, true) next = next n
proceed (n, false) next = (stop n, false)

-- `start` behind the loading of the configuration.
unfoldable pub start_parts : Environment → WorkerNode → WorkerNode × Bool
unfolding proceed start_task_server start_consumers register_to_scheduler start_heartbeat
start_parts e n = proceed (start_task_server e n) (λ n1. proceed (start_consumers e n1) (λ n2.
    proceed (register_to_scheduler e n2) (λ n3. proceed (start_heartbeat n3) (λ n4. (n4, true)))))

-- `loadConfig` has returned.
unfoldable pub start_loaded : Environment → WorkerNode → WorkerConfig × Bool → WorkerNode × Bool
unfolding start_parts
start_loaded e n (config, false) = (record n { config = config }, false)
start_loaded e n (config, true) = start_parts e (record n {
  config = config;
  scheduler_client = configure config.scheduler_addr config.worker_id n.scheduler_client;
  running = true;
})

unfoldable pub start : Environment → WorkerNode → WorkerNode × Bool
unfolding start_loaded
start e n = if n.running then (n, true) else start_loaded e n (load_config e.file n.config)
