-- ===== src/Tests/Worker.antt =====
-- The worker: its queues, configuration, address parsing and task server.
use rdma_ai_platform.Assoc.{contains, insert}
use rdma_ai_platform.Common.{
  none, ◌≢◌, ◌≡◌, refl, some, true, false, [], ◌∷◌, ◌++◌, arith, List, ◌+◌, ℕ, if◌then◌else◌,
}
use rdma_ai_platform.Text.{split_at, split_at-none_sound, codes, Text, text_eq}
use rdma_ai_platform.Worker.Config.Loading.{threads}
use rdma_ai_platform.Worker.Config.RoundTrip.{
  Settings, config_of, print_config, IsPlain, load_config-print_config,
}
use rdma_ai_platform.Worker.Config.{load_config, default_config}
use rdma_ai_platform.Worker.SchedulerClient.Escape.{
  all_plain, read_string, read_string-escape_json_string,
}
use rdma_ai_platform.Worker.SchedulerClient.{escape_json_string}
use rdma_ai_platform.Worker.Node.InFlight as Flight
use rdma_ai_platform.Worker.Node.InFlight.{receives, consumes, run-Tracks, run-executes}
use rdma_ai_platform.Worker.Node.Reports.{
  reported, queued, all_executing, accepted_in, run-reported,
}
use rdma_ai_platform.Worker.Node.Places.{Tracks}
use rdma_ai_platform.Worker.Node.{
  started_node, receive, mark_active, push_task, settle, consume, popped,
}
use rdma_ai_platform.Worker.Task.{Task, TaskResult}
use rdma_ai_platform.Worker.TaskQueue.History as History
use rdma_ai_platform.Worker.TaskQueue.History.{
  Call, pushes, pop_waits, stop_calls, Trace, InOrder, run-InOrder, run-stopped,
}
use rdma_ai_platform.Worker.TaskQueue.{empty_queue, push, wait_pop}
use rdma_ai_platform.Worker.TcpTransport.Framing.{Brings, handle_client-Brings}
use rdma_ai_platform.Worker.TcpTransport.Lifecycle as Lifecycle
use rdma_ai_platform.Worker.TcpTransport.Lifecycle.{call_all, call_all-IsConsistent}
use rdma_ai_platform.Worker.TcpTransport.{handle_client, Recv, bytes, interrupted, timed_out}
use rdma_ai_platform.Worker.ThreadPool.Trace.{
  Event, starts, begins_stop, ends_stop, enqueues, steps, run,
}
use rdma_ai_platform.Worker.ThreadPool.Shutdown.{fresh, run-drained}

abbrev job : Task
job = record { id = codes "t1"; prompt = codes "p" }

abbrev trace : Trace
trace = record { queue = empty_queue; accepted = []; handed_out = [] }

abbrev history : List Call
history = pushes job ∷ pop_waits ∷ pushes job ∷ stop_calls ∷ pushes job ∷ []

run-InOrder_example : InOrder (History.run history trace)
unfolding empty_queue
run-InOrder_example = run-InOrder history trace refl

abbrev events : List Event
events =
    starts 1
    ∷ starts 2
    ∷ enqueues 1
    ∷ enqueues 2
    ∷ steps 0
    ∷ begins_stop
    ∷ steps 1
    ∷ steps 0
    ∷ steps 1
    ∷ steps 0
    ∷ steps 1
    ∷ ends_stop
    ∷ []

run-drained_example :
    ((run events (fresh 2)).accepted
      ≡ (run events (fresh 2)).begun ++ (run events (fresh 2)).pool.tasks)
    × ((run events (fresh 2)).pool.started ≡ false
        → (run events (fresh 2)).accepted ≡ (run events (fresh 2)).begun)
run-drained_example = run-drained 2 events

abbrev received : List Recv
received = bytes (codes "t1|") ∷ interrupted ∷ timed_out true ∷ bytes (codes "a|b\nrest") ∷ []

received-Brings : Brings received ((codes "t1" ++ b'|' ∷ codes "a|b") ++ b'\n' ∷ codes "rest")
received-Brings =
    Brings.chunk (codes "t1|")
      (Brings.retry (Brings.idle (Brings.chunk (codes "a|b\nrest") (Brings.done []))))

handle_client-Brings_example :
    handle_client received ≡ some (record { id = codes "t1"; prompt = codes "a|b" })
handle_client-Brings_example =
    handle_client-Brings (codes "t1") (codes "a|b") (codes "rest") received-Brings (λ e. cc)
      (omega arith) (omega arith) (omega arith) (omega arith)

abbrev restarts : List Lifecycle.Call
restarts =
    Lifecycle.starts
      (record { socket_ok = true; setsockopt_ok = true; bind_ok = false; listen_ok = true })
    ∷ Lifecycle.starts
        (record { socket_ok = true; setsockopt_ok = true; bind_ok = true; listen_ok = true })
    ∷ Lifecycle.stop_calls
    ∷ []

abbrev settings : Settings
settings = record {
  worker_id = codes "w7";
  listen_port = 9002;
  scheduler_addr = codes "127.0.0.1:8080";
  heartbeat_interval = 5;
  threads = 8;
}

settings-IsPlain : IsPlain settings
unfolding split_at
settings-IsPlain = record {
  worker_id = record {
    one_line = (omega arith, (omega arith, tt));
    no_comment = (omega arith, (omega arith, tt));
    trimmed = record { front = (b'w', _, refl, refl); back = (b'7', _, refl, refl) };
  };
  scheduler_addr = record {
    one_line = split_at-none_sound 10 (codes "127.0.0.1:8080") refl;
    no_comment = split_at-none_sound 35 (codes "127.0.0.1:8080") refl;
    trimmed = record { front = (b'1', _, refl, refl); back = (b'0', _, refl, refl) };
  };
  listen_port = (omega arith, omega arith);
  heartbeat_interval = (omega arith, omega arith);
  threads = (omega arith, omega arith);
}

load_config-print_config_example :
    load_config (some (print_config settings)) default_config ≡ (config_of settings, true)
load_config-print_config_example = load_config-print_config settings default_config settings-IsPlain

-- A file whose second line gives no number.
abbrev bad_file : Text
bad_file = codes "worker_id: w7\nthreads: 8x\nlisten_port: 1\n"

read_string-escape_json_string_example :
    read_string false (escape_json_string (codes "a\"b\\") ++ b'"' ∷ codes "}")
    ≡ (if all_plain (codes "a\"b\\") then some (codes "a\"b\\", codes "}") else none)
read_string-escape_json_string_example = read_string-escape_json_string (codes "a\"b\\") (codes "}")

abbrev other_job : Task
other_job = record { id = codes "t2"; prompt = codes "q" }

-- Two jobs on their way to two consumers; the first is sent twice.
abbrev deliveries : List Flight.Event
deliveries =
    receives job
    ∷ Flight.pushes
    ∷ receives job
    ∷ receives other_job
    ∷ Flight.pushes
    ∷ consumes 0
    ∷ consumes 1
    ∷ consumes 0
    ∷ consumes 1
    ∷ []

run-Tracks_example : Tracks (Flight.run deliveries (started_node 2))
run-Tracks_example = run-Tracks 2 deliveries

run-executes_example : job.id ≢ other_job.id
unfolding Flight.run Flight.step started_node receive mark_active contains insert push_task settle
    push empty_queue consume popped wait_pop text_eq
run-executes_example = run-executes 2 deliveries 0 1 job other_job refl refl (omega arith)

-- The weight of a result: 1 for each one that did not fail.
abbrev ones : TaskResult → ℕ
ones r = if r.success then 1 else 0

run-reported_example :
    let n = Flight.run deliveries (started_node 2) in
    reported ones n.reports + queued ones n.task_queue.queue + all_executing ones n.consumers
    ≡ accepted_in ones deliveries (started_node 2)
run-reported_example = run-reported ones 2 deliveries
