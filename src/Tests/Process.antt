-- ===== src/Tests/Process.antt =====
-- The process of the worker, and the end of its pool.
use rdma_ai_platform.Common.{
  some, ℕ, zero, suc, ◌<◌, ◌≡◌, refl, ◌⊎◌, true, false, List, [], ◌∷◌, arith,
}
use rdma_ai_platform.Tests.Node.{accepted}
use rdma_ai_platform.Worker.Main.Stopped.{run-IsIdle}
use rdma_ai_platform.Worker.Main.Wakeup.{signalled, run_lost}
use rdma_ai_platform.Worker.Main.{
  wake, handle_signal, step_watcher, step_main, step, Process, commits, blocked, watches, returned,
  Event, signal, main_steps, watcher_steps, begin, run,
}
use rdma_ai_platform.Worker.ThreadPool as Pool
use rdma_ai_platform.Worker.ThreadPool.Joining.{IsRound, run_rounds, stop_returns}
use rdma_ai_platform.Worker.ThreadPool.Stopping.{takes_step}
use rdma_ai_platform.Worker.ThreadPool.Trace as Threads
use rdma_ai_platform.Worker.ThreadPool.{ThreadPool, idle, runs, joining, none_stopping}
use rdma_ai_platform.Worker.WorkerNode.Running.{IsIdle}
use rdma_ai_platform.Worker.WorkerNode.{
  Environment, new_node, start, stop, start_loaded, start_parts, proceed, start_task_server,
  start_consumers, enqueue_consumers, register_to_scheduler, start_heartbeat,
}
use rdma_ai_platform.Worker.Config.{load_config, read_lines, accept, is_valid}
use rdma_ai_platform.Text.Lines.{lines}
use rdma_ai_platform.Worker.TcpTransport as Server
use rdma_ai_platform.Worker.TcpTransport.{new_transport}
use rdma_ai_platform.Worker.Timer as Clock

-- An empty configuration file: the defaults.
abbrev plain : Environment
plain = record accepted { file = some []; threads = 64 }

abbrev interrupted : List Event
interrupted = main_steps ∷ main_steps ∷ signalled (main_steps ∷ main_steps ∷ [])

plain-running : (start plain new_node).0.running ≡ true
unfolding start new_node load_config read_lines accept is_valid start_loaded start_parts proceed
    start_task_server start_consumers enqueue_consumers Pool.start Pool.make Pool.enqueue
    register_to_scheduler start_heartbeat Server.start new_transport Clock.start Clock.new_timer
    lines
plain-running = refl

plain-started : (start plain new_node).1 ≡ true
unfolding start new_node load_config read_lines accept is_valid start_loaded start_parts proceed
    start_task_server start_consumers enqueue_consumers Pool.start Pool.make Pool.enqueue
    register_to_scheduler start_heartbeat Server.start new_transport Clock.start Clock.new_timer
    lines
plain-started = refl

interrupted-returned : (run interrupted (begin plain)).main_thread ≡ returned 0
unfolding run step step_main step_watcher handle_signal wake begin stop
interrupted-returned = rw (plain-started, plain-running) refl

-- A pool of two threads that is stopping: one runs a task, and another task waits.
abbrev busy : Threads.Trace
busy = record {
  pool = record {
    thread_count = 2;
    threads = idle ∷ runs 1 ∷ [];
    tasks = 2 ∷ [];
    started = true;
    stopping = true;
    stopper = joining;
  };
  accepted = 1 ∷ 2 ∷ [];
  begun = 1 ∷ [];
}

abbrev both : List Threads.Event
both = Threads.steps 1 ∷ Threads.enqueues 3 ∷ Threads.steps 0 ∷ []

both-fair : (i : ℕ) → i < 2 → takes_step i both ≡ true
both-fair zero h = refl
both-fair (suc zero) h = refl
both-fair (suc (suc i)) h = absurd (omega arith)

both-IsRound : IsRound 2 both
both-IsRound = record { goes = refl; fair = both-fair }

abbrev six : List (List Threads.Event)
six = both ∷ both ∷ both ∷ both ∷ both ∷ both ∷ []

stop_returns_example :
    let stopped = (Threads.step Threads.ends_stop (run_rounds six busy)).pool in
    (stopped.threads ≡ [])
    × (stopped.tasks ≡ [])
    × (stopped.started ≡ false)
    × (stopped.stopper ≡ none_stopping)
stop_returns_example =
    stop_returns 2 six busy
      (
        both-IsRound,
        (both-IsRound, (both-IsRound, (both-IsRound, (both-IsRound, (both-IsRound, tt))))),
      )
      (record { stops = refl; joins = refl; threads = refl }) (omega arith)

run-IsIdle_example :
    let p = run interrupted (begin plain) in
    let (started, ok) = start plain new_node in
    IsIdle p.node
    × (((◌≡◌ {A = ℕ} 0 1) × (ok ≡ false))
        ⊎ ((◌≡◌ {A = ℕ} 0 0) × (ok ≡ true) × (p.stop_requested ≡ true) × (p.node ≡ stop started)))
run-IsIdle_example = run-IsIdle plain interrupted 0 interrupted-returned

-- A worker about to block, whatever its parts.
abbrev about_to_block : Process
about_to_block = record {
  node = new_node;
  main_thread = commits;
  watcher = watches;
  stop_requested = false;
  exit_requested = false;
}

run_lost_example :
    (run
      (signalled (main_steps ∷ watcher_steps ∷ signal ∷ main_steps ∷ []))
      about_to_block).main_thread
    ≡ blocked
run_lost_example = run_lost (watcher_steps ∷ signal ∷ main_steps ∷ []) about_to_block refl refl refl
