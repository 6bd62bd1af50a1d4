-- ===== src/Worker/Main.antt =====
-- worker/main.cpp, with `WorkerNode::run` of worker/src/worker_node.cpp: the main thread, the
-- thread that watches for a signal, and the signals. `stop` takes no lock of the condition that
-- `run` waits at, so that its store to `running_` and its notification are steps of their own.
pub mod Steps
pub mod Stopped
pub mod Wakeup
use rdma_ai_platform.Common.{ℕ, Bool, true, false, List, [], ◌∷◌, if◌then◌else◌}
use rdma_ai_platform.Worker.WorkerNode.{WorkerNode, Environment, new_node, start, stop}

-- The main thread: in the test of the wait's condition, past a test that held it back but not yet
-- blocked, blocked, waiting to join the watcher, or back from `main`.
pub data MainThread : Type 0 where
  tests commits blocked joins : MainThread
  returned : ℕ → MainThread

-- The watcher: in its loop, in `stop` before and behind the store to `running_`, or ended.
pub data Watcher : Type 0 where
  watches stops notifies ended : Watcher

pub record Process : Type 0 where
  pub node : WorkerNode
  pub main_thread : MainThread
  pub watcher : Watcher
  pub stop_requested : Bool
  pub exit_requested : Bool

-- A signal, a step of either thread, or a wait that ends with no notification.
pub data Event : Type 0 where
  signal main_steps watcher_steps wakes : Event

-- `main` up to `run`: without a start there is no watcher.
unfoldable pub begin : Environment → Process
begin e =
    let (node, started) = start e new_node in
    record {
      node = node;
      main_thread = if started then tests else returned 1;
      watcher = if started then watches else ended;
      stop_requested = false;
      exit_requested = false;
    }

unfoldable pub handle_signal : Process → Process
handle_signal p = record p { stop_requested = true }

-- The condition holds the main thread while the worker runs; behind `run` it asks the watcher to
-- end.
unfoldable pub step_main : MainThread → Process → Process
step_main tests p =
    if p.node.running
    then record p { main_thread = commits }
    else record p { main_thread = joins; exit_requested = true }
step_main commits p = record p { main_thread = blocked }
step_main blocked p = p
step_main joins p = elim p.watcher [
  | ended ↦ record p { main_thread = returned 0 }
  | watches ↦ p
  | stops ↦ p
  | notifies ↦ p
]
step_main (returned code) p = p

-- A blocked thread goes back to the test of its condition.
unfoldable pub wake : MainThread → MainThread
wake blocked = tests
wake tests = tests
wake commits = commits
wake joins = joins
wake (returned code) = returned code

-- The loop's test and the one behind it read the flags; `stop` stores to `running_`, then stops the
-- worker's parts and notifies.
unfoldable pub step_watcher : Watcher → Process → Process
unfolding wake
step_watcher watches p =
    if p.stop_requested
    then record p { watcher = stops }
    else if p.exit_requested
    then record p { watcher = ended }
    else p
step_watcher stops p = record p { node = record p.node { running = false }; watcher = notifies }
step_watcher notifies p = record p {
  node = stop p.node;
  watcher = ended;
  main_thread = wake p.main_thread;
}
step_watcher ended p = p

unfoldable pub step : Event → Process → Process
unfolding handle_signal step_main step_watcher wake
step signal p = handle_signal p
step main_steps p = step_main p.main_thread p
step watcher_steps p = step_watcher p.watcher p
step wakes p = record p { main_thread = wake p.main_thread }

unfoldable pub run : List Event → Process → Process
unfolding step
run [] p = p
run (e ∷ es) p = run es (step e p)
