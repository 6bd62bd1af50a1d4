-- ===== src/Worker/ThreadPool.antt =====
-- worker/runtime/thread_pool.h and worker/runtime/thread_pool.cpp. Each block under the mutex is
-- one step. A task is known by a number; running it is not part of the pool. `start` and `stop`
-- are called by one thread.
pub mod Trace
pub mod Calls
pub mod Shutdown
pub mod Work
pub mod Stopping
pub mod Joining
use rdma_ai_platform.Common.{
  Bool, true, false, not, ◌&&◌, ◌||◌, Option, none, some, List, [], ◌∷◌, ◌++◌, length, get_elem?,
  set, replicate, ◌==◌, ltb, if◌then◌else◌, ℕ,
}

-- What a thread of the pool does: it waits at the condition or is about to, it runs a task, or it
-- has returned.
pub data Thread : Type 0 where
  idle returned : Thread
  runs : ℕ → Thread

-- A thread's call of `stop`: none, or waiting to join the threads.
pub data Stopper : Type 0 where
  none_stopping joining : Stopper

pub record ThreadPool : Type 0 where
  pub thread_count : ℕ
  pub threads : List Thread
  pub tasks : List ℕ
  pub started : Bool
  pub stopping : Bool
  pub stopper : Stopper

-- The constructor.
unfoldable pub make : ℕ → ThreadPool
make thread_count = record {
  thread_count = thread_count;
  threads = [];
  tasks = [];
  started = false;
  stopping = false;
  stopper = none_stopping;
}

-- `stop` as a whole, when every thread returns: so it is when `start` calls it because a thread
-- cannot be made, since the threads that were made wait for tasks, of which there are none.
unfoldable pub stop : ThreadPool → ThreadPool
stop p =
    if not p.started && length p.threads == 0
    then p
    else record p { stopping = true; threads = []; tasks = []; started = false }

-- `start`, where `made` threads can be made. Before its end nothing can be enqueued, so that the
-- threads find no task between its blocks, and it is one step.
unfoldable pub start : ℕ → ThreadPool → ThreadPool × Bool
unfolding stop
start made p =
    if p.started
    then (p, true)
    else if p.thread_count == 0
    then (p, false)
    else if ltb made p.thread_count
    then (stop (record p { stopping = false; threads = p.threads ++ replicate made idle }), false)
    else (
      record p {
        stopping = false;
        threads = p.threads ++ replicate p.thread_count idle;
        started = true;
      },
      true,
    )

unfoldable pub enqueue : ℕ → ThreadPool → ThreadPool × Bool
enqueue task p =
    if not p.started || p.stopping
    then (p, false)
    else (record p { tasks = p.tasks ++ task ∷ [] }, true)

-- The first block of `stop`: it returns at once, or sets the flag and goes on to join.
unfoldable pub begin_stop : ThreadPool → ThreadPool
begin_stop p =
    if not p.started && length p.threads == 0
    then p
    else record p { stopping = true; stopper = joining }

abbrev pub has_returned : Thread → Bool
has_returned returned = true
has_returned _ = false

abbrev pub all_returned : List Thread → Bool
all_returned [] = true
all_returned (t ∷ ts) = has_returned t && all_returned ts

-- The last block of `stop`, once every thread is joined.
unfoldable pub end_stop : Stopper → ThreadPool → ThreadPool
end_stop none_stopping p = p
end_stop joining p =
    if all_returned p.threads
    then record p { threads = []; tasks = []; started = false; stopper = none_stopping }
    else p

-- The block of `workerLoop` under the mutex for an idle thread `i`, by the tasks that wait: it
-- waits on, returns, or takes the first task.
unfoldable pub take_task : ℕ → List ℕ → ThreadPool → ThreadPool
take_task i [] p = if p.stopping then record p { threads = set p.threads i returned } else p
take_task i (task ∷ rest) p = record p { tasks = rest; threads = set p.threads i (runs task) }

-- A thread's next step. A task that throws ends as one that returns: the loop goes on.
unfoldable pub advance : ℕ → Option Thread → ThreadPool → ThreadPool
unfolding take_task
advance i none p = p
advance i (some idle) p = take_task i p.tasks p
advance i (some returned) p = p
advance i (some (runs task)) p = record p { threads = set p.threads i idle }

unfoldable pub worker_loop : ℕ → ThreadPool → ThreadPool
unfolding advance
worker_loop i p = advance i (get_elem? p.threads i) p
