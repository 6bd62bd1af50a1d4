-- ===== src/Worker/Timer.antt =====
-- worker/runtime/timer.h and worker/runtime/timer.cpp: a thread that runs a task at intervals.
-- `start` and `stop` are called by one thread.
use rdma_ai_platform.Common.Int.{ℤ, is_nonpositive}
use rdma_ai_platform.Common.{Bool, true, false, not, ◌&&◌, ◌||◌, if◌then◌else◌}

pub record Timer : Type 0 where
  pub running : Bool
  pub has_thread : Bool

unfoldable pub new_timer : Timer
new_timer = record { running = false; has_thread = false }

-- `stop`, with the thread joined.
unfoldable pub stop : Timer → Timer
stop t =
    if not t.running && not t.has_thread then t else record { running = false; has_thread = false }

-- `start` with an interval and a task or an empty one, where the thread can be made.
unfoldable pub start : ℤ → Bool → Timer → Timer × Bool
unfolding stop
start interval has_task t =
    if is_nonpositive interval || not has_task
    then (t, false)
    else (record (stop t) { running = true; has_thread = true }, true)

-- Whether the thread runs the task when its wait ends at the time limit.
unfoldable pub fires : Timer → Bool
fires t = t.has_thread && t.running
