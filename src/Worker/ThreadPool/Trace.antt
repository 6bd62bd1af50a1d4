-- ===== src/Worker/ThreadPool/Trace.antt =====
-- A thread pool with the tasks that it took in and those that its threads began, and the invariant
-- that links them.
use rdma_ai_platform.Common.{
  refl, ◌≢◌, ◌⊎◌, inl, All, ◌≡◌, Bool, true, false, Option, some, List, [], ◌∷◌, ◌++◌, get_elem?, ℕ,
}
use rdma_ai_platform.Worker.ThreadPool.{
  has_returned, make, Thread, idle, ThreadPool, start, enqueue, begin_stop, end_stop, worker_loop,
}

pub data Event : Type 0 where
  begins_stop ends_stop : Event
  starts enqueues steps : ℕ → Event

-- A pool with the tasks that it accepted and those that its threads began to run, in order.
pub record Trace : Type 0 where
  pub pool : ThreadPool
  pub accepted : List ℕ
  pub begun : List ℕ

abbrev pub after_enqueue : ℕ → Trace → ThreadPool × Bool → Trace
after_enqueue task t (p, true) = record t { pool = p; accepted = t.accepted ++ task ∷ [] }
after_enqueue task t (p, false) = record t { pool = p }

-- The task that an idle thread takes.
abbrev pub taken : Option Thread → List ℕ → List ℕ
taken (some idle) (task ∷ rest) = task ∷ []
taken _ _ = []

unfoldable pub step : Event → Trace → Trace
step (starts made) t = record t { pool = (start made t.pool).0 }
step begins_stop t = record t { pool = begin_stop t.pool }
step ends_stop t = record t { pool = end_stop t.pool.stopper t.pool }
step (enqueues task) t = after_enqueue task t (enqueue task t.pool)
step (steps i) t = record t {
  pool = worker_loop i t.pool;
  begun = t.begun ++ taken (get_elem? t.pool.threads i) t.pool.tasks;
}

unfoldable pub run : List Event → Trace → Trace
run [] t = t
run (e ∷ es) t = run es (step e t)

abbrev pub Working : Thread → Type 0
Working t = has_returned t ≡ false

pub record Inv (t : Trace) : Type 0 where
  pub ordered : t.accepted ≡ t.begun ++ t.pool.tasks
  pub drained : All Working t.pool.threads ⊎ ((t.pool.stopping ≡ true) × (t.pool.tasks ≡ []))
  pub closed : t.pool.started ≡ false → (t.pool.threads ≡ []) × (t.pool.tasks ≡ [])
  pub manned : t.pool.started ≡ true → t.pool.threads ≢ []

pub new-Inv : (n : ℕ) → Inv (record { pool = make n; accepted = []; begun = [] })
unfolding make
new-Inv n = record {
  ordered = refl;
  drained = inl tt;
  closed = λ e. (refl, refl);
  manned = λ e. cc;
}
