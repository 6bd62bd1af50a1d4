-- ===== src/Worker/ThreadPool/Stopping.antt =====
-- A pool that is stopping while its threads go on and `enqueue` may be called.
use rdma_ai_platform.Common.{
  ℕ, ◌≤◌, ◌≡◌, ap, ◌∙◌, Bool, true, false, ◌&&◌, ◌||◌, List, [], ◌∷◌, arith, length, ◌==◌,
}
use rdma_ai_platform.Worker.ThreadPool.Work.{work, worker_loop-Keeps, worker_loop-work_le}
use rdma_ai_platform.Worker.ThreadPool.Trace.{Event, enqueues, steps, Trace, step, run}
use rdma_ai_platform.Worker.ThreadPool.{joining, enqueue}

-- What may go on while `stop` waits to join the threads: their steps, and calls of `enqueue`.
abbrev pub goes_on : Event → Bool
goes_on (steps i) = true
goes_on (enqueues task) = true
goes_on _ = false

abbrev pub all_go_on : List Event → Bool
all_go_on [] = true
all_go_on (e ∷ es) = goes_on e && all_go_on es

-- Thread `i` takes a step somewhere among the events.
abbrev pub takes_step : ℕ → List Event → Bool
takes_step i [] = false
takes_step i (steps j ∷ es) = i == j || takes_step i es
takes_step i (_ ∷ es) = takes_step i es

-- A pool that is stopping, with `n` threads, and a call of `stop` that waits for them.
pub record IsJoining (n : ℕ) (t : Trace) : Type 0 where
  pub stops : t.pool.stopping ≡ true
  pub joins : t.pool.stopper ≡ joining
  pub threads : length t.pool.threads ≡ n

pub refuses :
    (task : ℕ) (t : Trace) → t.pool.stopping ≡ true → (step (enqueues task) t).pool ≡ t.pool
unfolding step enqueue
refuses task t stop = ground arith

pub step-IsJoining :
    (n : ℕ) (e : Event) (t : Trace) → goes_on e ≡ true → IsJoining n t → IsJoining n (step e t)
unfolding step
step-IsJoining n (steps i) t g v =
    let k = worker_loop-Keeps i t.pool in
    record {
      stops = k.stops ∙ v.stops;
      joins = k.stopper ∙ v.joins;
      threads = k.as_many ∙ v.threads;
    }
step-IsJoining n (enqueues task) t g v =
    let e = refuses task t v.stops in
    record {
      stops = ap (λ p. p.stopping) e ∙ v.stops;
      joins = ap (λ p. p.stopper) e ∙ v.joins;
      threads = ap (λ p. length p.threads) e ∙ v.threads;
    }
step-IsJoining n _ t g v = cc

pub run-IsJoining :
    (n : ℕ) (es : List Event) (t : Trace)
    → all_go_on es ≡ true
    → IsJoining n t
    → IsJoining n (run es t)
unfolding run
run-IsJoining n [] t g v = v
run-IsJoining n (e ∷ es) t g v =
    run-IsJoining n es (step e t) (ground arith) (step-IsJoining n e t (ground arith) v)

pub step-work :
    (n : ℕ) (e : Event) (t : Trace)
    → goes_on e ≡ true
    → IsJoining n t
    → work (step e t).pool ≤ work t.pool
unfolding step
step-work n (steps i) t g v = worker_loop-work_le i t.pool v.stops
step-work n (enqueues task) t g v = let e = ap work (refuses task t v.stops) in omega (arith, e)
step-work n _ t g v = cc

pub run-work :
    (n : ℕ) (es : List Event) (t : Trace)
    → all_go_on es ≡ true
    → IsJoining n t
    → work (run es t).pool ≤ work t.pool
unfolding run
run-work n [] t g v = omega arith
run-work n (e ∷ es) t g v =
    let one = step-work n e t (ground arith) v in
    let rest = run-work n es (step e t) (ground arith) (step-IsJoining n e t (ground arith) v) in
    omega (arith, one, rest)
