-- ===== src/Worker/ThreadPool/Joining.antt =====
-- `stop` returns: once the flag is set the threads run out of work, and it joins them.
use rdma_ai_platform.Common.{
  ℕ_discrete, ℕ, zero, suc, ◌≤◌, ◌<◌, ◌≡◌, refl, ap, ◌∙◌, ◌⊎◌, inl, inr, true, false, none, some,
  List, [], ◌∷◌, arith, length, get_elem?, All, Bool-cases, get_elem?-lt,
}
use rdma_ai_platform.Worker.ThreadPool.Work.{
  work, steps_left_all, worker_loop-Keeps, worker_loop-work,
}
use rdma_ai_platform.Worker.ThreadPool.Trace.{Event, ends_stop, enqueues, steps, Trace, step, run}
use rdma_ai_platform.Worker.ThreadPool.{
  advance, all_returned, returned, runs, idle, Thread, worker_loop, has_returned, none_stopping,
  end_stop,
}
use rdma_ai_platform.Worker.ThreadPool.Stopping.{
  goes_on, all_go_on, takes_step, IsJoining, refuses, step-IsJoining, run-IsJoining, step-work,
  run-work,
}

-- A thread that has not returned lessens the work in every round in which it takes a step.
round-work :
    (n i : ℕ) (thread : Thread) (es : List Event) (t : Trace)
    → all_go_on es ≡ true
    → takes_step i es ≡ true
    → IsJoining n t
    → get_elem? t.pool.threads i ≡ some thread
    → has_returned thread ≡ false
    → work (run es t).pool < work t.pool
unfolding run
round-work n i thread [] t g s v at w = cc
round-work n i thread (steps j ∷ es) t g s v at w =
    let w' = step-IsJoining n (steps j) t refl v in
    elim (ℕ_discrete j i) [
      | yes e ↦
          let at' : get_elem? t.pool.threads j ≡ some thread =
            ap (get_elem? t.pool.threads) e ∙ at in
          let less : work (step (steps j) t).pool < work t.pool =
            unfold step in worker_loop-work j thread t.pool v.stops at' w in
          omega (arith, less, run-work n es (step (steps j) t) g w')
      | no ne ↦
          let kept : get_elem? (step (steps j) t).pool.threads i ≡ get_elem? t.pool.threads i =
            unfold step in (worker_loop-Keeps j t.pool).others i ne in
          omega (
            arith,
            step-work n (steps j) t refl v,
            round-work n i thread es (step (steps j) t) g (ground arith) w' (kept ∙ at) w,
          )
    ]
round-work n i thread (enqueues task ∷ es) t g s v at w =
    let same = refuses task t v.stops in
    let at' = ap (λ p. get_elem? p.threads i) same ∙ at in
    let rest =
      round-work n i thread es (step (enqueues task) t) g s
        (step-IsJoining n (enqueues task) t refl v) at' w in
    omega (arith, rest, ap work same)
round-work n i thread (_ ∷ es) t g s v at w = cc

-- A thread of a list in which not all have returned.
unreturned :
    (ts : List Thread)
    → all_returned ts ≡ false
    → (i : ℕ) × (thread : Thread) × (get_elem? ts i ≡ some thread) × (has_returned thread ≡ false)
unreturned [] e = cc
unreturned (idle ∷ ts) e = (0, idle, refl, refl)
unreturned (runs task ∷ ts) e = (0, runs task, refl, refl)
unreturned (returned ∷ ts) e = let (i, thread, at, w) = unreturned ts e in (suc i, thread, at, w)

returned_at :
    (ts : List Thread) (i : ℕ)
    → all_returned ts ≡ true
    → (get_elem? ts i ≡ none) ⊎ (get_elem? ts i ≡ some returned)
returned_at [] i e = inl refl
returned_at (returned ∷ ts) zero e = inr refl
returned_at (returned ∷ ts) (suc i) e = returned_at ts i e
returned_at (_ ∷ ts) i e = cc

-- Threads that have returned stay so.
step_returned :
    (e : Event) (t : Trace)
    → goes_on e ≡ true
    → t.pool.stopping ≡ true
    → all_returned t.pool.threads ≡ true
    → (step e t).pool ≡ t.pool
unfolding step worker_loop advance
step_returned (steps i) t g stop all = elim (returned_at t.pool.threads i all) [
  | inl e ↦ rw e
  | inr e ↦ rw e
]
step_returned (enqueues task) t g stop all = refuses task t stop
step_returned _ t g stop all = cc

run_returned :
    (n : ℕ) (es : List Event) (t : Trace)
    → all_go_on es ≡ true
    → IsJoining n t
    → all_returned t.pool.threads ≡ true
    → all_returned (run es t).pool.threads ≡ true
unfolding run
run_returned n [] t g v all = all
run_returned n (e ∷ es) t g v all =
    let same = step_returned e t (ground arith) v.stops all in
    run_returned n es (step e t) (ground arith) (step-IsJoining n e t (ground arith) v)
      (ap (λ p. all_returned p.threads) same ∙ all)

-- A round: only threads' steps and calls of `enqueue`, and each of the threads takes a step.
pub record IsRound (n : ℕ) (es : List Event) : Type 0 where
  pub goes : all_go_on es ≡ true
  pub fair : (i : ℕ) → i < n → takes_step i es ≡ true

abbrev pub run_rounds : List (List Event) → Trace → Trace
run_rounds [] t = t
run_rounds (es ∷ rounds) t = run_rounds rounds (run es t)

no_work : (ts : List Thread) → steps_left_all ts ≡ 0 → all_returned ts ≡ true
no_work [] e = refl
no_work (returned ∷ ts) e = no_work ts (omega arith)
no_work (idle ∷ ts) e = absurd (omega arith)
no_work (runs task ∷ ts) e = absurd (omega arith)

round-lessens :
    (n : ℕ) (es : List Event) (t : Trace)
    → IsRound n es
    → IsJoining n t
    → (all_returned (run es t).pool.threads ≡ true) ⊎ (work (run es t).pool < work t.pool)
round-lessens n es t r v = elim (Bool-cases (all_returned t.pool.threads)) [
  | inl all ↦ inl (run_returned n es t r.goes v all)
  | inr some_left ↦
      let (i, thread, at, w) = unreturned t.pool.threads some_left in
      let within = get_elem?-lt t.pool.threads i at in
      inr (round-work n i thread es t r.goes (r.fair i (omega (arith, within, v.threads))) v at w)
]

run_rounds_returned :
    (n : ℕ) (rounds : List (List Event)) (t : Trace)
    → All (IsRound n) rounds
    → IsJoining n t
    → (all_returned t.pool.threads ≡ true) ⊎ (work t.pool ≤ length rounds)
    → (all_returned (run_rounds rounds t).pool.threads ≡ true) × IsJoining n (run_rounds rounds t)
run_rounds_returned n [] t r v (inl all) = (all, v)
run_rounds_returned n [] t r v (inr least) = (no_work t.pool.threads (omega arith), v)
run_rounds_returned n (es ∷ rounds) t r v (inl all) =
    run_rounds_returned n rounds (run es t) r.1 (run-IsJoining n es t r.0.goes v)
      (inl (run_returned n es t r.0.goes v all))
run_rounds_returned n (es ∷ rounds) t r v (inr least) =
    run_rounds_returned n rounds (run es t) r.1 (run-IsJoining n es t r.0.goes v)
      (elim (round-lessens n es t r.0 v) [ inl all ↦ inl all | inr less ↦ inr (omega arith) ])

-- A pool whose flag is set and whose `stop` waits for its `n` threads: after as many rounds, in
-- each of which every thread takes a step and `enqueue` may be called, as it has work left (three
-- for a task that waits, two for one that runs, one for an idle thread), every thread has returned,
-- whatever the order within a round. `stop` then returns and leaves a pool that is not started,
-- without threads or tasks.
pub stop_returns :
    (n : ℕ) (rounds : List (List Event)) (t : Trace)
    → All (IsRound n) rounds
    → IsJoining n t
    → work t.pool ≤ length rounds
    → let stopped = (step ends_stop (run_rounds rounds t)).pool in
      (stopped.threads ≡ [])
      × (stopped.tasks ≡ [])
      × (stopped.started ≡ false)
      × (stopped.stopper ≡ none_stopping)
unfolding step end_stop
stop_returns n rounds t r v least =
    let (all, w) = run_rounds_returned n rounds t r v (inr least) in
    let joins = w.joins in rw (joins) (ground arith)
