-- ===== src/Worker/ThreadPool/Shutdown.antt =====
-- The threads of a pool, and stopping it.
use rdma_ai_platform.Worker.ThreadPool.Calls.{
  starts-Inv, enqueues-Inv, begins_stop-Inv, ends_stop-Inv, set-ne-nil,
}
use rdma_ai_platform.Worker.ThreadPool.Trace.{
  Event, begins_stop, ends_stop, starts, enqueues, steps, Trace, taken, step, run, Working, Inv,
  new-Inv,
}
use rdma_ai_platform.Common.{
  none, append-nil, All-set, if_true, if_false, refl, sym, ap, ◌∙◌, subst, ◌≢◌, ◌⊎◌, inl, inr,
  append_assoc, set, Bool-cases, ◌≡◌, true, false, Option, some, List, [], ◌∷◌, ◌++◌, get_elem?, ℕ,
}
use rdma_ai_platform.Worker.ThreadPool.{
  stop, returned, advance, runs, take_task, make, Thread, idle, ThreadPool, worker_loop,
}

-- The trace once the pool is `p` and the tasks `begun` were taken.
abbrev moved : Trace → ThreadPool → List ℕ → Trace
moved t p begun = record t { pool = p; begun = t.begun ++ begun }

cons-ne-nil : (x : ℕ) (xs : List ℕ) → x ∷ xs ≢ []
cons-ne-nil x xs e = cc

set-nil : (ts : List Thread) (i : ℕ) (x : Thread) → ts ≡ [] → set ts i x ≡ []
set-nil [] i x e = refl
set-nil (t ∷ ts) i x e = cc

moved-ordered : (t : Trace) → Inv t → t.accepted ≡ (t.begun ++ []) ++ t.pool.tasks
moved-ordered t v = v.ordered ∙ ap (λ l. l ++ t.pool.tasks) (sym (append-nil t.begun))

stays-Inv : (t : Trace) → Inv t → Inv (moved t t.pool [])
stays-Inv t v = record {
  ordered = moved-ordered t v;
  drained = v.drained;
  closed = v.closed;
  manned = v.manned;
}

sets-Inv :
    (i : ℕ) (x : Thread) (t : Trace)
    → Inv t
    → (Working x ⊎ ((t.pool.stopping ≡ true) × (t.pool.tasks ≡ [])))
    → Inv (moved t (record t.pool { threads = set t.pool.threads i x }) [])
sets-Inv i x t v w = record {
  ordered = moved-ordered t v;
  drained = elim v.drained [
    | inl working ↦ elim w [
      | inl p ↦ inl (All-set Working t.pool.threads i x working p)
      | inr done ↦ inr done
    ]
    | inr done ↦ inr done
  ];
  closed = λ off. (set-nil t.pool.threads i x ((v.closed off).0), (v.closed off).1);
  manned = λ on. set-ne-nil t.pool.threads i x (v.manned on);
}

take-Inv :
    (i : ℕ) (tasks : List ℕ) (t : Trace)
    → t.pool.tasks ≡ tasks
    → Inv t
    → Inv (moved t (take_task i tasks t.pool) (taken (some idle) tasks))
unfolding take_task
take-Inv i [] t e v = elim (Bool-cases t.pool.stopping) [
  | inl stop ↦
      subst (λ p. Inv (moved t p [])) (sym (if_true _ _ _ stop))
        (sets-Inv i returned t v (inr (stop, e)))
  | inr go ↦ subst (λ p. Inv (moved t p [])) (sym (if_false _ _ _ go)) (stays-Inv t v)
]
take-Inv i (task ∷ rest) t e v = record {
  ordered = v.ordered ∙ ap (λ l. t.begun ++ l) e ∙ sym (append_assoc t.begun (task ∷ []) rest);
  drained = elim v.drained [
    | inl working ↦ inl (All-set Working t.pool.threads i (runs task) working refl)
    | inr done ↦ absurd (cons-ne-nil task rest (sym e ∙ done.1))
  ];
  closed = λ off. absurd (cons-ne-nil task rest (sym e ∙ (v.closed off).1));
  manned = λ on. set-ne-nil t.pool.threads i (runs task) (v.manned on);
}

advance-Inv :
    (i : ℕ) (thread : Option Thread) (t : Trace)
    → Inv t
    → Inv (moved t (advance i thread t.pool) (taken thread t.pool.tasks))
unfolding advance
advance-Inv i none t v = stays-Inv t v
advance-Inv i (some idle) t v = take-Inv i t.pool.tasks t refl v
advance-Inv i (some returned) t v = stays-Inv t v
advance-Inv i (some (runs task)) t v = sets-Inv i idle t v (inl refl)

step-Inv : (e : Event) (t : Trace) → Inv t → Inv (step e t)
unfolding step worker_loop
step-Inv (starts made) t v = starts-Inv made t v
step-Inv begins_stop t v = begins_stop-Inv t v
step-Inv ends_stop t v = ends_stop-Inv t v
step-Inv (enqueues task) t v = enqueues-Inv task t v
step-Inv (steps i) t v = advance-Inv i (get_elem? t.pool.threads i) t v

run-Inv : (es : List Event) (t : Trace) → Inv t → Inv (run es t)
unfolding run
run-Inv [] t v = v
run-Inv (e ∷ es) t v = run-Inv es (step e t) (step-Inv e t v)

abbrev pub fresh : ℕ → Trace
fresh n = record { pool = make n; accepted = []; begun = [] }

-- A new pool: however starts, enqueues, stops and the threads' steps interleave, the tasks that it
-- accepted are in order those that a thread began to run, then those that wait. Once it is stopped,
-- or before it starts, none waits: every task that `enqueue` accepted was begun.
pub run-drained :
    (n : ℕ) (es : List Event)
    → ((run es (fresh n)).accepted ≡ (run es (fresh n)).begun ++ (run es (fresh n)).pool.tasks)
      × ((run es (fresh n)).pool.started ≡ false
          → (run es (fresh n)).accepted ≡ (run es (fresh n)).begun)
run-drained n es =
    let t = run es (fresh n) in
    let v = run-Inv es (fresh n) (new-Inv n) in
    (v.ordered, λ off. v.ordered ∙ ap (λ l. t.begun ++ l) ((v.closed off).1) ∙ append-nil t.begun)
