-- ===== src/Worker/ThreadPool/Calls.antt =====
-- The calls on a thread pool keep its invariant.
use rdma_ai_platform.Worker.ThreadPool.Trace.{
  begins_stop, ends_stop, starts, enqueues, Trace, after_enqueue, step, Working, Inv,
}
use rdma_ai_platform.Common.{
  ltb, ltb, All-replicate, if_true, if_false, zero, suc, refl, sym, ap, ◌∙◌, subst, ◌≢◌, inl, inr,
  not, ◌&&◌, ◌||◌, append_assoc, arith, length, set, replicate, All, ◌==◌, Bool-cases, ◌≡◌, Bool,
  true, false, List, [], ◌∷◌, ◌++◌, ℕ,
}
use rdma_ai_platform.Worker.ThreadPool.{
  stop, none_stopping, joining, Stopper, all_returned, Thread, idle, ThreadPool, start, enqueue,
  begin_stop, end_stop,
}

-- Threads that are all at work are not all returned, unless there is none.
pub not-all_returned : (ts : List Thread) → All Working ts → all_returned ts ≡ true → ts ≡ []
not-all_returned [] w r = refl
not-all_returned (t ∷ ts) w r = ground arith

pub set-ne-nil : (ts : List Thread) (i : ℕ) (x : Thread) → ts ≢ [] → set ts i x ≢ []
set-ne-nil [] i x ne e = ne e
set-ne-nil (t ∷ ts) zero x ne e = cc
set-ne-nil (t ∷ ts) (suc i) x ne e = cc

pub replicate-ne-nil : (n : ℕ) → n ≢ 0 → replicate n idle ≢ []
replicate-ne-nil zero h e = h refl
replicate-ne-nil (suc n) h e = cc

pub started-Working :
    (t : Trace)
    → Inv t
    → t.pool.started ≡ false
    → All Working (t.pool.threads ++ replicate t.pool.thread_count idle)
started-Working t v off =
    subst (λ ts. All Working (ts ++ replicate t.pool.thread_count idle)) (sym ((v.closed off).0))
      (All-replicate Working t.pool.thread_count idle refl)

pub started-manned :
    (t : Trace)
    → Inv t
    → t.pool.started ≡ false
    → (t.pool.thread_count == 0) ≡ false
    → t.pool.threads ++ replicate t.pool.thread_count idle ≢ []
started-manned t v off ne =
    subst (λ ts. ts ++ replicate t.pool.thread_count idle ≢ []) (sym ((v.closed off).0))
      (replicate-ne-nil t.pool.thread_count (λ z. ground arith))

pub length-nil : (ts : List Thread) → length ts ≡ 0 → ts ≡ []
length-nil [] e = refl
length-nil (t ∷ ts) e = absurd (omega arith)

-- A start that fails leaves a pool without threads and tasks.
pub stop-Inv :
    (t : Trace) (threads : List Thread)
    → Inv t
    → t.pool.started ≡ false
    → Inv (record t { pool = stop (record t.pool { stopping = false; threads = threads }) })
unfolding stop
stop-Inv t threads v off = elim (Bool-cases (not t.pool.started && length threads == 0)) [
  | inl nobody ↦
      subst (λ p. Inv (record t { pool = p })) (sym (if_true _ _ _ nobody))
        (record {
          ordered = v.ordered;
          drained = inl (subst (All Working) (sym (length-nil threads (ground arith))) tt);
          closed = λ e. (length-nil threads (ground arith), (v.closed off).1);
          manned = λ on. absurd (cc);
        })
  | inr some_made ↦
      subst (λ p. Inv (record t { pool = p })) (sym (if_false _ _ _ some_made))
        (record {
          ordered = v.ordered ∙ ap (λ l. t.begun ++ l) ((v.closed off).1);
          drained = inl tt;
          closed = λ e. (refl, refl);
          manned = λ on. absurd (cc);
        })
]

pub starts-Inv : (made : ℕ) (t : Trace) → Inv t → Inv (step (starts made) t)
unfolding step start
starts-Inv made t v = elim (Bool-cases t.pool.started) [
  | inl on ↦
      subst (λ (r : ThreadPool × Bool). Inv (record t { pool = r.0 })) (sym (if_true _ _ _ on)) v
  | inr off ↦ elim (Bool-cases (t.pool.thread_count == 0)) [
    | inl nobody ↦
        subst (λ (r : ThreadPool × Bool). Inv (record t { pool = r.0 }))
          (sym (if_false _ _ _ off ∙ if_true _ _ _ nobody)) v
    | inr some_threads ↦ elim (Bool-cases (ltb made t.pool.thread_count)) [
      | inl short ↦
          subst (λ (r : ThreadPool × Bool). Inv (record t { pool = r.0 }))
            (sym (if_false _ _ _ off ∙ if_false _ _ _ some_threads ∙ if_true _ _ _ short))
            (stop-Inv t (t.pool.threads ++ replicate made idle) v off)
      | inr enough ↦
          subst (λ (r : ThreadPool × Bool). Inv (record t { pool = r.0 }))
            (sym (if_false _ _ _ off ∙ if_false _ _ _ some_threads ∙ if_false _ _ _ enough))
            (record {
              ordered = v.ordered;
              drained = inl (started-Working t v off);
              closed = λ e. cc;
              manned = λ e. started-manned t v off some_threads;
            })
    ]
  ]
]

pub enqueues-Inv : (task : ℕ) (t : Trace) → Inv t → Inv (step (enqueues task) t)
unfolding step enqueue
enqueues-Inv task t v = elim (Bool-cases (not t.pool.started || t.pool.stopping)) [
  | inl refused ↦ subst (λ r. Inv (after_enqueue task t r)) (sym (if_true _ _ _ refused)) v
  | inr taken_in ↦
      subst (λ r. Inv (after_enqueue task t r)) (sym (if_false _ _ _ taken_in))
        (record {
          ordered =
              ap (λ l. l ++ task ∷ []) v.ordered ∙ append_assoc t.begun t.pool.tasks (task ∷ []);
          drained = ground arith;
          closed = λ e. ground arith;
          manned = v.manned;
        })
]

pub begins_stop-Inv : (t : Trace) → Inv t → Inv (step begins_stop t)
unfolding step begin_stop
begins_stop-Inv t v = elim (Bool-cases (not t.pool.started && length t.pool.threads == 0)) [
  | inl nothing ↦ subst (λ p. Inv (record t { pool = p })) (sym (if_true _ _ _ nothing)) v
  | inr going ↦
      subst (λ p. Inv (record t { pool = p })) (sym (if_false _ _ _ going))
        (record {
          ordered = v.ordered;
          drained = ground arith;
          closed = v.closed;
          manned = v.manned;
        })
]

-- When every thread has returned, no task waits.
pub returned-empty : (t : Trace) → Inv t → all_returned t.pool.threads ≡ true → t.pool.tasks ≡ []
returned-empty t v all = elim (Bool-cases t.pool.started) [
  | inl on ↦ elim v.drained [
    | inl working ↦ absurd (v.manned on (not-all_returned t.pool.threads working all))
    | inr done ↦ done.1
  ]
  | inr off ↦ (v.closed off).1
]

pub joined-Inv : (s : Stopper) (t : Trace) → Inv t → Inv (record t { pool = end_stop s t.pool })
unfolding end_stop
joined-Inv none_stopping t v = v
joined-Inv joining t v = elim (Bool-cases (all_returned t.pool.threads)) [
  | inl all ↦
      subst (λ p. Inv (record t { pool = p })) (sym (if_true _ _ _ all))
        (record {
          ordered = v.ordered ∙ ap (λ l. t.begun ++ l) (returned-empty t v all);
          drained = inl tt;
          closed = λ e. (refl, refl);
          manned = λ e. cc;
        })
  | inr others ↦ subst (λ p. Inv (record t { pool = p })) (sym (if_false _ _ _ others)) v
]

pub ends_stop-Inv : (t : Trace) → Inv t → Inv (step ends_stop t)
unfolding step
ends_stop-Inv t v = joined-Inv t.pool.stopper t v
