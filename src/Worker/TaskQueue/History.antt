-- ===== src/Worker/TaskQueue/History.antt =====
-- A task queue against the history of the calls on it.
use rdma_ai_platform.Common.{
  if_true, if_false, subst, ◌≡◌, refl, sym, ap, ◌∙◌, inl, inr, Bool, true, false, List, [], ◌∷◌,
  ◌++◌, append_assoc, arith, Bool-cases,
}
use rdma_ai_platform.Worker.Task.{Task}
use rdma_ai_platform.Worker.TaskQueue.{TaskQueue, push, Popped, pops, pop_open, wait_pop, stop}

pub data Call : Type 0 where
  pushes : Task → Call
  pop_waits stop_calls : Call

-- The queue, the tasks that were accepted and those that were handed out, in order.
pub record Trace : Type 0 where
  pub queue : TaskQueue
  pub accepted : List Task
  pub handed_out : List Task

abbrev after_push : Task → Trace → TaskQueue × Bool → Trace
after_push task t (q, true) = record t { queue = q; accepted = t.accepted ++ task ∷ [] }
after_push task t (q, false) = record t { queue = q }

abbrev after_pop : Trace → TaskQueue × Popped → Trace
after_pop t (q, pops task) = record t { queue = q; handed_out = t.handed_out ++ task ∷ [] }
after_pop t (q, _) = record t { queue = q }

pub step : Call → Trace → Trace
step (pushes task) t = after_push task t (push task t.queue)
step pop_waits t = after_pop t (wait_pop t.queue)
step stop_calls t = record t { queue = stop t.queue }

pub run : List Call → Trace → Trace
run [] t = t
run (c ∷ cs) t = run cs (step c t)

abbrev pub InOrder : Trace → Type 0
InOrder t = t.accepted ≡ t.handed_out ++ t.queue.queue

pop-InOrder :
    (queued : List Task) (t : Trace)
    → t.queue.queue ≡ queued
    → InOrder t
    → InOrder (after_pop t (pop_open queued t.queue))
unfolding pop_open
pop-InOrder [] t e h = h
pop-InOrder (task ∷ rest) t e h =
    h ∙ ap (◌++◌ t.handed_out) e ∙ sym (append_assoc t.handed_out (task ∷ []) rest)

step-InOrder : (c : Call) (t : Trace) → InOrder t → InOrder (step c t)
unfolding step push wait_pop stop
step-InOrder (pushes task) t h = elim (Bool-cases t.queue.stopped) [
  | inl halted ↦ rw (halted, push) h
  | inr running ↦
      rw (running, push)
        (ap (λ l. l ++ task ∷ []) h ∙ append_assoc t.handed_out t.queue.queue (task ∷ []))
]
step-InOrder pop_waits t h = elim (Bool-cases t.queue.stopped) [
  | inl halted ↦ subst (λ r. InOrder (after_pop t r)) (sym (if_true t.queue.stopped _ _ halted)) h
  | inr running ↦
      subst (λ r. InOrder (after_pop t r)) (sym (if_false t.queue.stopped _ _ running))
        (pop-InOrder t.queue.queue t refl h)
]
step-InOrder stop_calls t h = h

-- Under any sequence of pushes, pops and stops, the tasks accepted are those handed out followed by
-- those that wait: none is lost, doubled or overtaken.
pub run-InOrder : (cs : List Call) (t : Trace) → InOrder t → InOrder (run cs t)
unfolding run
run-InOrder [] t h = h
run-InOrder (c ∷ cs) t h = run-InOrder cs (step c t) (step-InOrder c t h)

step-stopped :
    (c : Call) (t : Trace)
    → t.queue.stopped ≡ true
    → ((step c t).queue.stopped ≡ true)
      × ((step c t).accepted ≡ t.accepted)
      × ((step c t).handed_out ≡ t.handed_out)
unfolding step push wait_pop stop
step-stopped (pushes task) t h = ground arith
step-stopped pop_waits t h = ground arith
step-stopped stop_calls t h = (refl, refl, refl)

-- Once stopped, a queue accepts and hands out nothing more, also of the tasks still in it.
pub run-stopped :
    (cs : List Call) (t : Trace)
    → t.queue.stopped ≡ true
    → ((run cs t).accepted ≡ t.accepted) × ((run cs t).handed_out ≡ t.handed_out)
unfolding run
run-stopped [] t h = (refl, refl)
run-stopped (c ∷ cs) t h =
    let (still, a, o) = step-stopped c t h in
    let (a', o') = run-stopped cs (step c t) still in (a' ∙ a, o' ∙ o)
