-- ===== src/Worker/Main/Stopped.antt =====
-- The process returns only with its worker stopped.
use rdma_ai_platform.Common.{
  ◌⊎◌, if◌then◌else◌, ℕ, List, [], ◌∷◌, ap, ◌∙◌, if_false, ◌≡◌, refl, sym, subst, inl, inr, true,
  false,
}
use rdma_ai_platform.Worker.Main.{
  tests, returned, watches, ended, Process, Event, signal, main_steps, watcher_steps, wakes, begin,
  handle_signal, step_main, wake, step_watcher, step, run,
}
use rdma_ai_platform.Worker.WorkerNode.Running.{IsIdle, stop-IsIdle}
use rdma_ai_platform.Worker.WorkerNode.Lifecycle.{start-Outcome, settled-IsTidy, new_node-IsIdle}
use rdma_ai_platform.Worker.WorkerNode.{Environment, new_node, start, stop}
use rdma_ai_platform.Worker.Main.Steps.{Inv, run_returned}

-- A process that has returned from `main` stays so, and nothing changes its worker.
failed_start :
    (es : List Event) (p : Process)
    → p.main_thread ≡ returned 1
    → p.watcher ≡ ended
    → ((run es p).main_thread ≡ returned 1) × ((run es p).node ≡ p.node)
unfolding run step step_main step_watcher wake handle_signal
failed_start [] p m w = (m, refl)
failed_start (signal ∷ es) p m w = failed_start es (handle_signal p) m w
failed_start (main_steps ∷ es) p m w =
    subst (λ q. ((run es q).main_thread ≡ returned 1) × ((run es q).node ≡ p.node))
      (sym (ap (λ t. step_main t p) m)) (failed_start es p m w)
failed_start (watcher_steps ∷ es) p m w =
    subst (λ q. ((run es q).main_thread ≡ returned 1) × ((run es q).node ≡ p.node))
      (sym (ap (λ t. step_watcher t p) w)) (failed_start es p m w)
failed_start (wakes ∷ es) p m w =
    failed_start es (record p { main_thread = wake p.main_thread }) (ap wake m) w

begin-Inv : (e : Environment) → (start e new_node).1 ≡ true → Inv (start e new_node).0 (begin e)
unfolding begin
begin-Inv e ok =
    subst
      (λ b. Inv (start e new_node).0 (record {
        node = (start e new_node).0;
        main_thread = if b then tests else returned 1;
        watcher = if b then watches else ended;
        stop_requested = false;
        exit_requested = false;
      }))
      (sym ok) (record { at = refl; past = tt; asked = tt; exits = λ x. cc })

begin-failed :
    (e : Environment)
    → (start e new_node).1 ≡ false
    → ((begin e).main_thread ≡ returned 1)
      × ((begin e).watcher ≡ ended)
      × ((begin e).node ≡ (start e new_node).0)
unfolding begin
begin-failed e bad = (if_false _ _ _ bad, if_false _ _ _ bad, refl)

returned_inj : (a b : ℕ) → returned a ≡ returned b → a ≡ b
returned_inj a b e = cc

-- However signals, the threads' steps and the ends of waits interleave: where `main` has returned,
-- nothing of the worker runs. It has returned 1 and the start failed, or 0 and the start succeeded,
-- a signal came, and the worker is the started one, stopped.
pub run-IsIdle :
    (e : Environment) (es : List Event) (code : ℕ)
    → (run es (begin e)).main_thread ≡ returned code
    → let p = run es (begin e) in
      let (started, ok) = start e new_node in
      IsIdle p.node
      × (((code ≡ 1) × (ok ≡ false))
          ⊎ ((code ≡ 0) × (ok ≡ true) × (p.stop_requested ≡ true) × (p.node ≡ stop started)))
run-IsIdle e es code r = elim (start-Outcome e new_node new_node-IsIdle) [
  | inl (ok, up) ↦
      let n = (start e new_node).0 in
      let (zero_code, stopped, asked) =
        run_returned n up.running es (begin e) code (begin-Inv e ok) r in
      (
        subst IsIdle (sym stopped) (stop-IsIdle n (settled-IsTidy n (inl up))),
        inr (zero_code, ok, asked, stopped),
      )
  | inr (bad, idle) ↦
      let (main_at, watcher_at, same) = begin-failed e bad in
      let (still, node) = failed_start es (begin e) main_at watcher_at in
      (subst IsIdle (sym (node ∙ same)) idle, inl (returned_inj code 1 (sym r ∙ still), bad))
]
