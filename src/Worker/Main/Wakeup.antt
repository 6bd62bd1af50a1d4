-- ===== src/Worker/Main/Wakeup.antt =====
-- A signal ends the process, unless it comes while the main thread is about to block.
use rdma_ai_platform.Common.{refl, ◌≡◌, sym, ap, subst, Bool, true, false, List, [], ◌∷◌}
use rdma_ai_platform.Worker.Main.{
  commits, blocked, returned, watches, ended, Process, Event, signal, main_steps, watcher_steps,
  wakes, handle_signal, step_main, wake, step_watcher, step, run,
}
use rdma_ai_platform.Worker.WorkerNode.{stop}

-- A signal, and the watcher's steps up to the end of `stop`.
abbrev pub signalled : List Event → List Event
signalled es = signal ∷ watcher_steps ∷ watcher_steps ∷ watcher_steps ∷ es

-- With the main thread blocked and the watcher in its loop, a signal, the watcher's steps and two
-- steps of the main thread let `main` return 0.
pub run-signalled :
    (p : Process)
    → p.main_thread ≡ blocked
    → p.watcher ≡ watches
    → (run (signalled (main_steps ∷ main_steps ∷ [])) p).main_thread ≡ returned 0
unfolding run step handle_signal step_watcher step_main wake stop
run-signalled p m w = rw (m, w) refl

abbrev pub unprompted : List Event → Bool
unprompted [] = true
unprompted (wakes ∷ es) = false
unprompted (_ ∷ es) = unprompted es

stuck :
    (es : List Event) (p : Process)
    → unprompted es ≡ true
    → p.main_thread ≡ blocked
    → p.watcher ≡ ended
    → (run es p).main_thread ≡ blocked
unfolding run step handle_signal
stuck [] p u m w = m
stuck (signal ∷ es) p u m w = stuck es (handle_signal p) u m w
stuck (main_steps ∷ es) p u m w =
    subst (λ q. (run es q).main_thread ≡ blocked) (sym (ap (λ t. step_main t p) m))
      (unfold step_main in stuck es p u m w)
stuck (watcher_steps ∷ es) p u m w =
    subst (λ q. (run es q).main_thread ≡ blocked) (sym (ap (λ t. step_watcher t p) w))
      (unfold step_watcher in stuck es p u m w)
stuck (wakes ∷ es) p u m w = cc

-- A signal, and all of `stop`, after the main thread has tested its condition and before it blocks:
-- the notification is lost, and whatever happens then, short of a wait that ends with no
-- notification, the main thread stays blocked.
pub run_lost :
    (es : List Event) (p : Process)
    → unprompted es ≡ true
    → p.main_thread ≡ commits
    → p.watcher ≡ watches
    → (run (signalled (main_steps ∷ es)) p).main_thread ≡ blocked
unfolding run step handle_signal step_watcher step_main wake
run_lost es p u m w = rw (m, w) (stuck es _ u refl refl)
