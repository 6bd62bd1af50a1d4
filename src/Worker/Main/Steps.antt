-- ===== src/Worker/Main/Steps.antt =====
-- What the steps of the process keep: where its worker is by the watcher's place.
use rdma_ai_platform.Common.{
  ℕ, List, [], ◌∷◌, ap, ◌∙◌, ◌≢◌, Bool, if_true, if_false, ◌≡◌, refl, sym, subst, inl, inr, true,
  false, Bool-cases,
}
use rdma_ai_platform.Worker.Main.{
  MainThread, tests, commits, blocked, joins, returned, Watcher, watches, stops, notifies, ended,
  Process, Event, signal, main_steps, watcher_steps, wakes, handle_signal, step_main, wake,
  step_watcher, step, run,
}
use rdma_ai_platform.Worker.WorkerNode.{WorkerNode, stop}

-- The worker by the watcher's place: as it was started, on the way to be stopped, or stopped. The
-- main thread is past its wait only if the worker does not run.
abbrev pub At : WorkerNode → Watcher → WorkerNode → Type 0
At n watches m = m ≡ n
At n stops m = m ≡ n
At n notifies m = m ≡ record n { running = false }
At n ended m = m ≡ stop n

-- The main thread is past its wait only if the worker does not run, and has returned only behind
-- the watcher.
abbrev pub Past : MainThread → Bool → Watcher → Type 0
Past joins running w = running ≡ false
Past (returned code) running w = (code ≡ 0) × (w ≡ ended)
Past _ running w = Unit

abbrev pub Asked : Watcher → Bool → Type 0
Asked watches stop_requested = Unit
Asked _ stop_requested = stop_requested ≡ true

pub record Inv (n : WorkerNode) (p : Process) : Type 0 where
  pub at : At n p.watcher p.node
  pub past : Past p.main_thread p.node.running p.watcher
  pub asked : Asked p.watcher p.stop_requested
  pub exits : p.exit_requested ≡ true → p.node.running ≡ false

Asked-signal : (w : Watcher) (b : Bool) → Asked w b → Asked w true
Asked-signal watches b h = tt
Asked-signal stops b h = refl
Asked-signal notifies b h = refl
Asked-signal ended b h = refl

wake-Past : (m : MainThread) (b : Bool) (w : Watcher) → Past m b w → Past (wake m) b w
unfolding wake
wake-Past blocked b w h = tt
wake-Past tests b w h = tt
wake-Past commits b w h = tt
wake-Past joins b w h = h
wake-Past (returned code) b w h = h

-- The watcher's steps stop the worker, which lets no thread that is past its wait fall back.
stopped-Past :
    (m : MainThread) (b : Bool) (w w' : Watcher) → w ≢ ended → Past m b w → Past m false w'
stopped-Past tests b w w' ne h = tt
stopped-Past commits b w w' ne h = tt
stopped-Past blocked b w w' ne h = tt
stopped-Past joins b w w' ne h = refl
stopped-Past (returned code) b w w' ne h = absurd (ne h.1)

moved-Past : (m : MainThread) (b : Bool) (w w' : Watcher) → w ≢ ended → Past m b w → Past m b w'
moved-Past tests b w w' ne h = tt
moved-Past commits b w w' ne h = tt
moved-Past blocked b w w' ne h = tt
moved-Past joins b w w' ne h = h
moved-Past (returned code) b w w' ne h = absurd (ne h.1)

ne-ended : (w w' : Watcher) → w ≡ w' → w' ≢ ended → w ≢ ended
ne-ended w w' e ne h = ne (sym e ∙ h)

module _ (n : WorkerNode) (up : n.running ≡ true) where
  joins-Inv : (w : Watcher) (p : Process) → p.watcher ≡ w → Inv n p → Inv n (step_main joins p)
  unfolding step_main
  joins-Inv ended p e v =
      rw (e, step_main) (record { at = v.at; past = (refl, e); asked = v.asked; exits = v.exits })
  joins-Inv watches p e v = rw (e, step_main) v
  joins-Inv stops p e v = rw (e, step_main) v
  joins-Inv notifies p e v = rw (e, step_main) v

  step_main-Inv :
      (m : MainThread) (p : Process) → p.main_thread ≡ m → Inv n p → Inv n (step_main m p)
  unfolding step_main
  step_main-Inv tests p e v = elim (Bool-cases p.node.running) [
    | inl on ↦
        subst (Inv n) (sym (if_true _ _ _ on))
          (record { at = v.at; past = tt; asked = v.asked; exits = v.exits })
    | inr off ↦
        subst (Inv n) (sym (if_false _ _ _ off))
          (record { at = v.at; past = off; asked = v.asked; exits = λ x. off })
  ]
  step_main-Inv commits p e v = record { at = v.at; past = tt; asked = v.asked; exits = v.exits }
  step_main-Inv blocked p e v = v
  step_main-Inv joins p e v = joins-Inv p.watcher p refl v
  step_main-Inv (returned code) p e v = v

  step_watcher-Inv :
      (w : Watcher) (p : Process) → p.watcher ≡ w → Inv n p → Inv n (step_watcher w p)
  unfolding step_watcher stop
  step_watcher-Inv watches p e v =
      let at : p.node ≡ n = subst (λ w. At n w p.node) e v.at in
      elim (Bool-cases p.stop_requested) [
        | inl asked ↦ subst (Inv n) (sym (if_true _ _ _ asked)) (record {
          at = at;
          past =
              moved-Past p.main_thread p.node.running p.watcher stops
                (ne-ended p.watcher watches e (λ f. cc)) v.past;
          asked = asked;
          exits = v.exits;
        })
        | inr quiet ↦ elim (Bool-cases p.exit_requested) [
          | inl leaves ↦
              let off = v.exits leaves in
              let on : p.node.running ≡ true = ap (λ (m : WorkerNode). m.running) at ∙ up in
              absurd (cc)
          | inr stays ↦ subst (Inv n) (sym (if_false _ _ _ quiet ∙ if_false _ _ _ stays)) v
        ]
      ]
  step_watcher-Inv stops p e v =
      let at : p.node ≡ n = subst (λ w. At n w p.node) e v.at in
      record {
        at = ap (λ (m : WorkerNode). record m { running = false }) at;
        past =
            stopped-Past p.main_thread p.node.running p.watcher notifies
              (ne-ended p.watcher stops e (λ f. cc)) v.past;
        asked = subst (λ w. Asked w p.stop_requested) e v.asked;
        exits = λ x. refl;
      }
  step_watcher-Inv notifies p e v =
      let at : p.node ≡ record n { running = false } = subst (λ w. At n w p.node) e v.at in
      record {
        at = ap stop at;
        past = wake-Past p.main_thread false ended (
            stopped-Past p.main_thread p.node.running p.watcher ended
              (ne-ended p.watcher notifies e (λ f. cc)) v.past);
        asked = subst (λ w. Asked w p.stop_requested) e v.asked;
        exits = λ x. refl;
      }
  step_watcher-Inv ended p e v = v

  step-Inv : (e : Event) (p : Process) → Inv n p → Inv n (step e p)
  unfolding step handle_signal
  step-Inv signal p v = record {
    at = v.at;
    past = v.past;
    asked = Asked-signal p.watcher p.stop_requested v.asked;
    exits = v.exits;
  }
  step-Inv main_steps p v = step_main-Inv p.main_thread p refl v
  step-Inv watcher_steps p v = step_watcher-Inv p.watcher p refl v
  step-Inv wakes p v = record {
    at = v.at;
    past = wake-Past p.main_thread p.node.running p.watcher v.past;
    asked = v.asked;
    exits = v.exits;
  }

  run-Inv : (es : List Event) (p : Process) → Inv n p → Inv n (run es p)
  unfolding run
  run-Inv [] p v = v
  run-Inv (e ∷ es) p v = run-Inv es (step e p) (step-Inv e p v)

  pub run_returned :
      (es : List Event) (p : Process) (code : ℕ)
      → Inv n p
      → (run es p).main_thread ≡ returned code
      → (code ≡ 0) × ((run es p).node ≡ stop n) × ((run es p).stop_requested ≡ true)
  run_returned es p code v r =
      let q = run es p in
      let w = run-Inv es p v in
      let past : (code ≡ 0) × (q.watcher ≡ ended) =
        subst (λ m. Past m q.node.running q.watcher) r w.past in
      (
        past.0,
        subst (λ t. At n t q.node) past.1 w.at,
        subst (λ t. Asked t q.stop_requested) past.1 w.asked,
      )
