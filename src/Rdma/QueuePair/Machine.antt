-- ===== src/Rdma/QueuePair/Machine.antt =====
-- The transitions that `TransitionTo` allows, as a relation of states, and what `BringUp` reaches.
use rdma_ai_platform.Common.{
  subst, inl, inr, ◌≢◌, ◌⊎◌, false, List, [], ◌∷◌, if◌then◌else◌, ap, ◌≡◌, ◌↔◌, refl, true, arith,
}
use rdma_ai_platform.Subsequence.{Subsequence, done, skip, keep}
use rdma_ai_platform.Rdma.QueuePair.{state_eq, bring_up, QueuePair, QueuePairConfig, transition_to}
use rdma_ai_platform.Rdma.Types.{QueuePairState, reset, init, ready_to_receive, ready_to_send}

-- The bring-up order, and a failure from anywhere.
pub data Step : QueuePairState → QueuePairState → Type 0 where
  initialise : Step reset init
  open_receive : Step init ready_to_receive
  open_send : Step ready_to_receive ready_to_send
  fail : (s : QueuePairState) → Step s QueuePairState.error

Step-transition :
    {s t : QueuePairState} (qp : QueuePair)
    → qp.state ≡ s
    → Step s t
    → transition_to qp t ≡ (record qp { state = t }, true)
unfolding transition_to
Step-transition qp e initialise = ground arith
Step-transition qp e open_receive = ground arith
Step-transition qp e open_send = ground arith
Step-transition qp e (fail s) = ground arith

transition-Step :
    (s t : QueuePairState) (c : QueuePairConfig)
    → (transition_to (record { config = c; state = s }) t).1 ≡ true
    → Step s t
unfolding transition_to
transition-Step reset init c h = initialise
transition-Step init ready_to_receive c h = open_receive
transition-Step ready_to_receive ready_to_send c h = open_send
transition-Step s QueuePairState.error c h = fail s
transition-Step _ _ c h = cc

-- `TransitionTo` accepts exactly the steps of the machine.
pub transition_to-iff-Step :
    (qp : QueuePair) (t : QueuePairState) → ((transition_to qp t).1 ≡ true) ↔ Step qp.state t
transition_to-iff-Step qp t =
    (transition-Step qp.state t qp.config, λ s. ap (λ r. r.1) (Step-transition qp refl s))

-- `BringUp` takes every queue pair to the state in which it may send, with its configuration
-- kept, unless it is in the error state: then it changes nothing and says so.
pub bring_up_lem :
    (qp : QueuePair)
    → bring_up qp ≡ (
        if state_eq qp.state QueuePairState.error
        then (qp, false)
        else (record qp { state = ready_to_send }, true))
unfolding bring_up state_eq
bring_up_lem qp = ground arith

-- The states that a fresh queue pair still has to be asked for before it may send.
abbrev pub needed : QueuePairState → List QueuePairState
needed reset = init ∷ ready_to_receive ∷ ready_to_send ∷ []
needed init = ready_to_receive ∷ ready_to_send ∷ []
needed ready_to_receive = ready_to_send ∷ []
needed ready_to_send = []
needed QueuePairState.error = []

-- Requests for states, one after the other; a refused one changes nothing.
unfoldable pub request_all : List QueuePairState → QueuePair → QueuePair
request_all [] qp = qp
request_all (t ∷ ts) qp = request_all ts (transition_to qp t).0

-- Where a request leads: the next state in order, the error state, or nowhere.
request_cases :
    (s t : QueuePairState) (c : QueuePairConfig)
    → let s' = (transition_to (record { config = c; state = s }) t).0.state in
      ((needed s ≡ t ∷ needed s') × (s' ≢ QueuePairState.error))
      ⊎ (s' ≡ s)
      ⊎ (s' ≡ QueuePairState.error)
unfolding transition_to
request_cases s t c = ground arith

request_all-error :
    (ts : List QueuePairState) (qp : QueuePair)
    → qp.state ≡ QueuePairState.error
    → (request_all ts qp).state ≡ QueuePairState.error
unfolding request_all
request_all-error [] qp e = e
request_all-error (t ∷ ts) qp e = request_all-error ts (transition_to qp t).0 (stays t)
  where
    stays : (t : QueuePairState) → (transition_to qp t).0.state ≡ QueuePairState.error
    stays t = unfold transition_to in ground arith

-- A sequence of requests after which a queue pair may send asks, in this order, for each state
-- that the pair still needed: a fresh pair for all three of the bring-up. No other sequence does.
pub request_all-needed :
    (ts : List QueuePairState) (qp : QueuePair)
    → (request_all ts qp).state ≡ ready_to_send
    → Subsequence (needed qp.state) ts
unfolding request_all
request_all-needed [] qp e = rw e (done [])
request_all-needed (t ∷ ts) qp e = elim (request_cases qp.state t qp.config) [
  | inl (next, _) ↦ rw next (keep (request_all-needed ts (transition_to qp t).0 e))
  | inr (inl same) ↦
      skip (
        subst (λ s. Subsequence (needed s) ts) same
          (request_all-needed ts (transition_to qp t).0 e))
  | inr (inr failed) ↦ cc (request_all-error ts (transition_to qp t).0 failed)
]
