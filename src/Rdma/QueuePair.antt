-- ===== src/Rdma/QueuePair.antt =====
-- rdma/include/rdma/queue_pair.h and rdma/src/queue_pair.cpp: a queue pair's state machine.
-- A method that changes the object returns the new object and its result.
pub mod Machine
use rdma_ai_platform.Common.{
  ℕ, ◌≡◌, refl, Bool, true, false, not, ◌&&◌, ◌||◌, ◌++◌, if◌then◌else◌, arith,
}
use rdma_ai_platform.Rdma.Types.{
  QueuePairState, reset, init, ready_to_receive, ready_to_send, state_to_string,
}
use rdma_ai_platform.Text.{Text, codes}

pub record QueuePairConfig : Type 0 where
  pub local_node : Text
  pub remote_node : Text
  pub max_send_wr : ℕ
  pub max_recv_wr : ℕ

pub record QueuePair : Type 0 where
  pub config : QueuePairConfig
  pub state : QueuePairState

-- `operator==` of the enumeration.
unfoldable pub state_eq : QueuePairState → QueuePairState → Bool
state_eq reset reset = true
state_eq init init = true
state_eq ready_to_receive ready_to_receive = true
state_eq ready_to_send ready_to_send = true
state_eq QueuePairState.error QueuePairState.error = true
state_eq _ _ = false

-- The constructor.
unfoldable pub make : QueuePairConfig → QueuePair
make config = record { config = config; state = reset }

-- The `switch` of `TransitionTo`: does a case return before the test behind it?
unfoldable pub next_in_order : QueuePairState → QueuePairState → Bool
unfolding state_eq
next_in_order reset next = state_eq next init
next_in_order init next = state_eq next ready_to_receive
next_in_order ready_to_receive next = state_eq next ready_to_send
next_in_order ready_to_send next = state_eq next QueuePairState.error
next_in_order QueuePairState.error next = false

unfoldable pub transition_to : QueuePair → QueuePairState → QueuePair × Bool
unfolding next_in_order state_eq
transition_to qp next =
    if next_in_order qp.state next
    then (record qp { state = next }, true)
    else if state_eq next QueuePairState.error
    then (record qp { state = next }, true)
    else (qp, false)

-- `if (state_ == from && !TransitionTo(next)) return false;`: the object behind the test, and
-- whether it is passed.
unfoldable pub advance_from : QueuePairState → QueuePairState → QueuePair → QueuePair × Bool
unfolding transition_to
advance_from from next qp = if state_eq qp.state from then transition_to qp next else (qp, true)

unfoldable pub bring_up : QueuePair → QueuePair × Bool
unfolding advance_from
bring_up qp =
    let (a, first) = advance_from reset init qp in
    if not first
    then (a, false)
    else let (b, second) = advance_from init ready_to_receive a in
      if not second
      then (b, false)
      else let (c, third) = advance_from ready_to_receive ready_to_send b in
        if not third then (c, false) else (c, state_eq c.state ready_to_send)

unfoldable pub is_ready_to_send : QueuePair → Bool
unfolding state_eq
is_ready_to_send qp = state_eq qp.state ready_to_send

unfoldable pub is_ready_to_receive : QueuePair → Bool
unfolding state_eq
is_ready_to_receive qp = state_eq qp.state ready_to_receive || state_eq qp.state ready_to_send

unfoldable pub describe : QueuePair → Text
describe qp =
    qp.config.local_node
    ++ (codes "->"
        ++ (qp.config.remote_node ++ (codes " (" ++ (state_to_string qp.state ++ codes ")"))))
