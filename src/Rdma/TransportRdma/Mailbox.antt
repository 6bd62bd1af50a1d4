-- ===== src/Rdma/TransportRdma/Mailbox.antt =====
-- The transport seen as a mailbox for each node: every operation by what it does to each mailbox.
use mathlib.Core.Path.{ap₂}
use rdma_ai_platform.Assoc.{find, emplace, find-assign, find-emplace, or_else}
use rdma_ai_platform.Bounded.{push_bounded}
use rdma_ai_platform.Common.{
  refl, ap, ◌∙◌, tail, ◌≡◌, ◌&&◌, Option, none, some, List, [], ◌∷◌, arith, if◌then◌else◌,
}
use rdma_ai_platform.Rdma.QueuePair.{QueuePair, is_ready_to_send}
use rdma_ai_platform.Rdma.TransportRdma.{
  Message, TransportRdma, Wire, connect, deliver, complete, address, post_send, receive_from,
  poll_receive,
}
use rdma_ai_platform.Rdma.Heap.{Heap}
use rdma_ai_platform.Rdma.Types.{TimePoint}
use rdma_ai_platform.Text.{Text, text_eq, text_eq_iff}

-- The messages that wait for a node; none for a node that the broker has not heard of.
unfoldable pub mailbox : TransportRdma → Text → List Message
mailbox t node = or_else (find node t.inboxes) []

-- The first entry of a list.
abbrev pub first {ℓ} : {A : Type ℓ} → List A → Option A
first [] = none
first (x ∷ xs) = some x

pub mailbox-connect :
    (qp : QueuePair) (t : TransportRdma) (j : Text) → mailbox (connect qp t) j ≡ mailbox t j
unfolding mailbox connect
mailbox-connect qp t j = ground (
  arith,
  find-emplace qp.config.remote_node j [] (emplace qp.config.local_node [] t.inboxes),
  find-emplace qp.config.local_node j [] t.inboxes,
  find-emplace qp.config.local_node qp.config.remote_node [] t.inboxes,
  text_eq_iff qp.config.remote_node j,
  text_eq_iff qp.config.local_node j,
)

pub mailbox-deliver :
    (node : Text) (m : Message) (t : TransportRdma) (j : Text)
    → mailbox (deliver node m t) j ≡ (
        if text_eq node j
        then push_bounded t.config.mailbox_capacity m (mailbox t node)
        else mailbox t j)
unfolding mailbox deliver
mailbox-deliver node m t j =
    let after = push_bounded t.config.mailbox_capacity m (mailbox t node) in
    ground (arith, find-assign node j after t.inboxes)

-- A send through a ready pair puts the message, addressed, into the receiver's mailbox and touches
-- no other; through a pair that is not ready it touches none.
pub mailbox-post_send :
    (now : TimePoint) (h : Heap) (qp : QueuePair) (m : Message) (w : Wire) (j : Text)
    → mailbox (post_send now h qp m w).transport j ≡ (
        if is_ready_to_send qp && text_eq qp.config.remote_node j
        then push_bounded w.transport.config.mailbox_capacity
            (address qp m)
            (mailbox w.transport qp.config.remote_node)
        else mailbox w.transport j)
unfolding post_send complete
mailbox-post_send now h qp m w j =
    ground (arith, mailbox-deliver qp.config.remote_node (address qp m) w.transport j)

mailbox-emplace :
    (node : Text) (t : TransportRdma) (j : Text)
    → mailbox (record t { inboxes = emplace node [] t.inboxes }) j ≡ mailbox t j
unfolding mailbox
mailbox-emplace node t j = ground (arith, find-emplace node j [] t.inboxes, text_eq_iff node j)

receive_from-mailbox :
    (node : Text) (inbox : List Message) (t : TransportRdma) (j : Text)
    → mailbox t node ≡ inbox
    → ((receive_from node inbox t).1 ≡ first inbox)
      × (mailbox (receive_from node inbox t).0 j
          ≡ (if text_eq node j then tail inbox else mailbox t j))
unfolding receive_from mailbox
receive_from-mailbox node [] t j e = ground (arith, text_eq_iff node j)
receive_from-mailbox node (m ∷ rest) t j e =
    (refl, ground (arith, find-assign node j rest t.inboxes))

-- A poll returns the oldest message that waits for the node, if there is one, and takes that
-- message alone out of that mailbox alone.
pub mailbox-poll_receive :
    (node : Text) (t : TransportRdma) (j : Text)
    → ((poll_receive node t).1 ≡ first (mailbox t node))
      × (mailbox (poll_receive node t).0 j
          ≡ (if text_eq node j then tail (mailbox t node) else mailbox t j))
unfolding poll_receive mailbox
mailbox-poll_receive node t j =
    let seen = record t { inboxes = emplace node [] t.inboxes } in
    let (out, left) = receive_from-mailbox node (mailbox seen node) seen j refl in
    (
      out ∙ ap first (mailbox-emplace node t node),
      left
          ∙ ap₂ (λ a b. if text_eq node j then tail a else b) (mailbox-emplace node t node)
              (mailbox-emplace node t j),
    )
