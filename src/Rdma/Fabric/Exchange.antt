-- ===== src/Rdma/Fabric/Exchange.antt =====
-- A message through the shared transport, from the call that sends it to the call that receives it.
use rdma_ai_platform.Common.{
  if_true, if_false, ap, inl, inr, ◌∷◌, Bool-cases, ◌∙◌, arith, if◌then◌else◌, tail, ◌≡◌, refl,
  true, some, [],
}
use rdma_ai_platform.Rdma.CompletionQueue.{CompletionQueue}
use rdma_ai_platform.Rdma.Fabric.{Fabric, send_through, receive_through}
use rdma_ai_platform.Rdma.QueuePair.{QueuePair, is_ready_to_send}
use rdma_ai_platform.Rdma.TransportRdma.Delivery.{poll_receive-post_send}
use rdma_ai_platform.Rdma.TransportRdma.Mailbox.{mailbox, mailbox-post_send, mailbox-poll_receive}
use rdma_ai_platform.Bounded.{push_bounded, push_bounded-nil}
use rdma_ai_platform.Rdma.TransportRdma.{Message, address}
use rdma_ai_platform.Text.{Text, text_eq, text_eq_iff}

-- Sending and receiving leave the buffers alone.
pub heap-send_through :
    (qp : QueuePair) (m : Message) (cq : CompletionQueue) (f : Fabric)
    → (send_through qp m cq f).1.heap ≡ f.heap
unfolding send_through
heap-send_through qp m cq f = refl

pub heap-receive_through : (node : Text) (f : Fabric) → (receive_through node f).0.heap ≡ f.heap
unfolding receive_through
heap-receive_through node f = refl

-- A message sent into an empty mailbox is what the node receives next.
pub receive_through-send_through :
    (qp : QueuePair) (m : Message) (cq : CompletionQueue) (f : Fabric) (node : Text)
    → is_ready_to_send qp ≡ true
    → qp.config.remote_node ≡ node
    → mailbox f.transport node ≡ []
    → (receive_through node (send_through qp m cq f).1).1 ≡ some (address qp m)
unfolding receive_through send_through
receive_through-send_through qp m cq f node ready named empty =
    rw (← named)
      (poll_receive-post_send f.now f.heap qp m
        (record { transport = f.transport; completions = cq; channels = f.channels }) ready
        (rw named empty)).0

-- A send through a ready pair lets the message into the receiver's mailbox and touches no other.
pub mailbox-send_through :
    (qp : QueuePair) (m : Message) (cq : CompletionQueue) (f : Fabric) (j : Text)
    → is_ready_to_send qp ≡ true
    → mailbox (send_through qp m cq f).1.transport j ≡ (
        if text_eq qp.config.remote_node j
        then push_bounded f.transport.config.mailbox_capacity
            (address qp m)
            (mailbox f.transport qp.config.remote_node)
        else mailbox f.transport j)
unfolding send_through
mailbox-send_through qp m cq f j ready =
    mailbox-post_send f.now f.heap qp m
      (record { transport = f.transport; completions = cq; channels = f.channels }) j
    ∙ ground (arith, ready)

pub mailbox-receive_through :
    (node : Text) (f : Fabric) (j : Text)
    → mailbox (receive_through node f).0.transport j
      ≡ (if text_eq node j then tail (mailbox f.transport node) else mailbox f.transport j)
unfolding receive_through
mailbox-receive_through node f j = (mailbox-poll_receive node f.transport j).1

-- A message sent into an empty mailbox and received leaves every mailbox that was empty so.
pub mailbox-receive_through_sent :
    (qp : QueuePair) (m : Message) (cq : CompletionQueue) (f : Fabric) (node j : Text)
    → is_ready_to_send qp ≡ true
    → qp.config.remote_node ≡ node
    → mailbox f.transport node ≡ []
    → mailbox f.transport j ≡ []
    → mailbox (receive_through node (send_through qp m cq f).1).0.transport j ≡ []
mailbox-receive_through_sent qp m cq f node j ready named empty quiet =
    let g = (send_through qp m cq f).1 in
    let capacity = f.transport.config.mailbox_capacity in
    let there : mailbox g.transport node ≡ address qp m ∷ [] =
      mailbox-send_through qp m cq f node ready
      ∙ ground (
        arith,
        text_eq_iff qp.config.remote_node node,
        push_bounded-nil capacity (address qp m),
      ) in
    let here = mailbox-send_through qp m cq f j ready in
    let left = mailbox-receive_through node g j in
    elim (Bool-cases (text_eq node j)) [
      | inl same ↦ left ∙ if_true _ _ _ same ∙ ap tail there
      | inr other ↦ left ∙ if_false _ _ _ other ∙ here ∙ ground arith
    ]
