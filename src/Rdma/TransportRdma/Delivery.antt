-- ===== src/Rdma/TransportRdma/Delivery.antt =====
-- What a send promises: the message at the end of the receiver's mailbox and an event for the
-- sender; and the bound on the mailboxes.
use rdma_ai_platform.Bounded.{push_bounded-nil, length-push_bounded, length-tail}
use rdma_ai_platform.Common.{
  tail, refl, ap, ◌∙◌, List, ◌∷◌, ◌≤◌, ◌<◌, ◌≡◌, true, some, [], arith, length, if◌then◌else◌, ℕ,
}
use rdma_ai_platform.Rdma.CompletionQueue.{push}
use rdma_ai_platform.Rdma.Heap.{Heap}
use rdma_ai_platform.Rdma.QueuePair.{QueuePair, is_ready_to_send}
use rdma_ai_platform.Rdma.TransportRdma.Mailbox.{
  mailbox, mailbox-post_send, mailbox-poll_receive, first, mailbox-connect,
}
use rdma_ai_platform.Rdma.TransportRdma.{
  deliver, receive_from, Message, TransportRdma, Wire, connect, complete, address, post_send,
  poll_receive, send_event, message_size,
}
use rdma_ai_platform.Rdma.Types.{TimePoint, success, failed}
use rdma_ai_platform.Text.{Text, text_eq_refl, codes}

-- The event that a send pushes: a failure with no bytes for a pair that may not send, and a success
-- with the payload's size otherwise. Exactly one event is pushed on either branch.
pub completions-post_send :
    (now : TimePoint) (h : Heap) (qp : QueuePair) (m : Message) (w : Wire)
    → let w' = post_send now h qp m w in
      let event =
        if is_ready_to_send qp
        then send_event now qp m success
            (codes "send completed through in-memory RDMA backend")
            (message_size m h)
        else send_event now qp m failed (codes "queue pair is not ready to send") 0 in
      (w'.completions ≡ (push event w.completions w.channels).0)
      × (w'.channels ≡ (push event w.completions w.channels).1)
unfolding post_send complete
completions-post_send now h qp m w = ground arith

-- A message sent into an empty mailbox is the next one that its node receives, addressed to it, and
-- the mailbox is then empty again.
pub poll_receive-post_send :
    (now : TimePoint) (h : Heap) (qp : QueuePair) (m : Message) (w : Wire)
    → is_ready_to_send qp ≡ true
    → mailbox w.transport qp.config.remote_node ≡ []
    → let (t, received) = poll_receive qp.config.remote_node (post_send now h qp m w).transport in
      (received ≡ some (address qp m)) × (mailbox t qp.config.remote_node ≡ [])
poll_receive-post_send now h qp m w ready e =
    let node = qp.config.remote_node in
    let sent : mailbox (post_send now h qp m w).transport node ≡ address qp m ∷ [] = ground (
      arith,
      mailbox-post_send now h qp m w node,
      text_eq_refl node,
      push_bounded-nil w.transport.config.mailbox_capacity (address qp m),
    ) in
    let (out, left) = mailbox-poll_receive node (post_send now h qp m w).transport node in
    (out ∙ ap first sent, left ∙ rw (text_eq_refl node) (ap tail sent))

-- What a program does to a transport that it shares.
pub data Operation : Type 0 where
  connects : QueuePair → Operation
  sends : TimePoint → Heap → QueuePair → Message → Operation
  polls : Text → Operation

unfoldable pub operate : Operation → Wire → Wire
operate (connects qp) w = record w { transport = connect qp w.transport }
operate (sends now h qp m) w = post_send now h qp m w
operate (polls node) w = record w { transport = (poll_receive node w.transport).0 }

unfoldable pub operate_all : List Operation → Wire → Wire
operate_all [] w = w
operate_all (o ∷ os) w = operate_all os (operate o w)

-- No mailbox holds more than the capacity, which is `n`.
pub record IsBounded (n : ℕ) (t : TransportRdma) : Type 0 where
  pub capacity : t.config.mailbox_capacity ≡ n
  pub within : (node : Text) → length (mailbox t node) ≤ n

pub operate-config :
    (o : Operation) (w : Wire) → (operate o w).transport.config ≡ w.transport.config
unfolding operate connect post_send complete deliver poll_receive receive_from
operate-config (connects qp) w = refl
operate-config (sends now h qp m) w = ground arith
operate-config (polls node) w = ground arith

operate-within :
    (n : ℕ) (o : Operation) (w : Wire)
    → 0 < n
    → IsBounded n w.transport
    → (j : Text) → length (mailbox (operate o w).transport j) ≤ n
unfolding operate
operate-within n (connects qp) w pos v j = rw (mailbox-connect qp w.transport j) (v.within j)
operate-within n (sends now h qp m) w pos v j = ground (
  arith,
  mailbox-post_send now h qp m w j,
  v.within j,
  v.capacity,
  length-push_bounded n (address qp m) (mailbox w.transport qp.config.remote_node) pos
      (v.within qp.config.remote_node),
)
operate-within n (polls node) w pos v j = ground (
  arith,
  mailbox-poll_receive node w.transport j,
  v.within j,
  v.within node,
  length-tail (mailbox w.transport node),
)

operate-IsBounded :
    (n : ℕ) (o : Operation) (w : Wire)
    → 0 < n
    → IsBounded n w.transport
    → IsBounded n (operate o w).transport
operate-IsBounded n o w pos v = record {
  capacity = ap (λ c. c.mailbox_capacity) (operate-config o w) ∙ v.capacity;
  within = operate-within n o w pos v;
}

-- Under any sequence of connects, sends and polls, no mailbox ever holds more messages than the
-- configured capacity, where that is not zero.
pub operate_all-IsBounded :
    (n : ℕ) (os : List Operation) (w : Wire)
    → 0 < n
    → IsBounded n w.transport
    → IsBounded n (operate_all os w).transport
unfolding operate_all
operate_all-IsBounded n [] w pos v = v
operate_all-IsBounded n (o ∷ os) w pos v =
    operate_all-IsBounded n os (operate o w) pos (operate-IsBounded n o w pos v)
