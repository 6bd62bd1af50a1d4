-- ===== src/Rdma/TransportRdma/History.antt =====
-- What a broker's node is sent and what it receives, over any sequence of connects, sends and polls
-- by all who share the broker.
use rdma_ai_platform.Common.{
  ◌+◌, ◌≤◌, sym, subst, append_assoc, length-append, ◌⊎◌, append-nil, arith, tail, ltb, if_true,
  if_false, ℕ, ◌≡◌, refl, ap, ◌∙◌, inl, inr, ◌&&◌, Option, none, some, List, [], ◌∷◌, ◌++◌, length,
  ltb, leb, if◌then◌else◌, Bool-cases,
}
use mathlib.Core.Path.{ap₂}
use rdma_ai_platform.Bounded.{push_room, push_bounded}
use rdma_ai_platform.Rdma.QueuePair.{QueuePair, is_ready_to_send}
use rdma_ai_platform.Rdma.TransportRdma.{Heap, TimePoint, Message, Wire, address, poll_receive}
use rdma_ai_platform.Rdma.TransportRdma.Delivery.{
  connects, operate-config, operate_all, Operation, sends, polls, operate,
}
use rdma_ai_platform.Rdma.TransportRdma.Mailbox.{
  mailbox-connect, mailbox-post_send, mailbox, first, mailbox-poll_receive,
}
use rdma_ai_platform.Subsequence.{
  Subsequence-suffix, Subsequence-prefix, Subsequence-trans, Subsequence, skip, Subsequence-refl,
}
use rdma_ai_platform.Text.{Text, text_eq, text_eq_iff}

abbrev to_list {ℓ} : {A : Type ℓ} → Option A → List A
to_list none = []
to_list (some x) = x ∷ []

-- What an operation sends to a node: the message, addressed, if its pair may send.
abbrev pub sent : Text → Operation → List Message
sent node (sends now h qp m) =
    if is_ready_to_send qp && text_eq qp.config.remote_node node then address qp m ∷ [] else []
sent node _ = []

-- What a node receives by an operation.
abbrev pub received : Text → Operation → Wire → List Message
received node (polls j) w = if text_eq j node then to_list ((poll_receive j w.transport).1) else []
received node _ w = []

-- What a node is sent and what it receives by a sequence of operations, in order.
abbrev pub sent_all : Text → List Operation → List Message
sent_all node [] = []
sent_all node (o ∷ os) = sent node o ++ sent_all node os

abbrev pub received_all : Text → List Operation → Wire → List Message
received_all node [] w = []
received_all node (o ∷ os) w = received node o w ++ received_all node os (operate o w)

push_bounded-Subsequence {ℓ} :
    {A : Type ℓ} (n : ℕ) (x : A) (xs : List A) → Subsequence (push_bounded n x xs) (xs ++ x ∷ [])
unfolding push_bounded
push_bounded-Subsequence n x [] = elim (Bool-cases (ltb 0 n && leb n 0)) [
  | inl full ↦ rw full (Subsequence-refl _)
  | inr room ↦ rw room (Subsequence-refl _)
]
push_bounded-Subsequence n x (y ∷ xs) = elim (Bool-cases (ltb 0 n && leb n (length (y ∷ xs)))) [
  | inl full ↦ rw full (skip (Subsequence-refl _))
  | inr room ↦ rw room (Subsequence-refl _)
]

first-tail {ℓ} : {A : Type ℓ} (xs : List A) → to_list (first xs) ++ tail xs ≡ xs
first-tail [] = refl
first-tail (x ∷ xs) = refl

-- One operation: what the node receives, and then its mailbox.
abbrev after : Text → Operation → Wire → List Message
after node o w = received node o w ++ mailbox (operate o w).transport node

polls-after : (node j : Text) (w : Wire) → after node (polls j) w ≡ mailbox w.transport node
unfolding operate
polls-after node j w = elim (Bool-cases (text_eq j node)) [
  | inl same ↦
      let (out, left) = mailbox-poll_receive j w.transport node in
      let e : j ≡ node = (text_eq_iff j node).0 same in
      ap₂ (λ a b. a ++ b) (if_true _ _ _ same ∙ ap to_list out) (left ∙ if_true _ _ _ same)
      ∙ first-tail (mailbox w.transport j)
      ∙ ap (mailbox w.transport) e
  | inr other ↦
      let (out, left) = mailbox-poll_receive j w.transport node in
      ap₂ (λ a b. a ++ b) (if_false _ _ _ other) (left ∙ if_false _ _ _ other)
]

connects-after :
    (node : Text) (qp : QueuePair) (w : Wire)
    → after node (connects qp) w ≡ mailbox w.transport node
unfolding operate
connects-after node qp w = mailbox-connect qp w.transport node

sends-after :
    (node : Text) (now : TimePoint) (h : Heap) (qp : QueuePair) (m : Message) (w : Wire)
    → (after node (sends now h qp m) w
          ≡ push_bounded w.transport.config.mailbox_capacity
              (address qp m)
              (mailbox w.transport node))
        × (sent node (sends now h qp m) ≡ address qp m ∷ [])
      ⊎ (after node (sends now h qp m) w ≡ mailbox w.transport node)
        × (sent node (sends now h qp m) ≡ [])
unfolding operate
sends-after node now h qp m w =
    elim (Bool-cases (is_ready_to_send qp && text_eq qp.config.remote_node node)) [
      | inl there ↦
          let e : qp.config.remote_node ≡ node =
            (text_eq_iff qp.config.remote_node node).0 (ground arith) in
          inl (
            mailbox-post_send now h qp m w node
                ∙ if_true _ _ _ there
                ∙ ap
                    (λ j.
                      push_bounded w.transport.config.mailbox_capacity (address qp m)
                        (mailbox w.transport j))
                    e,
            if_true _ _ _ there,
          )
      | inr elsewhere ↦
          inr (
            mailbox-post_send now h qp m w node ∙ if_false _ _ _ elsewhere,
            if_false _ _ _ elsewhere,
          )
    ]

after-Subsequence :
    (node : Text) (o : Operation) (w : Wire)
    → Subsequence (after node o w) (mailbox w.transport node ++ sent node o)
after-Subsequence node (connects qp) w =
    rw (connects-after node qp w, append-nil) (Subsequence-refl _)
after-Subsequence node (polls j) w = rw (polls-after node j w, append-nil) (Subsequence-refl _)
after-Subsequence node (sends now h qp m) w = elim (sends-after node now h qp m w) [
  | inl (e, s) ↦ rw (e, s) (push_bounded-Subsequence _ _ _)
  | inr (e, s) ↦ rw (e, s, append-nil) (Subsequence-refl _)
]

-- What was received by one operation and then by the others, from what was left.
after-then {ℓ} :
    {A : Type ℓ} (received left start sent rest later : List A)
    → Subsequence (received ++ left) (start ++ sent)
    → Subsequence rest (left ++ later)
    → Subsequence (received ++ rest) (start ++ (sent ++ later))
after-then received left start sent rest later p q =
    Subsequence-trans (Subsequence-prefix received q) (
      subst (λ l. Subsequence l (start ++ (sent ++ later))) (append_assoc received left later)
        (subst (Subsequence (received ++ left ++ later)) (append_assoc start sent later)
          (Subsequence-suffix later p)))

-- Under any sequence of connects, sends and polls, the messages that a node received and those that
-- wait for it are, in the order in which they were sent, messages that waited at the start or that
-- were sent to it through a pair that may send: none is made up, none comes twice and none
-- overtakes another.
pub operate_all-Subsequence :
    (node : Text) (os : List Operation) (w : Wire)
    → Subsequence
        (received_all node os w ++ mailbox (operate_all os w).transport node)
        (mailbox w.transport node ++ sent_all node os)
unfolding operate_all
operate_all-Subsequence node [] w = rw append-nil (Subsequence-refl _)
operate_all-Subsequence node (o ∷ os) w = rw (append_assoc (received node o w)) (
    after-then _ _ _ _ _ _ (after-Subsequence node o w)
      (operate_all-Subsequence node os (operate o w)))

-- While the mailbox has room for what is sent.
after-room :
    (node : Text) (o : Operation) (w : Wire)
    → length (mailbox w.transport node) + length (sent node o) ≤ w.transport.config.mailbox_capacity
    → after node o w ≡ mailbox w.transport node ++ sent node o
after-room node (connects qp) w room = connects-after node qp w ∙ sym (append-nil _)
after-room node (polls j) w room = polls-after node j w ∙ sym (append-nil _)
after-room node (sends now h qp m) w room = elim (sends-after node now h qp m w) [
  | inl (e, s) ↦
      e
      ∙ push_room _ _ _ (omega (arith, ap length s))
      ∙ ap (λ l. mailbox w.transport node ++ l) (sym s)
  | inr (e, s) ↦ e ∙ sym (append-nil _) ∙ ap (λ l. mailbox w.transport node ++ l) (sym s)
]

-- Where the messages that wait for a node and all that are sent to it fit its mailbox, nothing is
-- lost: what the node receives, and then what waits for it, is what waited at the start and then
-- what was sent to it, however sends and polls interleave.
pub operate_all_lossless :
    (node : Text) (os : List Operation) (w : Wire)
    → length (mailbox w.transport node) + length (sent_all node os)
      ≤ w.transport.config.mailbox_capacity
    → received_all node os w ++ mailbox (operate_all os w).transport node
      ≡ mailbox w.transport node ++ sent_all node os
unfolding operate_all
operate_all_lossless node [] w room = sym (append-nil _)
operate_all_lossless node (o ∷ os) w room =
    let one = after-room node o w (omega (arith, length-append (sent node o) (sent_all node os))) in
    let rest = operate_all_lossless node os (operate o w) (
      omega (
        arith,
        length-append (sent node o) (sent_all node os),
        ap length one,
        length-append (received node o w) (mailbox (operate o w).transport node),
        length-append (mailbox w.transport node) (sent node o),
        ap (λ c. c.mailbox_capacity) (operate-config o w),
      )) in
    append_assoc (received node o w) _ _
    ∙ ap (λ l. received node o w ++ l) rest
    ∙ sym (append_assoc (received node o w) _ _)
    ∙ ap (λ l. l ++ sent_all node os) one
    ∙ append_assoc (mailbox w.transport node) _ _
