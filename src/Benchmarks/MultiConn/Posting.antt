-- ===== src/Benchmarks/MultiConn/Posting.antt =====
-- What a post does in the multi-connection benchmark.
use rdma_ai_platform.Common.{
  ℕ, ◌+◌, ◌≤◌, ◌≡◌, ◌<◌, ◌≢◌, sym, ap, ◌∙◌, subst, arith, get_elem?, length, length-append, [], ◌∷◌,
  ◌==◌, ◌&&◌, true, false, if_true, if_false, if◌then◌else◌, ℕ_discrete,
}
use rdma_ai_platform.Bounded.{push_room}
use rdma_ai_platform.Benchmarks.MultiConn.{
  Heap, Fanout, Run, destination_node, pair_at, round_message, post,
}
use rdma_ai_platform.Benchmarks.MultiConn.Setup.{
  destination_node_inj, pair_at-ready, pair_at-remote,
}
use rdma_ai_platform.Rdma.QueuePair.{QueuePair, is_ready_to_send}
use rdma_ai_platform.Rdma.TransportRdma.{Message, Wire, address, post_send}
use rdma_ai_platform.Rdma.TransportRdma.Delivery.{operate, operate-config, sends}
use rdma_ai_platform.Rdma.TransportRdma.Mailbox.{mailbox, mailbox-post_send}
use rdma_ai_platform.Rdma.Heap.{Heap}
use rdma_ai_platform.Rdma.Types.{TimePoint}
use rdma_ai_platform.Text.{Text, text_eq, text_eq_iff, text_eq_refl}
use rdma_ai_platform.Benchmarks.MultiConn.Balance.{Sound, SoundWith, waiting, advance-Sound}

module _ (now : TimePoint) (h : Heap) (qp : QueuePair) (m : Message) (w : Wire)
    (ready : is_ready_to_send qp ≡ true) where
  -- A post to a mailbox with room.
  post_send-own :
      length (mailbox w.transport qp.config.remote_node) < w.transport.config.mailbox_capacity
      → length (mailbox (post_send now h qp m w).transport qp.config.remote_node)
        ≡ length (mailbox w.transport qp.config.remote_node) + 1
  post_send-own room =
      let node = qp.config.remote_node in
      let here : (is_ready_to_send qp && text_eq node node) ≡ true =
        ground (arith, ready, text_eq_refl node) in
      let inbox = mailbox w.transport node in
      let pushed = push_room w.transport.config.mailbox_capacity (address qp m) inbox room in
      ap length (mailbox-post_send now h qp m w node ∙ if_true _ _ _ here ∙ pushed)
      ∙ length-append inbox (address qp m ∷ [])

  post_send-other :
      (node : Text)
      → qp.config.remote_node ≢ node
      → mailbox (post_send now h qp m w).transport node ≡ mailbox w.transport node
  post_send-other node ne =
      let elsewhere : (is_ready_to_send qp && text_eq qp.config.remote_node node) ≡ false =
        ground (arith, text_eq_iff qp.config.remote_node node) in
      mailbox-post_send now h qp m w node ∙ if_false _ _ _ elsewhere

post_send-config :
    (now : TimePoint) (h : Heap) (qp : QueuePair) (m : Message) (w : Wire)
    → (post_send now h qp m w).transport.config ≡ w.transport.config
unfolding operate
post_send-config now h qp m w = operate-config (sends now h qp m) w

-- How many messages wait at each destination after a post to connection `j`.
post-waiting :
    (now : TimePoint) (h : Heap) (m : Message) (w : Wire) (j i : ℕ)
    → length (waiting w.transport j) < w.transport.config.mailbox_capacity
    → length (waiting (post_send now h (pair_at j) m w).transport i)
      ≡ length (waiting w.transport i) + (if i == j then 1 else 0)
post-waiting now h m w j i room =
    let w' = post_send now h (pair_at j) m w in
    let remote = pair_at-remote j in
    elim (ℕ_discrete i j) [
      | yes e ↦
          subst
            (λ n.
              length (mailbox w'.transport n)
              ≡ length (mailbox w.transport n) + (if i == j then 1 else 0))
            (remote ∙ ap destination_node (sym e))
            (post_send-own now h (pair_at j) m w (pair_at-ready j) (
                subst (λ n. length (mailbox w.transport n) < w.transport.config.mailbox_capacity)
                  (sym remote) room)
              ∙ ground arith)
      | no ne ↦
          ap length (
            post_send-other now h (pair_at j) m w (pair_at-ready j) (destination_node i)
              (λ d. ne (sym (destination_node_inj j i (sym remote ∙ d)))))
          ∙ ground arith
    ]

post-SoundWith :
    (f : Fanout) (now : TimePoint) (r : Run)
    → f.rounds ≤ 4096
    → r.round < f.rounds
    → Sound f r
    → SoundWith f
        (λ i. if i == r.next then 1 else 0)
        (record r { wire = post_send now r.heap (pair_at r.next) (round_message f r) r.wire })
post-SoundWith f now r small less s =
    let m = round_message f r in
    let own = s.each r.next s.place in
    let room : length (waiting r.wire.transport r.next) < r.wire.transport.config.mailbox_capacity =
      ground (arith, own.total, s.capacity) in
    record {
      pairs = s.pairs;
      each = λ i h.
          let b = s.each i h in
          record {
            receiver = b.receiver;
            there = b.there;
            node = b.node;
            goes_on = b.goes_on;
            total = omega (arith, b.total, post-waiting now r.heap m r.wire r.next i room);
          };
      threads = s.threads;
      received = s.received;
      capacity =
          ap (λ c. c.mailbox_capacity) (post_send-config now r.heap (pair_at r.next) m r.wire)
          ∙ s.capacity;
      within = s.within;
      turn = s.turn;
      place = s.place;
    }

pub post-Sound :
    (f : Fanout) (now : TimePoint) (r : Run)
    → f.rounds ≤ 4096
    → r.round < f.rounds
    → Sound f r
    → Sound f (post f now (get_elem? r.queue_pairs r.next) r)
unfolding post
post-Sound f now r small less s =
    subst (λ o. Sound f (post f now o r)) (sym (s.pairs r.next s.place))
      (advance-Sound f _ less (post-SoundWith f now r small less s))
