-- ===== src/Benchmarks/Transfer/Steps.antt =====
-- What the steps of a benchmark do to the mailbox that its receiver waits at.
use rdma_ai_platform.Common.{
  tail, if_true, if_false, refl, sym, ap, ◌∙◌, subst, true, [], ◌∷◌, arith, ltb, ◌+◌, ◌-◌, ◌≡◌,
  Bool, false, not, ◌||◌, List, length, ltb,
}
use rdma_ai_platform.Assoc.{find}
use rdma_ai_platform.Rdma.Config.{default_rdma_config}
use rdma_ai_platform.Rdma.TransportRdma as Transport
use rdma_ai_platform.Rdma.TransportRdma.Mailbox.{mailbox-connect}
use rdma_ai_platform.Rdma.TransportRdma.{connect}
use rdma_ai_platform.Benchmarks.Transfer.{set_up}
use rdma_ai_platform.Bounded.{push_bounded}
use rdma_ai_platform.Benchmarks.Transfer.{
  TimePoint, Benchmark, Run, posts, step, receive, count, round_message,
}
use rdma_ai_platform.Rdma.QueuePair.{QueuePair, is_ready_to_send}
use rdma_ai_platform.Rdma.TransportRdma as Transport
use rdma_ai_platform.Rdma.TransportRdma.Mailbox.{
  mailbox, mailbox-post_send, mailbox-poll_receive, first,
}
use rdma_ai_platform.Rdma.TransportRdma.Delivery.{sends, polls, operate, operate-config}
use rdma_ai_platform.Rdma.TransportRdma.{Message, address, poll_receive}
use rdma_ai_platform.Text.{text_eq_iff, text_eq_refl}

-- The mailbox that the receiver waits at.
abbrev pub waiting : Benchmark → Run → List Message
waiting b r = mailbox r.wire.transport b.destination

-- What a call of the receiver leaves: it took a message off the mailbox if there was one, and went
-- on then.
pub record Received (b : Benchmark) (ended : Bool) (r r' : Run) : Type 0 where
  pub total : r'.received + length (waiting b r') ≡ r.received + length (waiting b r)
  pub fewer : length (waiting b r') ≡ length (waiting b r) - 1
  pub posted : r'.posted ≡ r.posted
  pub config : r'.wire.transport.config ≡ r.wire.transport.config
  pub stays : ended ≡ false → r.gave_up ≡ false → r'.gave_up ≡ false

count-Received :
    (b : Benchmark) (ended : Bool) (r mid : Run) (inbox : List Message)
    → waiting b r ≡ inbox
    → waiting b mid ≡ tail inbox
    → mid.received ≡ r.received
    → mid.posted ≡ r.posted
    → mid.wire.transport.config ≡ r.wire.transport.config
    → mid.gave_up ≡ r.gave_up
    → Received b ended r (count (first inbox) ended mid)
unfolding count
count-Received b ended r mid [] was left n m c g = record {
  total = omega (arith, ap length was, ap length left);
  fewer = omega (arith, ap length was, ap length left);
  posted = m;
  config = c;
  stays = λ e on. e;
}
count-Received b ended r mid (x ∷ inbox) was left n m c g = record {
  total = omega (arith, ap length was, ap length left);
  fewer = omega (arith, ap length was, ap length left);
  posted = m;
  config = c;
  stays = λ e on. g ∙ on;
}

-- A call of the receiver, where its loop goes on.
pub receive-Received :
    (b : Benchmark) (ended : Bool) (r : Run)
    → (r.gave_up || not (ltb r.received b.rounds)) ≡ false
    → Received b ended r (receive b ended r)
unfolding receive
receive-Received b ended r goes_on =
    let (t, message) = poll_receive b.destination r.wire.transport in
    let mid : Run = record r { wire = record r.wire { transport = t } } in
    let (out, left) = mailbox-poll_receive b.destination r.wire.transport b.destination in
    subst (Received b ended r) (sym (if_false _ _ _ goes_on ∙ ap (λ o. count o ended mid) out)) (
      count-Received b ended r mid (waiting b r) refl
        (left ∙ if_true _ _ _ (text_eq_refl b.destination)) refl refl
        (unfold operate in operate-config (polls b.destination) r.wire) refl)

-- At the start nothing waits, and the mailbox is one of the default configuration.
pub set_up-waiting : (b : Benchmark) (qp : QueuePair) → waiting b (set_up b qp) ≡ []
unfolding set_up mailbox find Transport.make
set_up-waiting b qp =
    mailbox-connect qp (Transport.make default_rdma_config.transport) b.destination

pub set_up-capacity :
    (b : Benchmark) (qp : QueuePair) → (set_up b qp).wire.transport.config.mailbox_capacity ≡ 4096
unfolding set_up connect Transport.make default_rdma_config
set_up-capacity b qp = refl

-- A loop that is over does nothing more.
pub receive_over :
    (b : Benchmark) (ended : Bool) (r : Run)
    → (r.gave_up || not (ltb r.received b.rounds)) ≡ true
    → receive b ended r ≡ r
unfolding receive
receive_over b ended r over = if_true _ _ _ over

pub post_over :
    (b : Benchmark) (qp : QueuePair) (now : TimePoint) (r : Run)
    → ltb r.posted b.rounds ≡ false
    → step b qp (posts now) r ≡ r
unfolding step
post_over b qp now r over = if_false _ _ _ over

module _ (b : Benchmark) (qp : QueuePair) (ready : is_ready_to_send qp ≡ true)
    (leads : qp.config.remote_node ≡ b.destination) (now : TimePoint) (r : Run)
    (more : ltb r.posted b.rounds ≡ true) where
  -- A post, where the sender's loop goes on.
  abbrev posted_run : Run
  posted_run = step b qp (posts now) r

  pub post-waiting :
      waiting b posted_run
      ≡ push_bounded r.wire.transport.config.mailbox_capacity
          (address qp (round_message b r.region r.posted))
          (waiting b r)
  unfolding step
  post-waiting =
      ap (waiting b) (if_true _ _ _ more)
      ∙ mailbox-post_send now r.heap qp (round_message b r.region r.posted) r.wire b.destination
      ∙ ground (arith, ready, text_eq_iff qp.config.remote_node b.destination)

  pub post-config : posted_run.wire.transport.config ≡ r.wire.transport.config
  unfolding step
  post-config =
      ap (λ (s : Run). s.wire.transport.config) (if_true _ _ _ more)
      ∙ (unfold operate in
          operate-config (sends now r.heap qp (round_message b r.region r.posted)) r.wire)

  pub post-fields :
      (posted_run.posted ≡ r.posted + 1)
      × (posted_run.received ≡ r.received)
      × (posted_run.gave_up ≡ r.gave_up)
  unfolding step
  post-fields = ground (arith, more)
