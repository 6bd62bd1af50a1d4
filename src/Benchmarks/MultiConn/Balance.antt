-- ===== src/Benchmarks/MultiConn/Balance.antt =====
-- In the multi-connection benchmark, what was posted to a destination was received or waits there.
use rdma_ai_platform.Common.{
  List, ℕ, ◌+◌, ◌≤◌, ◌≡◌, ◌<◌, refl, sym, ap, ◌∙◌, subst, arith, get_elem?, length, some, ◌==◌,
  false, if_true, if_false, Bool-cases, ltb, ltb→lt, inl, inr, if◌then◌else◌,
}
use rdma_ai_platform.Benchmarks.MultiConn.{
  Fanout, Run, Receiver, destination_node, pair_at, advance,
}
use rdma_ai_platform.Benchmarks.MultiConn.Setup.{rounds_in_all, fresh_receiver, Started}
use rdma_ai_platform.Rdma.TransportRdma.{Message, TransportRdma}
use rdma_ai_platform.Rdma.TransportRdma.Mailbox.{mailbox}

-- How many messages the sender has posted to a connection, at a turn of its loops.
abbrev pub posted_to : ℕ → ℕ → ℕ → ℕ
posted_to round next i = if ltb i next then round + 1 else round

-- The messages that wait at a connection's destination.
abbrev pub waiting : TransportRdma → ℕ → List Message
waiting t i = mailbox t (destination_node i)

-- The receiver of a connection goes on, and received or waits for what was posted to it.
pub record Balanced (vs : List Receiver) (t : TransportRdma) (posted i : ℕ) : Type 0 where
  pub receiver : Receiver
  pub there : get_elem? vs i ≡ some receiver
  pub node : receiver.node ≡ destination_node i
  pub goes_on : receiver.returned ≡ false
  pub total : receiver.round + length (waiting t i) ≡ posted

-- The state while no receiver has given up; `more` tells what the sender has posted beyond its
-- turn.
pub record SoundWith (f : Fanout) (more : ℕ → ℕ) (r : Run) : Type 0 where
  pub pairs : (i : ℕ) → i < f.connections → get_elem? r.queue_pairs i ≡ some (pair_at i)
  pub each :
      (i : ℕ)
      → i < f.connections
      → Balanced r.receivers r.wire.transport (posted_to r.round r.next i + more i) i
  pub threads : length r.receivers ≡ f.connections
  pub received : r.received ≡ rounds_in_all r.receivers
  pub capacity : r.wire.transport.config.mailbox_capacity ≡ 4096
  pub within : r.round ≤ f.rounds
  pub turn : r.round ≡ f.rounds → r.next ≡ 0
  pub place : r.next < f.connections

abbrev pub Sound : Fanout → Run → Type 0
Sound f = SoundWith f (λ _. 0)

pub Started-Sound : (f : Fanout) (r : Run) → 0 < f.connections → Started f r → Sound f r
Started-Sound f r some_pair s =
    let (received, round, next) = s.counters in
    record {
      pairs = s.pairs;
      each = λ i h. record {
        receiver = fresh_receiver i;
        there = s.receivers i h;
        node = refl;
        goes_on = refl;
        total = ground (arith, ap length (s.empty (destination_node i)));
      };
      threads = s.threads;
      received = received ∙ sym s.rounds;
      capacity = s.capacity;
      within = omega arith;
      turn = λ _. next;
      place = omega arith;
    }

pub advance-Sound :
    (f : Fanout) (r : Run)
    → r.round < f.rounds
    → SoundWith f (λ i. if i == r.next then 1 else 0) r
    → Sound f (advance f r)
unfolding advance
advance-Sound f r less s = elim (Bool-cases (ltb (r.next + 1) f.connections)) [
  | inl more ↦ subst (Sound f) (sym (if_true _ _ _ more)) (record {
    pairs = s.pairs;
    each =
        λ i h. subst (λ p. Balanced r.receivers r.wire.transport p i) (ground arith) (s.each i h);
    threads = s.threads;
    received = s.received;
    capacity = s.capacity;
    within = s.within;
    turn = λ e. omega arith;
    place = ltb→lt (r.next + 1) f.connections more;
  })
  | inr last ↦ subst (Sound f) (sym (if_false _ _ _ last)) (record {
    pairs = s.pairs;
    each = λ i h.
        subst (λ p. Balanced r.receivers r.wire.transport p i) (ground (arith, s.place))
          (s.each i h);
    threads = s.threads;
    received = s.received;
    capacity = s.capacity;
    within = omega arith;
    turn = λ e. refl;
    place = omega (arith, s.place);
  })
]
