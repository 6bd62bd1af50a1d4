-- ===== src/Benchmarks/MultiConn/Receiving.antt =====
-- What a receiver's call does in the multi-connection benchmark.
use rdma_ai_platform.Common.{
  get_elem?-ge, List, ℕ, zero, suc, ◌+◌, ◌≡◌, ◌<◌, ◌≢◌, refl, sym, ap, ◌∙◌, subst, arith, get_elem?,
  set, length, length-set, some, [], ◌∷◌, false, if_true, if_false, Bool-cases, ltb, not, ◌||◌,
  tail, inl, inr, get_elem?-set_self, get_elem?-set_ne, ℕ_discrete, dec_lt,
}
use rdma_ai_platform.Benchmarks.MultiConn.{Fanout, Run, Receiver, destination_node, count, receive}
use rdma_ai_platform.Benchmarks.MultiConn.Balance.{Balanced, Sound, waiting, posted_to}
use rdma_ai_platform.Benchmarks.MultiConn.Setup.{destination_node_inj, rounds_in_all}
use rdma_ai_platform.Rdma.TransportRdma.{Message, Wire, TransportRdma, poll_receive}
use rdma_ai_platform.Rdma.TransportRdma.Delivery.{operate, operate-config, polls}
use rdma_ai_platform.Rdma.TransportRdma.Mailbox.{mailbox-poll_receive, first}
use rdma_ai_platform.Text.{Text, text_eq, text_eq_iff, text_eq_refl}

-- Another round of one receiver is one more in all.
rounds_in_all-set :
    (vs : List Receiver) (i : ℕ) (v v' : Receiver)
    → get_elem? vs i ≡ some v
    → rounds_in_all (set vs i v') + v.round ≡ rounds_in_all vs + v'.round
rounds_in_all-set [] i v v' e = cc
rounds_in_all-set (x ∷ vs) zero v v' e = ground arith
rounds_in_all-set (x ∷ vs) (suc i) v v' e = omega (arith, rounds_in_all-set vs i v v' e)

-- Receiver `j` has polled its node and is now `v'`.
module _ (f : Fanout) (r : Run) (j : ℕ) (s : Sound f r) (place : j < f.connections)
    (t' : TransportRdma) (others : (i : ℕ) → i ≢ j → waiting t' i ≡ waiting r.wire.transport i)
    (same : t'.config ≡ r.wire.transport.config) where
  abbrev receiver : Receiver
  receiver = (s.each j place).receiver

  set-Balanced :
      (v' : Receiver)
      → v'.node ≡ destination_node j
      → v'.returned ≡ false
      → v'.round + length (waiting t' j) ≡ receiver.round + length (waiting r.wire.transport j)
      → (i : ℕ) → i < f.connections
      → Balanced (set r.receivers j v') t' (posted_to r.round r.next i + 0) i
  set-Balanced v' node on total i h = elim (ℕ_discrete i j) [
    | yes e ↦ record {
      receiver = v';
      there =
          ap (get_elem? (set r.receivers j v')) e
          ∙ get_elem?-set_self r.receivers j v' (omega (arith, s.threads));
      node = node ∙ ap destination_node (sym e);
      goes_on = on;
      total =
          ap (λ k. v'.round + length (waiting t' k)) e
          ∙ total
          ∙ (s.each j place).total
          ∙ ap (λ k. posted_to r.round r.next k + 0) (sym e);
    }
    | no ne ↦
        let b = s.each i h in
        record {
          receiver = b.receiver;
          there = get_elem?-set_ne r.receivers j i v' (λ e. ne (sym e)) ∙ b.there;
          node = b.node;
          goes_on = b.goes_on;
          total = ap (λ ms. b.receiver.round + length ms) (others i ne) ∙ b.total;
        }
  ]

  set-Sound :
      (v' : Receiver) (n : ℕ)
      → v'.node ≡ destination_node j
      → v'.returned ≡ false
      → v'.round + length (waiting t' j) ≡ receiver.round + length (waiting r.wire.transport j)
      → n + receiver.round ≡ r.received + v'.round
      → Sound f (record r {
        wire = record r.wire { transport = t' };
        receivers = set r.receivers j v';
        received = n;
      })
  set-Sound v' n node on total counted = record {
    pairs = s.pairs;
    each = set-Balanced v' node on total;
    threads = length-set r.receivers j v' ∙ s.threads;
    received = omega (
      arith,
      counted,
      s.received,
      rounds_in_all-set r.receivers j receiver v' (s.each j place).there,
    );
    capacity = ap (λ c. c.mailbox_capacity) same ∙ s.capacity;
    within = s.within;
    turn = s.turn;
    place = s.place;
  }

  -- The call's outcome is the first message that waited, if there was one.
  count-Sound :
      (inbox : List Message)
      → waiting r.wire.transport j ≡ inbox
      → waiting t' j ≡ tail inbox
      → Sound f (
          count j receiver false
            (first inbox)
            (record r { wire = record r.wire { transport = t' } }))
  unfolding count
  count-Sound [] was left =
      set-Sound (record receiver { returned = false }) r.received (s.each j place).node refl
        (ap (λ ms. receiver.round + length ms) (left ∙ sym was)) refl
  count-Sound (m ∷ inbox) was left =
      set-Sound (record receiver { round = receiver.round + 1 }) (r.received + 1)
        (s.each j place).node (s.each j place).goes_on
        (omega (arith, ap length was, ap length left)) (omega arith)

unlike : (j i : ℕ) → i ≢ j → text_eq (destination_node j) (destination_node i) ≡ false
unlike j i ne =
    let different : destination_node j ≢ destination_node i =
      λ e. ne (sym (destination_node_inj j i e)) in
    ground (arith, text_eq_iff (destination_node j) (destination_node i))

poll_receive-config :
    (node : Text) (w : Wire) → (poll_receive node w.transport).0.config ≡ w.transport.config
unfolding operate
poll_receive-config node w = operate-config (polls node) w

-- What a receiver's call leaves, once its node is known.
abbrev after_call : ℕ → Receiver → Run → Text → Run
after_call j v r node =
    let (t, message) = poll_receive node r.wire.transport in
    count j v false message (record r { wire = record r.wire { transport = t } })

call-Sound :
    (f : Fanout) (r : Run) (j : ℕ) (s : Sound f r) (place : j < f.connections)
    → Sound f (after_call j (s.each j place).receiver r (s.each j place).receiver.node)
call-Sound f r j s place =
    let b = s.each j place in
    let w = r.wire in
    let d = destination_node j in
    let (out, left) = mailbox-poll_receive d w.transport d in
    let t : TransportRdma = (poll_receive d w.transport).0 in
    let others : (i : ℕ) → i ≢ j → waiting t i ≡ waiting w.transport i = λ i ne.
      (mailbox-poll_receive d w.transport (destination_node i)).1
      ∙ if_false _ _ _ (unlike j i ne) in
    subst (λ n. Sound f (after_call j b.receiver r n)) (sym b.node)
      (subst
        (λ o. Sound f (count j b.receiver false o (record r { wire = record w { transport = t } })))
        (sym out)
        (count-Sound f r j s place t others (poll_receive-config d w) (waiting w.transport j) refl
          (left ∙ if_true _ _ _ (text_eq_refl d))))

pub receive-Sound :
    (f : Fanout) (r : Run) (j : ℕ)
    → Sound f r
    → Sound f (receive f j false (get_elem? r.receivers j) r)
unfolding receive
receive-Sound f r j s = elim (dec_lt j f.connections) [
  | yes place ↦
      let v = (s.each j place).receiver in
      subst (λ o. Sound f (receive f j false o r)) (sym (s.each j place).there)
        (elim (Bool-cases (v.returned || not (ltb v.round f.rounds))) [
          | inl over ↦ subst (Sound f) (sym (if_true _ _ _ over)) s
          | inr goes ↦ subst (Sound f) (sym (if_false _ _ _ goes)) (call-Sound f r j s place)
        ])
  | no beyond ↦
      subst (λ o. Sound f (receive f j false o r))
        (sym (get_elem?-ge r.receivers j (omega (arith, s.threads)))) s
]
