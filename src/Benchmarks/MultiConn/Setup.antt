-- ===== src/Benchmarks/MultiConn/Setup.antt =====
-- What the multi-connection benchmark starts with.
use rdma_ai_platform.Common.{
  List, ◌∷◌, ℕ, zero, suc, ◌+◌, ◌≡◌, ◌<◌, refl, ap, ◌∙◌, arith, drop, get_elem?, length, some, [],
  true, false,
}
use rdma_ai_platform.Benchmarks.MultiConn.{
  Fanout, Run, Receiver, destination_node, ready_queue_pair, pair_at, connect_pairs,
  start_receivers, set_up,
}
use rdma_ai_platform.Assoc.{find}
use rdma_ai_platform.Rdma.Config.{default_rdma_config}
use rdma_ai_platform.Rdma.QueuePair as Pair
use rdma_ai_platform.Rdma.QueuePair.{is_ready_to_send}
use rdma_ai_platform.Rdma.TransportRdma as Transport
use rdma_ai_platform.Rdma.TransportRdma.{TransportRdma, connect}
use rdma_ai_platform.Rdma.TransportRdma.Mailbox.{mailbox, mailbox-connect}
use rdma_ai_platform.Text.Decimal.{to_string_inj}
use rdma_ai_platform.Text.{Text}

pub destination_node_inj : (i j : ℕ) → destination_node i ≡ destination_node j → i ≡ j
unfolding destination_node
destination_node_inj i j e = to_string_inj i j (ap (drop 10) e)

pub pair_at-ready : (i : ℕ) → is_ready_to_send (pair_at i) ≡ true
unfolding ready_queue_pair Pair.bring_up Pair.make is_ready_to_send Pair.state_eq
pair_at-ready i = refl

pub pair_at-remote : (i : ℕ) → (pair_at i).config.remote_node ≡ destination_node i
unfolding ready_queue_pair Pair.bring_up Pair.make
pair_at-remote i = refl

-- The vector of queue pairs.
connect_pairs-get_elem? :
    (k i j : ℕ) (t : TransportRdma)
    → j < k
    → get_elem? (connect_pairs k i t).0 j ≡ some (pair_at (i + j))
unfolding connect_pairs
connect_pairs-get_elem? zero i j t h = elim h [ ]
connect_pairs-get_elem? (suc k) i zero t h = ap (λ n. some (pair_at n)) (omega arith)
connect_pairs-get_elem? (suc k) i (suc j) t h =
    connect_pairs-get_elem? k (i + 1) j (connect (pair_at i) t) (omega arith)
    ∙ ap (λ n. some (pair_at n)) (omega arith)

connect_pairs-mailbox :
    (k i : ℕ) (t : TransportRdma) (node : Text)
    → mailbox (connect_pairs k i t).1 node ≡ mailbox t node
unfolding connect_pairs
connect_pairs-mailbox zero i t node = refl
connect_pairs-mailbox (suc k) i t node =
    connect_pairs-mailbox k (i + 1) (connect (pair_at i) t) node
    ∙ mailbox-connect (pair_at i) t node

connect_pairs-config : (k i : ℕ) (t : TransportRdma) → (connect_pairs k i t).1.config ≡ t.config
unfolding connect_pairs connect
connect_pairs-config zero i t = refl
connect_pairs-config (suc k) i t = connect_pairs-config k (i + 1) (connect (pair_at i) t)

abbrev pub fresh_receiver : ℕ → Receiver
fresh_receiver i = record { node = destination_node i; round = 0; returned = false }

start_receivers-get_elem? :
    (k i j : ℕ) → j < k → get_elem? (start_receivers k i) j ≡ some (fresh_receiver (i + j))
unfolding start_receivers
start_receivers-get_elem? zero i j h = elim h [ ]
start_receivers-get_elem? (suc k) i zero h = ap (λ n. some (fresh_receiver n)) (omega arith)
start_receivers-get_elem? (suc k) i (suc j) h =
    start_receivers-get_elem? k (i + 1) j (omega arith)
    ∙ ap (λ n. some (fresh_receiver n)) (omega arith)

start_receivers-length : (k i : ℕ) → length (start_receivers k i) ≡ k
unfolding start_receivers
start_receivers-length zero i = refl
start_receivers-length (suc k) i = ap suc (start_receivers-length k (i + 1))

-- How many rounds the receivers have made in all.
abbrev pub rounds_in_all : List Receiver → ℕ
rounds_in_all [] = 0
rounds_in_all (v ∷ vs) = v.round + rounds_in_all vs

start_receivers-rounds_in_all : (k i : ℕ) → rounds_in_all (start_receivers k i) ≡ 0
unfolding start_receivers
start_receivers-rounds_in_all zero i = refl
start_receivers-rounds_in_all (suc k) i = omega (arith, start_receivers-rounds_in_all k (i + 1))

-- The state from which the loops run.
pub record Started (f : Fanout) (r : Run) : Type 0 where
  pub pairs : (i : ℕ) → i < f.connections → get_elem? r.queue_pairs i ≡ some (pair_at i)
  pub receivers : (i : ℕ) → i < f.connections → get_elem? r.receivers i ≡ some (fresh_receiver i)
  pub threads : length r.receivers ≡ f.connections
  pub rounds : rounds_in_all r.receivers ≡ 0
  pub empty : (node : Text) → mailbox r.wire.transport node ≡ []
  pub capacity : r.wire.transport.config.mailbox_capacity ≡ 4096
  pub counters : (r.received ≡ 0) × (r.round ≡ 0) × (r.next ≡ 0)

new-empty : (node : Text) → mailbox (Transport.make default_rdma_config.transport) node ≡ []
unfolding mailbox find Transport.make
new-empty node = refl

new-capacity : (Transport.make default_rdma_config.transport).config.mailbox_capacity ≡ 4096
unfolding Transport.make default_rdma_config
new-capacity = refl

pub set_up-Started : (f : Fanout) → Started f (set_up f)
unfolding set_up
set_up-Started f =
    let t = Transport.make default_rdma_config.transport in
    record {
      pairs = λ i h.
          connect_pairs-get_elem? f.connections 0 i t h ∙ ap (λ n. some (pair_at n)) (omega arith);
      receivers = λ i h.
          start_receivers-get_elem? f.connections 0 i h
          ∙ ap (λ n. some (fresh_receiver n)) (omega arith);
      threads = start_receivers-length f.connections 0;
      rounds = start_receivers-rounds_in_all f.connections 0;
      empty = λ node. connect_pairs-mailbox f.connections 0 t node ∙ new-empty node;
      capacity =
          ap (λ c. c.mailbox_capacity) (connect_pairs-config f.connections 0 t) ∙ new-capacity;
      counters = (refl, refl, refl);
    }
