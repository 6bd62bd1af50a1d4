-- ===== src/Benchmarks/MultiConn.antt =====
-- rdma/benchmark/multi_conn_bench.cpp: one thread posts a round of messages, one for each queue
-- pair, and each destination has a thread of its own that receives. Each step of a loop is an event
-- of a schedule. The times measured and the output are not modelled.
pub mod Setup
pub mod Balance
pub mod Posting
pub mod Turns
pub mod Complete
pub mod Receiving
use rdma_ai_platform.Common.{
  ltb, ℕ, zero, suc, ◌+◌, ◌*◌, Bool, true, false, not, ◌||◌, Option, none, some, List, [], ◌∷◌,
  ◌++◌, ◌==◌, if◌then◌else◌, get_elem?, set,
}
use rdma_ai_platform.Examples.Demos.{fill_at}
use rdma_ai_platform.Rdma.CompletionQueue as Queue
use rdma_ai_platform.Rdma.Config.{default_rdma_config}
use rdma_ai_platform.Rdma.Heap.{Heap}
use rdma_ai_platform.Rdma.MemoryRegion.{MemoryRegion, empty_registry, register_size}
use rdma_ai_platform.Rdma.QueuePair as Pair
use rdma_ai_platform.Rdma.QueuePair.{QueuePair, bring_up}
use rdma_ai_platform.Rdma.TransportRdma as Transport
use rdma_ai_platform.Rdma.TransportRdma.{
  Message, TransportRdma, Wire, connect, post_send, poll_receive,
}
use rdma_ai_platform.Rdma.Types.{TimePoint, send}
use rdma_ai_platform.Text.Decimal.{to_string}
use rdma_ai_platform.Text.{Text, codes}

-- The constants of `main`.
pub record Fanout : Type 0 where
  pub connections : ℕ
  pub rounds : ℕ
  pub payload_bytes : ℕ

abbrev pub multi_conn : Fanout
multi_conn = record { connections = 8; rounds = 512; payload_bytes = 64 * 1024 }

unfoldable pub source_node : ℕ → Text
source_node i = codes "multi-src-" ++ to_string i

unfoldable pub destination_node : ℕ → Text
destination_node i = codes "multi-dst-" ++ to_string i

-- `ReadyQueuePair`.
unfoldable pub ready_queue_pair : Text → Text → QueuePair
ready_queue_pair local remote =
    (bring_up (
      Pair.make (record {
        local_node = local;
        remote_node = remote;
        max_send_wr = 256;
        max_recv_wr = 256;
      }))).0

abbrev pub pair_at : ℕ → QueuePair
pair_at i = ready_queue_pair (source_node i) (destination_node i)

-- The first loop: `k` more queue pairs, from the index `i` on.
unfoldable pub connect_pairs : ℕ → ℕ → TransportRdma → List QueuePair × TransportRdma
unfolding ready_queue_pair source_node destination_node
connect_pairs zero i t = ([], t)
connect_pairs (suc k) i t =
    let qp = ready_queue_pair (source_node i) (destination_node i) in
    let (qps, t') = connect_pairs k (i + 1) (connect qp t) in (qp ∷ qps, t')

-- A receiving thread: the node that it waits at, the round of its loop, and whether it has returned
-- early.
pub record Receiver : Type 0 where
  pub node : Text
  pub round : ℕ
  pub returned : Bool

-- The second loop.
unfoldable pub start_receivers : ℕ → ℕ → List Receiver
unfolding destination_node
start_receivers zero i = []
start_receivers (suc k) i =
    record { node = destination_node i; round = 0; returned = false } ∷ start_receivers k (i + 1)

-- The sender's loops are at `round` and, within it, at the connection `next`.
pub record Run : Type 0 where
  pub wire : Wire
  pub heap : Heap
  pub region : MemoryRegion
  pub queue_pairs : List QueuePair
  pub receivers : List Receiver
  pub received : ℕ
  pub round : ℕ
  pub next : ℕ

unfoldable pub set_up : Fanout → Run
unfolding connect_pairs start_receivers
set_up f =
    let (region, _, heap) = register_size f.payload_bytes empty_registry [] in
    let (qps, t) = connect_pairs f.connections 0 (Transport.make default_rdma_config.transport) in
    record {
      wire = record {
        transport = t;
        completions = Queue.make default_rdma_config.completion_queue;
        channels = [];
      };
      heap = fill_at region.storage 17 heap;
      region = region;
      queue_pairs = qps;
      receivers = start_receivers f.connections 0;
      received = 0;
      round = 0;
      next = 0;
    }

abbrev pub round_message : Fanout → Run → Message
unfolding source_node destination_node
round_message f r = record {
  source = source_node r.next;
  destination = destination_node r.next;
  topic = codes "multi-conn";
  description = codes "64KB fanout";
  payload = r.region.storage;
  work_request_id = r.round * f.connections + r.next + 1;
  operation = send;
}

-- The next turn of the inner loop, or the first one of the next round.
unfoldable pub advance : Fanout → Run → Run
advance f r =
    if ltb (r.next + 1) f.connections
    then record r { next = r.next + 1 }
    else record r { round = r.round + 1; next = 0 }

-- The body of the inner loop.
unfoldable pub post : Fanout → TimePoint → Option QueuePair → Run → Run
unfolding advance
post f now none r = r
post f now (some qp) r =
    advance f (record r { wire = post_send now r.heap qp (round_message f r) r.wire })

-- `++received` and the next turn of a receiver's loop, or what a wait without a message ends with.
unfoldable pub count : ℕ → Receiver → Bool → Option Message → Run → Run
count i v ended (some m) r = record r {
  receivers = set r.receivers i (record v { round = v.round + 1 });
  received = r.received + 1;
}
count i v ended none r = record r { receivers = set r.receivers i (record v { returned = ended }) }

-- A receiver's call, where its loop goes on.
unfoldable pub receive : Fanout → ℕ → Bool → Option Receiver → Run → Run
unfolding count
receive f i ended none r = r
receive f i ended (some v) r =
    if v.returned || not (ltb v.round f.rounds)
    then r
    else let (t, message) = poll_receive v.node r.wire.transport in
      count i v ended message (record r { wire = record r.wire { transport = t } })

-- A step of the sender, or of a receiver, which waits while nothing is there, and the end of a
-- receiver's wait by its time limit.
pub data Event : Type 0 where
  posts : TimePoint → Event
  receives times_out : ℕ → Event

unfoldable pub step : Fanout → Event → Run → Run
unfolding post receive
step f (posts now) r =
    if ltb r.round f.rounds then post f now (get_elem? r.queue_pairs r.next) r else r
step f (receives i) r = receive f i false (get_elem? r.receivers i) r
step f (times_out i) r = receive f i true (get_elem? r.receivers i) r

unfoldable pub run : Fanout → List Event → Run → Run
unfolding step
run f [] r = r
run f (e ∷ es) r = run f es (step f e r)

-- What `main` returns once all loops are over.
unfoldable pub exit_code : Fanout → Run → ℕ
exit_code f r = if r.received == f.connections * f.rounds then 0 else 1
