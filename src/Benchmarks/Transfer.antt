-- ===== src/Benchmarks/Transfer.antt =====
-- rdma/benchmark/latency_bench.cpp and throughput_bench.cpp, benchmark/latency_test.cpp and
-- throughput_test.cpp: a thread posts messages to a node and another receives them. Each step of
-- either is an event of a schedule. The times measured and the output are not modelled.
pub mod Steps
pub mod Complete
pub mod Lossy
use rdma_ai_platform.Common.{
  ltb, ℕ, ◌+◌, ◌*◌, Bool, true, false, not, ◌||◌, Option, none, some, List, [], ◌∷◌, ltb, ◌==◌,
  if◌then◌else◌,
}
use rdma_ai_platform.Rdma.CompletionQueue as Queue
use rdma_ai_platform.Rdma.Config.{default_rdma_config}
use rdma_ai_platform.Rdma.Heap.{Heap}
use rdma_ai_platform.Rdma.MemoryRegion.{MemoryRegion, empty_registry, register_size}
use rdma_ai_platform.Rdma.QueuePair as Pair
use rdma_ai_platform.Rdma.QueuePair.{QueuePair, QueuePairConfig, bring_up, transition_to}
use rdma_ai_platform.Rdma.TransportRdma as Transport
use rdma_ai_platform.Rdma.TransportRdma.{Message, Wire, connect, post_send, poll_receive}
use rdma_ai_platform.Rdma.Types.{TimePoint, send, init, ready_to_receive, ready_to_send}
use rdma_ai_platform.Text.{Text, codes}
use rdma_ai_platform.Examples.Demos.{fill_at}

-- What the programs differ in.
pub record Benchmark : Type 0 where
  pub source : Text
  pub destination : Text
  pub topic : Text
  pub description : Text
  pub rounds : ℕ
  pub payload_bytes : ℕ
  pub filling : ℕ

abbrev pub pair_config : Text → Text → QueuePairConfig
pair_config local remote = record {
  local_node = local;
  remote_node = remote;
  max_send_wr = 512;
  max_recv_wr = 512;
}

-- `ReadyQueuePair` under rdma/benchmark.
unfoldable pub ready_queue_pair : Text → Text → QueuePair
ready_queue_pair local remote = (bring_up (Pair.make (pair_config local remote))).0

-- `ReadyQueuePair` under benchmark.
unfoldable pub stepped_queue_pair : Text → Text → QueuePair
stepped_queue_pair local remote =
    let qp = (transition_to (Pair.make (pair_config local remote)) init).0 in
    let qp' = (transition_to qp ready_to_receive).0 in (transition_to qp' ready_to_send).0

-- A run: the two threads' objects, how many messages were posted and received, and whether the
-- receiver has returned early.
pub record Run : Type 0 where
  pub wire : Wire
  pub heap : Heap
  pub region : MemoryRegion
  pub posted : ℕ
  pub received : ℕ
  pub gave_up : Bool

-- The objects that `main` makes for its queue pair.
unfoldable pub set_up : Benchmark → QueuePair → Run
unfolding fill_at
set_up b qp =
    let (region, _, heap) = register_size b.payload_bytes empty_registry [] in
    record {
      wire = record {
        transport = connect qp (Transport.make default_rdma_config.transport);
        completions = Queue.make default_rdma_config.completion_queue;
        channels = [];
      };
      heap = fill_at region.storage b.filling heap;
      region = region;
      posted = 0;
      received = 0;
      gave_up = false;
    }

-- A step of the sender's loop, of the receiver's, which waits while nothing is there, and the end
-- of the receiver's wait by its time limit.
pub data Event : Type 0 where
  posts : TimePoint → Event
  receives times_out : Event

-- The message of round `i`.
abbrev pub round_message : Benchmark → MemoryRegion → ℕ → Message
round_message b region i = record {
  source = b.source;
  destination = b.destination;
  topic = b.topic;
  description = b.description;
  payload = region.storage;
  work_request_id = i + 1;
  operation = send;
}

-- `++received`, or what a wait without a message ends with.
unfoldable pub count : Option Message → Bool → Run → Run
count (some m) ended r = record r { received = r.received + 1 }
count none ended r = record r { gave_up = ended }

-- The receiver's call, where its loop goes on.
unfoldable pub receive : Benchmark → Bool → Run → Run
unfolding count
receive b ended r =
    if r.gave_up || not (ltb r.received b.rounds)
    then r
    else let (t, message) = poll_receive b.destination r.wire.transport in
      count message ended (record r { wire = record r.wire { transport = t } })

unfoldable pub step : Benchmark → QueuePair → Event → Run → Run
unfolding receive
step b qp (posts now) r =
    if ltb r.posted b.rounds
    then record r {
      wire = post_send now r.heap qp (round_message b r.region r.posted) r.wire;
      posted = r.posted + 1;
    }
    else r
step b qp receives r = receive b false r
step b qp times_out r = receive b true r

unfoldable pub run : Benchmark → QueuePair → List Event → Run → Run
unfolding step
run b qp [] r = r
run b qp (e ∷ es) r = run b qp es (step b qp e r)

-- What `main` returns once both loops are over.
unfoldable pub exit_code : Benchmark → Run → ℕ
exit_code b r = if r.received == b.rounds then 0 else 1

abbrev pub latency : Benchmark
latency = record {
  source = codes "latency-src";
  destination = codes "latency-dst";
  topic = codes "latency";
  description = codes "4KB ping";
  rounds = 5000;
  payload_bytes = 4 * 1024;
  filling = 42;
}

abbrev pub throughput : Benchmark
throughput = record {
  source = codes "throughput-src";
  destination = codes "throughput-dst";
  topic = codes "throughput";
  description = codes "1MB block";
  rounds = 1024;
  payload_bytes = 1024 * 1024;
  filling = 90;
}

-- `main` of each program, under a schedule.
unfoldable pub latency_bench : List Event → Run
unfolding set_up run ready_queue_pair
latency_bench es =
    let qp = ready_queue_pair latency.source latency.destination in
    run latency qp es (set_up latency qp)

unfoldable pub throughput_bench : List Event → Run
unfolding set_up run ready_queue_pair
throughput_bench es =
    let qp = ready_queue_pair throughput.source throughput.destination in
    run throughput qp es (set_up throughput qp)

unfoldable pub latency_test : List Event → Run
unfolding set_up run stepped_queue_pair
latency_test es =
    let qp = stepped_queue_pair latency.source latency.destination in
    run latency qp es (set_up latency qp)

unfoldable pub throughput_test : List Event → Run
unfolding set_up run stepped_queue_pair
throughput_test es =
    let qp = stepped_queue_pair throughput.source throughput.destination in
    run throughput qp es (set_up throughput qp)
