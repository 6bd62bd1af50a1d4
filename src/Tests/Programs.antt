-- ===== src/Tests/Programs.antt =====
-- The prototype, the examples and the benchmarks.
use rdma_ai_platform.Common.{
  ◌+◌, ◌-◌, ◌*◌, ◌%◌, ◌≤◌, ◌≡◌, refl, some, true, false, List, [], ◌∷◌, arith, length, get_elem?,
  replicate,
}
use rdma_ai_platform.Benchmarks.TcpCompare.Program.{
  Calls, IsUp, IsEnough, exchange, tcp_compare, returns, tcp_payload, tcp_compare-echo,
}
use rdma_ai_platform.Benchmarks.TcpCompare.{Answers, succeeded}
use rdma_ai_platform.Benchmarks.Transfer.Complete.{run_complete}
use rdma_ai_platform.Benchmarks.Transfer.Lossy.{all_posts, run_lossy}
use rdma_ai_platform.Benchmarks.Transfer.Steps.{waiting}
use rdma_ai_platform.Benchmarks.Transfer.{
  Benchmark, Event, posts, receives, times_out, run, set_up, exit_code, throughput, latency,
  ready_queue_pair,
}
use rdma_ai_platform.Examples.PingPong.{Game}
use rdma_ai_platform.Examples.PingPong as Game
use rdma_ai_platform.Prototype.TaskExecutor.{TaskSpec, broadcast}
use rdma_ai_platform.Prototype.Tensor.Bytes.{floats_of, serialize-fill_ramp}
use rdma_ai_platform.Prototype.Tensor.{FloatOps, Tensor, element_count, serialize, fill_ramp}
use rdma_ai_platform.Prototype.Tensor as Data
use rdma_ai_platform.Prototype.WorkerRuntime.Exchange.{Carries, make-IsSound, poll-submit}
use rdma_ai_platform.Prototype.WorkerRuntime.{WorkerRuntime, submit, poll}
use rdma_ai_platform.Prototype.WorkerRuntime as Runtime
use rdma_ai_platform.Rdma.QueuePair as Pair
use rdma_ai_platform.Rdma.QueuePair.{QueuePair}
use rdma_ai_platform.Rdma.TransportRdma.{Message}
use rdma_ai_platform.Rdma.TransportRdma.Mailbox.{mailbox}
use rdma_ai_platform.Rdma.TransportRdma as Transport
use rdma_ai_platform.Assoc.{find}
use rdma_ai_platform.Tests.Data.{fabric}
use rdma_ai_platform.Text.{codes}

-- Whole numbers below 2 ^ 32 in place of floats.
abbrev ops : FloatOps
ops = record {
  of_size = λ n. n;
  multiply = λ a b. a * b % 4294967296;
  add = λ a b. (a + b) % 4294967296;
}

abbrev tensor : Tensor
tensor = fill_ramp ops 5 2 (Data.make (codes "w") (2 ∷ 3 ∷ []))

serialize-fill_ramp_example :
    (length (serialize tensor) ≡ element_count tensor * 4)
    × (get_elem? (floats_of (serialize tensor)) 4
        ≡ some (ops.add 5 (ops.multiply (ops.of_size 4) 2)))
unfolding Data.count_of Data.product_from
serialize-fill_ramp_example =
    serialize-fill_ramp ops (codes "w") (2 ∷ 3 ∷ []) 5 2 4 (λ a b. omega arith) (omega arith)
      (omega arith)

abbrev spec : TaskSpec
spec = record {
  id = codes "t";
  kind = broadcast;
  target_node = codes "b";
  tensor = tensor;
  metadata = [];
}

abbrev runtime_a : WorkerRuntime
runtime_a = Runtime.make (codes "a")

abbrev runtime_b : WorkerRuntime
runtime_b = Runtime.make (codes "b")

poll-submit_example :
    let (a', f', result) = submit spec runtime_a fabric in
    (m : Message) × ((poll runtime_b f').1 ≡ some m)
    × Carries spec (codes "a") (codes "b") result.work_request_id (poll runtime_b f').0.heap m
unfolding Runtime.make mailbox find Transport.make
poll-submit_example =
    poll-submit spec runtime_a runtime_b fabric (make-IsSound (codes "a")) refl refl

-- The server listens first, and the client asks twice for one result.
abbrev opening : List Game.Event
opening =
    Game.server_goes ∷ Game.client_goes ∷ Game.client_goes ∷ Game.server_goes ∷ Game.server_goes
    ∷ Game.client_goes ∷ []

-- Three rounds of the throughput benchmark.
abbrev short : Benchmark
short = record throughput { rounds = 3 }

abbrev short_pair : QueuePair
short_pair = ready_queue_pair short.source short.destination

abbrev schedule : List Event
schedule = posts 1 ∷ posts 2 ∷ receives ∷ receives ∷ receives ∷ posts 3 ∷ []

run_complete_example :
    let r = run short short_pair schedule (set_up short short_pair) in
    (r.received + length (waiting short r) ≡ short.rounds)
    × (exit_code short (run short short_pair (replicate (short.rounds - r.received) receives) r)
        ≡ 0)
unfolding ready_queue_pair Pair.bring_up Pair.make Pair.is_ready_to_send Pair.state_eq
run_complete_example =
    run_complete short short_pair refl refl schedule (omega arith) refl (omega arith)

run_lossy_example :
    let qp = ready_queue_pair latency.source latency.destination in
    let r =
      run latency qp
        (receives ∷ receives ∷ times_out ∷ [])
        (run latency qp (all_posts latency.rounds) (set_up latency qp)) in
    (r.received ≤ 4096) × (exit_code latency r ≡ 1)
unfolding ready_queue_pair Pair.bring_up Pair.make Pair.is_ready_to_send Pair.state_eq
run_lossy_example =
    run_lossy latency (ready_queue_pair latency.source latency.destination) refl refl
      (receives ∷ receives ∷ times_out ∷ []) (omega arith) refl

abbrev answers : Answers
answers = record {
  client_sends = some 2 ∷ some 9 ∷ some 1 ∷ [];
  server_receives = some 1 ∷ some 1 ∷ some 5 ∷ [];
  server_sends = some 3 ∷ some 1 ∷ some 1 ∷ [];
  client_receives = some 2 ∷ some 2 ∷ some 2 ∷ [];
}

answers-IsEnough : IsEnough answers 3
answers-IsEnough = record {
  client_sends = omega arith;
  server_receives = omega arith;
  server_sends = omega arith;
  client_receives = omega arith;
}

abbrev calls : Calls
calls = record {
  server_socket = true;
  bind = true;
  listen = true;
  accept_fails = false;
  client_socket = true;
  connect = true;
  rounds = answers ∷ answers ∷ [];
}

calls-IsUp : IsUp calls
calls-IsUp = record { server = (refl, refl, refl); accepts = refl; client = (refl, refl) }

tcp_compare-echo_example :
    (tcp_compare 2 3 calls ≡ returns 0)
    × (exchange 2 3 calls ≡ (succeeded, replicate 2 (tcp_payload 3)))
tcp_compare-echo_example =
    tcp_compare-echo 2 3 calls calls-IsUp (omega arith) (answers-IsEnough, (answers-IsEnough, tt))
