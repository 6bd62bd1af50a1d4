-- ===== src/Examples/Demos.antt =====
-- rdma/examples/send_recv_demo.cpp, write_demo.cpp and worker_transport_demo.cpp: what each `main`
-- returns. A wait ends with what is there. What they print is not modelled.
pub mod Writing
use rdma_ai_platform.Common.{
  ℕ, Bool, true, false, not, ◌&&◌, ◌||◌, Option, none, some, [], ◌∷◌, length, get_elem?, set,
  replicate, ◌==◌, if◌then◌else◌,
}
use rdma_ai_platform.Rdma.CompletionQueue as Queue
use rdma_ai_platform.Rdma.CompletionQueue.{CompletionEvent}
use rdma_ai_platform.Rdma.Config.{default_rdma_config, WorkerSessionConfig}
use rdma_ai_platform.Rdma.Fabric.{Fabric, receive_through}
use rdma_ai_platform.Rdma.Heap.{Heap}
use rdma_ai_platform.Rdma.MemoryRegion.{MemoryRegion, empty_registry, register_size, region_size}
use rdma_ai_platform.Rdma.QueuePair as Pair
use rdma_ai_platform.Rdma.QueuePair.{QueuePair, bring_up}
use rdma_ai_platform.Rdma.ResultMessage as Result
use rdma_ai_platform.Rdma.ResultMessage.{ResultMessage}
use rdma_ai_platform.Rdma.TaskMessage.{TaskMessage}
use rdma_ai_platform.Rdma.TransportRdma as Transport
use rdma_ai_platform.Rdma.TransportRdma.{
  Message, Wire, connect, post_write, poll_receive, message_size,
}
use rdma_ai_platform.Rdma.Types.{ByteBufferPtr, TimePoint, OperationType, send, write, result}
use rdma_ai_platform.Rdma.WorkerSession as Session
use rdma_ai_platform.Rdma.WorkerSession.{
  WorkerSession, SubmissionResult, submit, poll_completion, poll_task, send_result,
}
use rdma_ai_platform.Text.{Text, codes}
use rdma_ai_platform.Examples.PingPong.{has_value}

-- A transport of the default configuration at the time `now`, and the buffers there are.
unfoldable pub fresh_fabric : TimePoint → Heap → Fabric
fresh_fabric now heap = record {
  transport = Transport.make default_rdma_config.transport;
  heap = heap;
  channels = [];
  now = now;
}

-- A session's configuration with the defaults but the node.
unfoldable pub session_config : Text → WorkerSessionConfig
session_config node = record {
  node_id = node;
  buffer_pool = default_rdma_config.buffer_pool;
  completion_queue = default_rdma_config.completion_queue;
}

-- The two sessions of a program, over one transport.
pub record Sessions : Type 0 where
  pub first : WorkerSession
  pub second : WorkerSession
  pub fabric : Fabric

unfoldable pub set_up : Text → Text → TimePoint → Sessions
unfolding session_config fresh_fabric
set_up first_node second_node now =
    let (first, heap) = Session.make (session_config first_node) true [] in
    let (second, heap') = Session.make (session_config second_node) true heap in
    record { first = first; second = second; fabric = fresh_fabric now heap' }

-- send_recv_demo.
abbrev pub hello : TaskMessage
hello = record {
  task_id = codes "task-1";
  kind = codes "send_recv";
  source_node = codes "demo-sender";
  target_node = codes "demo-receiver";
  description = codes "hello from sender";
  metadata = (codes "payload_bytes", codes "18") ∷ [];
}

-- The calls of send_recv_demo on sessions `s`, with the task that it sends.
unfoldable pub send_recv : TaskMessage → Sessions → ℕ
send_recv task s =
    let (sender, f, submitted) = submit task s.first s.fabric in
    let (sender', completion) = poll_completion sender in
    let (receiver, f', message) = poll_task s.second f in
    if not submitted.success || not (has_value completion) || not (has_value message) then 1 else 0

unfoldable pub send_recv_demo : TimePoint → ℕ
unfolding send_recv set_up
send_recv_demo now = send_recv hello (set_up (codes "demo-sender") (codes "demo-receiver") now)

-- write_demo.
unfoldable pub ready_queue_pair : Text → Text → QueuePair
ready_queue_pair local remote =
    (bring_up (
      Pair.make (record {
        local_node = local;
        remote_node = remote;
        max_send_wr = 64;
        max_recv_wr = 64;
      }))).0

-- `std::fill` over the buffer of a pointer that is not null.
unfoldable pub fill_at : ByteBufferPtr → ℕ → Heap → Heap
fill_at none value h = h
fill_at (some i) value h = elim (get_elem? h i) [
  | none ↦ h
  | some bytes ↦ set h i (replicate (length bytes) value)
]

unfoldable pub is_write : OperationType → Bool
is_write write = true
is_write send = false
is_write result = false

-- What the receiver's thread sets `received` to.
unfoldable pub write_received : Option Message → MemoryRegion → Heap → Bool
unfolding is_write
write_received none region h = false
write_received (some m) region h = is_write m.operation && message_size m h == region_size region h

-- The calls of write_demo on the pair, the region and what they work on.
unfoldable pub write_through : TimePoint → QueuePair → MemoryRegion → Heap → Wire → ℕ
unfolding write_received
write_through now qp region h w =
    let w' = post_write now h qp region (codes "tensor-write") 1 w in
    let received = write_received (poll_receive (codes "write-dst") w'.transport).1 region h in
    let completion = (Queue.poll w'.completions).1 in
    if not received || not (has_value completion) then 1 else 0

-- `main` of write_demo, with a region of `bytes` bytes in place of 4096.
unfoldable pub write_demo : ℕ → TimePoint → ℕ
unfolding write_through fill_at ready_queue_pair
write_demo bytes now =
    let qp = ready_queue_pair (codes "write-src") (codes "write-dst") in
    let t = connect qp (Transport.make default_rdma_config.transport) in
    let (region, registry, heap) = register_size bytes empty_registry [] in
    write_through now qp region (fill_at region.storage 60 heap) (record {
      transport = t;
      completions = Queue.make default_rdma_config.completion_queue;
      channels = [];
    })

-- worker_transport_demo.
abbrev pub shard : TaskMessage
shard = record {
  task_id = codes "job-42";
  kind = codes "broadcast";
  source_node = codes "controller";
  target_node = codes "worker-a";
  description = codes "ship one tensor shard";
  metadata = (codes "dtype", codes "fp16") ∷ (codes "tensor", codes "layer-12") ∷ [];
}

unfoldable pub job_done : Text → TaskMessage → ResultMessage
job_done worker task = record {
  task_id = task.task_id;
  worker_node = worker;
  target_node = codes "controller";
  success = true;
  detail = codes "task executed by worker session";
  metadata = (codes "status", codes "done") ∷ [];
}

-- The end, on the message that the controller's node received.
unfoldable pub read_back : Option Message → Fabric → ℕ
read_back none f = 1
read_back (some m) f = elim m.payload [
  | none ↦ 1
  | some i ↦ if (Result.deserialize_at (some i) f.heap).success then 0 else 1
]

-- From the result on, for the task that the worker polled.
unfoldable pub return_result : Option TaskMessage → WorkerSession → Fabric → ℕ
unfolding job_done read_back
return_result none worker f = 1
return_result (some task) worker f =
    let (worker', f', _) = send_result (job_done worker.config.node_id task) worker f in
    let (f'', raw) = receive_through (codes "controller") f' in read_back raw f''

-- The calls of worker_transport_demo on sessions `s`, with the task that it sends.
unfoldable pub deliver_task : TaskMessage → Sessions → ℕ
unfolding return_result
deliver_task task s =
    let (controller, f, submitted) = submit task s.first s.fabric in
    let (controller', completion) = poll_completion controller in
    let (worker, f', polled) = poll_task s.second f in
    if not submitted.success || not (has_value completion)
    then 1
    else return_result polled worker f'

unfoldable pub worker_transport_demo : TimePoint → ℕ
unfolding deliver_task set_up
worker_transport_demo now = deliver_task shard (set_up (codes "controller") (codes "worker-a") now)
