-- ===== src/Rdma/WorkerSession.antt =====
-- rdma/include/rdma/worker_session.h and rdma/src/worker_session.cpp. A call works on the session
-- and on what it shares with others (Rdma/Fabric). The buffer pool is made by the constructor and
-- takes its buffers from the session's registry.
pub mod Exchange
use rdma_ai_platform.Common.{
  ◌+◌, ◌%◌, ◌^◌, Bool, true, false, not, Option, none, some, [], length, if◌then◌else◌,
}
use rdma_ai_platform.Rdma.BufferPool as Buffers
use rdma_ai_platform.Rdma.BufferPool.{BufferPool}
use rdma_ai_platform.Rdma.CompletionQueue as Queue
use rdma_ai_platform.Rdma.CompletionQueue.{CompletionQueue, CompletionEvent, poll}
use rdma_ai_platform.Rdma.Config.{WorkerSessionConfig}
use rdma_ai_platform.Rdma.Connection.{Connection}
use rdma_ai_platform.Rdma.Fabric.{Fabric, send_through, receive_through}
use rdma_ai_platform.Rdma.Heap.{alloc, Heap}
use rdma_ai_platform.Rdma.MemoryRegion.{MemoryRegistry, empty_registry, register, region_size}
use rdma_ai_platform.Rdma.Metrics.{
  Metrics, MetricsSnapshot, zero_metrics, record_send, record_receive, record_completion, snapshot,
}
use rdma_ai_platform.Rdma.Peers as Peer
use rdma_ai_platform.Rdma.Peers.{Peers}
use rdma_ai_platform.Rdma.ResultMessage as Result
use rdma_ai_platform.Rdma.ResultMessage.{ResultMessage}
use rdma_ai_platform.Rdma.TaskMessage.{TaskMessage, deserialize_at, serialize}
use rdma_ai_platform.Rdma.TransportRdma.{Message, message_size}
use rdma_ai_platform.Rdma.Types.{send, result, ByteBufferPtr, WorkRequestId}
use rdma_ai_platform.Text.{Text, codes, is_empty}

pub record SubmissionResult : Type 0 where
  pub task_id : Text
  pub success : Bool
  pub detail : Text
  pub work_request_id : WorkRequestId

pub record WorkerSession : Type 0 where
  pub config : WorkerSessionConfig
  pub has_transport : Bool
  pub registry : MemoryRegistry
  pub buffer_pool : BufferPool
  pub completions : CompletionQueue
  pub metrics : Metrics
  pub peers : Peers
  pub next_work_request_id : WorkRequestId

-- The constructor.
unfoldable pub make : WorkerSessionConfig → Bool → Heap → WorkerSession × Heap
make config has_transport heap =
    let m = Buffers.make config.buffer_pool empty_registry heap in
    (
      record {
        config = config;
        has_transport = has_transport;
        registry = m.registry;
        buffer_pool = m.pool;
        completions = Queue.make config.completion_queue;
        metrics = zero_metrics;
        peers = [];
        next_work_request_id = 1;
      },
      m.heap,
    )

unfoldable pub ensure_peer : Text → WorkerSession → Fabric → Connection × WorkerSession × Fabric
ensure_peer peer s f =
    let (connection, peers, f') =
      Peer.ensure_peer s.config.node_id s.has_transport peer s.peers f in
    (connection, record s { peers = peers }, f')

-- `target_node.empty() ? config_.node_id : target_node`.
abbrev pub target : Text → WorkerSession → Text
target node s = if is_empty node then s.config.node_id else node

-- The message that `Submit` posts.
abbrev pub task_message : Text → Text → TaskMessage → ByteBufferPtr → WorkRequestId → Message
task_message node peer task payload id = record {
  source = node;
  destination = peer;
  topic = codes "task";
  description = task.description;
  payload = payload;
  work_request_id = id;
  operation = send;
}

-- `Submit` through a transport, to the peer that it has found.
unfoldable pub submit_to :
    Text → TaskMessage → WorkerSession → Fabric → WorkerSession × Fabric × SubmissionResult
unfolding ensure_peer
submit_to peer task s f =
    let (connection, s', f') = ensure_peer peer s f in
    let (region, registry, heap) = register (serialize task) s'.registry f'.heap in
    let id = s'.next_work_request_id in
    let (cq, f'') =
      send_through connection.queue_pair (task_message s.config.node_id peer task region.storage id)
        s'.completions (record f' { heap = heap }) in
    (
      record s' {
        registry = registry;
        completions = cq;
        metrics = record_send (region_size region heap) s'.metrics;
        next_work_request_id = (id + 1) % 2 ^ 64;
      },
      f'',
      record {
        task_id = task.task_id;
        success = true;
        detail = codes "task submitted through rdma session";
        work_request_id = id;
      },
    )

unfoldable pub submit :
    TaskMessage → WorkerSession → Fabric → WorkerSession × Fabric × SubmissionResult
unfolding submit_to
submit task s f =
    if not s.has_transport
    then (
      s,
      f,
      record {
        task_id = task.task_id;
        success = false;
        detail = codes "transport is not configured";
        work_request_id = 0;
      },
    )
    else submit_to (target task.target_node s) task s f

-- `PollTask` on what was received. A message with no payload is counted nowhere and dropped.
unfoldable pub read_task :
    Option Message → WorkerSession → Fabric → WorkerSession × Option TaskMessage
read_task none s f = (s, none)
read_task (some m) s f = elim m.payload [
  | none ↦ (s, none)
  | some i ↦ (
    record s { metrics = record_receive (message_size m f.heap) s.metrics },
    some (deserialize_at (some i) f.heap),
  )
]

unfoldable pub poll_task : WorkerSession → Fabric → WorkerSession × Fabric × Option TaskMessage
unfolding read_task
poll_task s f =
    if not s.has_transport
    then (s, f, none)
    else let (f', message) = receive_through s.config.node_id f in
      let (s', task) = read_task message s f' in (s', f', task)

-- The message that `SendResult` posts.
abbrev pub result_message : Text → Text → ResultMessage → ByteBufferPtr → WorkRequestId → Message
result_message node peer r payload id = record {
  source = node;
  destination = peer;
  topic = codes "result";
  description = r.detail;
  payload = payload;
  work_request_id = id;
  operation = result;
}

-- `SendResult` through a transport, to the peer that it has found.
unfoldable pub send_result_to :
    Text → ResultMessage → WorkerSession → Fabric → WorkerSession × Fabric × Bool
unfolding ensure_peer
send_result_to peer r s f =
    let (connection, s', f') = ensure_peer peer s f in
    let bytes = Result.serialize r in
    let (heap, payload) = alloc bytes f'.heap in
    let id = s'.next_work_request_id in
    let (cq, f'') =
      send_through connection.queue_pair (result_message s.config.node_id peer r payload id)
        s'.completions (record f' { heap = heap }) in
    (
      record s' {
        completions = cq;
        metrics = record_send (length bytes) s'.metrics;
        next_work_request_id = (id + 1) % 2 ^ 64;
      },
      f'',
      true,
    )

unfoldable pub send_result : ResultMessage → WorkerSession → Fabric → WorkerSession × Fabric × Bool
unfolding send_result_to
send_result r s f =
    if not s.has_transport then (s, f, false) else send_result_to (target r.target_node s) r s f

-- `if (event.has_value()) metrics_.RecordCompletion(*event);`
unfoldable pub note_completion : Option CompletionEvent → Metrics → Metrics
note_completion none m = m
note_completion (some event) m = record_completion event m

unfoldable pub poll_completion : WorkerSession → WorkerSession × Option CompletionEvent
unfolding note_completion
poll_completion s =
    let (cq, event) = poll s.completions in
    (record s { completions = cq; metrics = note_completion event s.metrics }, event)

unfoldable pub metrics_of : WorkerSession → MetricsSnapshot
metrics_of s = snapshot s.metrics
