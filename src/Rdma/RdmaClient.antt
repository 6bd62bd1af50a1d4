-- ===== src/Rdma/RdmaClient.antt =====
-- rdma/include/rdma/rdma_client.h and rdma/src/rdma_client.cpp. A call works on the client and on
-- what it shares with others (Rdma/Fabric).
pub mod Connect
use rdma_ai_platform.Common.{
  ◌+◌, ◌%◌, ◌^◌, Bool, true, false, not, ◌||◌, Option, none, some, if◌then◌else◌,
}
use rdma_ai_platform.Rdma.CompletionQueue.{CompletionQueue, CompletionEvent, poll}
use rdma_ai_platform.Rdma.CompletionQueue as Queue
use rdma_ai_platform.Rdma.Config.{ClientConfig}
use rdma_ai_platform.Rdma.Connection.{Connection, establish}
use rdma_ai_platform.Rdma.Connection as Link
use rdma_ai_platform.Rdma.Fabric.{Fabric, connect_through, send_through, receive_through}
use rdma_ai_platform.Rdma.Handshake.{build, validate}
use rdma_ai_platform.Rdma.MemoryRegion.{MemoryRegistry, empty_registry, register}
use rdma_ai_platform.Rdma.QueuePair as Pair
use rdma_ai_platform.Rdma.ResultMessage.{ResultMessage, deserialize_at}
use rdma_ai_platform.Rdma.TaskMessage.{TaskMessage, serialize}
use rdma_ai_platform.Rdma.TransportRdma.{Message}
use rdma_ai_platform.Rdma.Types.{WorkRequestId, send}
use rdma_ai_platform.Text.{codes}

pub record RdmaClient : Type 0 where
  pub config : ClientConfig
  pub has_transport : Bool
  pub connection : Connection
  pub registry : MemoryRegistry
  pub completions : CompletionQueue
  pub next_work_request_id : WorkRequestId

-- The constructor.
unfoldable pub make : ClientConfig → Bool → RdmaClient
make config has_transport = record {
  config = config;
  has_transport = has_transport;
  connection = Link.make (
      Pair.make (record {
        local_node = config.node_id;
        remote_node = config.server_node;
        max_send_wr = 256;
        max_recv_wr = 256;
      }));
  registry = empty_registry;
  completions = Queue.make (record { depth = 1024 });
  next_work_request_id = 1;
}

-- `Connect` behind the handshake.
unfoldable pub connect_accepted : RdmaClient → Fabric → RdmaClient × Fabric × Bool
connect_accepted c f =
    let (connection, up) = establish c.connection in
    let c' = record c { connection = connection } in
    if not up then (c', f, false) else (c', connect_through connection.queue_pair f, true)

unfoldable pub connect : RdmaClient → Fabric → RdmaClient × Fabric × Bool
unfolding connect_accepted
connect c f =
    if not c.has_transport
    then (c, f, false)
    else let response = validate (build c.connection.queue_pair.config) in
      if not response.accepted then (c, f, false) else connect_accepted c f

-- The message that `SubmitTask` posts.
abbrev pub task_message : RdmaClient → TaskMessage → WorkRequestId → Fabric → Message
task_message c task id f = record {
  source = c.config.node_id;
  destination = c.config.server_node;
  topic = codes "task";
  description = task.description;
  payload = (register (serialize task) c.registry f.heap).0.storage;
  work_request_id = id;
  operation = send;
}

-- `SubmitTask` behind its test.
unfoldable pub post_task : TaskMessage → RdmaClient → Fabric → RdmaClient × Fabric × WorkRequestId
post_task task c f =
    let (region, registry, heap) = register (serialize task) c.registry f.heap in
    let id = c.next_work_request_id in
    let (cq, f') =
      send_through c.connection.queue_pair (task_message c task id f) c.completions
        (record f { heap = heap }) in
    (
      record c { registry = registry; completions = cq; next_work_request_id = (id + 1) % 2 ^ 64 },
      f',
      id,
    )

unfoldable pub submit_task : TaskMessage → RdmaClient → Fabric → RdmaClient × Fabric × WorkRequestId
unfolding post_task
submit_task task c f =
    if not c.connection.established || not c.has_transport then (c, f, 0) else post_task task c f

-- What is returned for a received message: nothing if it has no payload.
unfoldable pub read_result : Option Message → Fabric → Option ResultMessage
read_result none f = none
read_result (some m) f = elim m.payload [
  | none ↦ none
  | some i ↦ some (deserialize_at (some i) f.heap)
]

unfoldable pub poll_result : RdmaClient → Fabric → RdmaClient × Fabric × Option ResultMessage
unfolding read_result
poll_result c f =
    if not c.has_transport
    then (c, f, none)
    else let (f', message) = receive_through c.config.node_id f in (c, f', read_result message f')

unfoldable pub poll_completion : RdmaClient → RdmaClient × Option CompletionEvent
poll_completion c = let (cq, event) = poll c.completions in (record c { completions = cq }, event)
