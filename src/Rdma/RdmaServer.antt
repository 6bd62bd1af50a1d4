-- ===== src/Rdma/RdmaServer.antt =====
-- rdma/include/rdma/rdma_server.h and rdma/src/rdma_server.cpp. A call works on the server and on
-- what it shares with others (Rdma/Fabric).
pub mod Exchange
pub mod Round
use rdma_ai_platform.Common.{Bool, true, false, not, Option, none, some, [], if◌then◌else◌}
use rdma_ai_platform.Rdma.CompletionQueue.{CompletionQueue, CompletionEvent, poll}
use rdma_ai_platform.Rdma.CompletionQueue as Queue
use rdma_ai_platform.Rdma.Config.{ServerConfig}
use rdma_ai_platform.Rdma.Connection.{Connection}
use rdma_ai_platform.Rdma.Fabric.{Fabric, send_through, receive_through}
use rdma_ai_platform.Rdma.Heap.{alloc}
use rdma_ai_platform.Rdma.Peers as Peer
use rdma_ai_platform.Rdma.Peers.{Peers}
use rdma_ai_platform.Rdma.ResultMessage.{ResultMessage, serialize}
use rdma_ai_platform.Rdma.TaskMessage.{TaskMessage, deserialize_at}
use rdma_ai_platform.Rdma.TransportRdma.{Message}
use rdma_ai_platform.Rdma.Types.{result, ByteBufferPtr}
use rdma_ai_platform.Text.{Text, codes}

pub record RdmaServer : Type 0 where
  pub config : ServerConfig
  pub has_transport : Bool
  pub completions : CompletionQueue
  pub peers : Peers

-- The constructor.
unfoldable pub make : ServerConfig → Bool → RdmaServer
make config has_transport = record {
  config = config;
  has_transport = has_transport;
  completions = Queue.make (record { depth = 1024 });
  peers = [];
}

unfoldable pub ensure_peer : Text → RdmaServer → Fabric → Connection × RdmaServer × Fabric
ensure_peer client s f =
    let (connection, peers, f') =
      Peer.ensure_peer s.config.node_id s.has_transport client s.peers f in
    (connection, record s { peers = peers }, f')

unfoldable pub accept : Text → RdmaServer → Fabric → RdmaServer × Fabric × Bool
unfolding ensure_peer
accept client s f =
    if not s.has_transport
    then (s, f, false)
    else let (_, s', f') = ensure_peer client s f in (s', f', true)

-- What is returned for a received message: nothing if it has no payload.
unfoldable pub read_task : Option Message → Fabric → Option TaskMessage
read_task none f = none
read_task (some m) f = elim m.payload [
  | none ↦ none
  | some i ↦ some (deserialize_at (some i) f.heap)
]

unfoldable pub poll_task : RdmaServer → Fabric → RdmaServer × Fabric × Option TaskMessage
unfolding read_task
poll_task s f =
    if not s.has_transport
    then (s, f, none)
    else let (f', message) = receive_through s.config.node_id f in (s, f', read_task message f')

-- The message that `SendResult` posts.
abbrev pub result_message : Text → Text → ResultMessage → ByteBufferPtr → Message
result_message node client r payload = record {
  source = node;
  destination = client;
  topic = codes "result";
  description = r.detail;
  payload = payload;
  work_request_id = 0;
  operation = result;
}

-- `SendResult` through a transport.
unfoldable pub post_result : Text → ResultMessage → RdmaServer → Fabric → RdmaServer × Fabric × Bool
unfolding ensure_peer
post_result client r s f =
    let (connection, s', f') = ensure_peer client s f in
    let (heap, payload) = alloc (serialize r) f'.heap in
    let (cq, f'') =
      send_through connection.queue_pair (result_message s.config.node_id client r payload)
        s'.completions (record f' { heap = heap }) in
    (record s' { completions = cq }, f'', true)

unfoldable pub send_result : Text → ResultMessage → RdmaServer → Fabric → RdmaServer × Fabric × Bool
unfolding post_result
send_result client r s f = if not s.has_transport then (s, f, false) else post_result client r s f

unfoldable pub poll_completion : RdmaServer → RdmaServer × Option CompletionEvent
poll_completion s = let (cq, event) = poll s.completions in (record s { completions = cq }, event)
