-- ===== src/Rdma/Peers.antt =====
-- `EnsurePeer` of the server and of the worker session, which share the code
-- (rdma/src/rdma_server.cpp, rdma/src/worker_session.cpp): a connection for each peer, made and
-- established when the peer is first named.
pub mod Ready
use rdma_ai_platform.Assoc.{Assoc, find, emplace}
use rdma_ai_platform.Common.{Bool, none, some, if◌then◌else◌}
use rdma_ai_platform.Rdma.Connection.{Connection, make, establish}
use rdma_ai_platform.Rdma.Fabric.{Fabric, connect_through}
use rdma_ai_platform.Rdma.QueuePair as Pair
use rdma_ai_platform.Rdma.QueuePair.{QueuePairConfig}
use rdma_ai_platform.Text.{Text}

abbrev pub Peers : Type 0
Peers = Assoc Connection

abbrev pub peer_config : Text → Text → QueuePairConfig
peer_config node peer = record {
  local_node = node;
  remote_node = peer;
  max_send_wr = 256;
  max_recv_wr = 256;
}

-- The part behind the test that the peer is known.
unfoldable pub add_peer : Text → Bool → Text → Peers → Fabric → Connection × Peers × Fabric
add_peer node has_transport peer peers f =
    let connection = (establish (make (Pair.make (peer_config node peer)))).0 in
    let f' = if has_transport then connect_through connection.queue_pair f else f in
    (connection, emplace peer connection peers, f')

unfoldable pub ensure_peer : Text → Bool → Text → Peers → Fabric → Connection × Peers × Fabric
unfolding add_peer
ensure_peer node has_transport peer peers f = elim (find peer peers) [
  | some connection ↦ (connection, peers, f)
  | none ↦ add_peer node has_transport peer peers f
]
