-- ===== src/Rdma/RdmaClient/Connect.antt =====
-- Connecting a client.
use rdma_ai_platform.Common.{false, arith, ◌≡◌, refl, ◌≢◌, ◌↔◌, Bool, true, []}
use rdma_ai_platform.Rdma.Config.{ClientConfig}
use rdma_ai_platform.Rdma.Fabric.{Fabric}
use rdma_ai_platform.Rdma.Handshake.{build, validate}
use rdma_ai_platform.Rdma.RdmaClient.{make, connect, connect_accepted}
use rdma_ai_platform.Rdma.Connection as Link
use rdma_ai_platform.Rdma.QueuePair as Pair
use rdma_ai_platform.Rdma.RdmaServer.Exchange.{IsConnected}
use rdma_ai_platform.Rdma.QueuePair.{bring_up, is_ready_to_send, state_eq}

connect_accepted-make :
    (config : ClientConfig) (f : Fabric)
    → ((connect_accepted (make config true) f).2 ≡ true)
      × IsConnected (connect_accepted (make config true) f).0
unfolding connect_accepted make Link.establish Link.make Pair.make bring_up is_ready_to_send
    state_eq
connect_accepted-make config f = (
  refl,
  record { transport = refl; established = refl; leads = record { ready = refl; config = refl } },
)

-- A new client with a transport connects exactly when its own node and the server's are named, and
-- is then connected to its server. Without a transport it never does.
pub connect-make :
    (config : ClientConfig) (has_transport : Bool) (f : Fabric)
    → let (c, _, done) = connect (make config has_transport) f in
      ((done ≡ true) ↔ ((has_transport ≡ true) × (config.node_id ≢ []) × (config.server_node ≢ [])))
      × (done ≡ true → IsConnected c)
unfolding connect validate build make Link.make Pair.make
connect-make config false f = ground arith
connect-make config true f = ground (arith, connect_accepted-make config f)
