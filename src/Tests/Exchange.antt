-- ===== src/Tests/Exchange.antt =====
-- Tasks and results between sessions, and between a client and its server.
use rdma_ai_platform.Common.{◌≡◌, refl, some, true, []}
use rdma_ai_platform.Rdma.Peers.Ready.{AllReady-nil, Ensured, ensure_peer-Ensured}
use rdma_ai_platform.Rdma.Peers as Peer
use rdma_ai_platform.Rdma.RdmaClient.Connect.{connect-make}
use rdma_ai_platform.Rdma.RdmaClient.{submit_task, poll_result, connect, make}
use rdma_ai_platform.Rdma.RdmaServer.Exchange.{
  IsConnected, poll_task-submit_task, poll_result-send_result,
}
use rdma_ai_platform.Rdma.RdmaServer as Server
use rdma_ai_platform.Rdma.RdmaServer.{send_result}
use rdma_ai_platform.Rdma.TransportRdma.Mailbox.{mailbox}
use rdma_ai_platform.Rdma.WorkerSession.Exchange.{poll_task-submit}
use rdma_ai_platform.Rdma.WorkerSession.{poll_task, submit}
use rdma_ai_platform.Rdma.WorkerSession as Session
use rdma_ai_platform.Rdma.TransportRdma as Transport
use rdma_ai_platform.Rdma.Connection as Link
use rdma_ai_platform.Rdma.QueuePair as Pair
use rdma_ai_platform.Rdma.QueuePair.{bring_up}
use rdma_ai_platform.Rdma.Handshake.{validate, build}
use rdma_ai_platform.Rdma.Fabric.{connect_through}
use rdma_ai_platform.Rdma.RdmaClient.{connect_accepted}
use rdma_ai_platform.Assoc.{find, emplace}
use rdma_ai_platform.Tests.Data.{task, good_result, fabric, session_a, session_b, server, client}
use rdma_ai_platform.Tests.Messages.{task-IsPlain, task-IsBytes, result-IsPlain, result-IsBytes}
use rdma_ai_platform.Text.{codes}

poll_task-submit_example : (poll_task session_b (submit task session_a fabric).1).2 ≡ some task
unfolding Session.make mailbox find Transport.make
poll_task-submit_example =
    poll_task-submit task session_a session_b fabric refl refl (AllReady-nil (codes "a")) refl refl
      task-IsPlain task-IsBytes

client-IsConnected : IsConnected client
unfolding connect make validate build Link.make Pair.make Link.establish bring_up
client-IsConnected =
    (connect-make (record { node_id = codes "a"; server_node = codes "b" }) true fabric).1 refl

poll_task-submit_task_example :
    (Server.poll_task server (submit_task task client fabric).1).2 ≡ some task
unfolding Server.make connect make connect_accepted mailbox find emplace Transport.make
    Transport.connect connect_through validate build Link.make Pair.make Link.establish bring_up
poll_task-submit_task_example =
    poll_task-submit_task task client server fabric client-IsConnected refl refl refl task-IsPlain
      task-IsBytes

poll_result-send_result_example :
    (poll_result client (send_result (codes "a") good_result server fabric).1).2 ≡ some good_result
unfolding Server.make connect make connect_accepted mailbox find Transport.make validate build
    Link.make Pair.make Link.establish bring_up
poll_result-send_result_example =
    poll_result-send_result (codes "a") good_result server client fabric (AllReady-nil (codes "b"))
      refl refl refl refl result-IsPlain result-IsBytes

ensure_peer-Ensured_example :
    Ensured (codes "b") (codes "a") fabric (Peer.ensure_peer (codes "b") true (codes "a") [] fabric)
ensure_peer-Ensured_example =
    ensure_peer-Ensured (codes "b") true (codes "a") [] fabric (AllReady-nil (codes "b"))
