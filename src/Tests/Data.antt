-- ===== src/Tests/Data.antt =====
-- Test data that several modules use: messages, nodes, a transport and sessions.
use rdma_ai_platform.Common.{true, none, [], ◌∷◌}
use rdma_ai_platform.Rdma.CompletionQueue as Queue
use rdma_ai_platform.Rdma.CompletionQueue.{CompletionQueue}
use rdma_ai_platform.Rdma.Fabric.{Fabric}
use rdma_ai_platform.Rdma.QueuePair.{QueuePair, QueuePairConfig}
use rdma_ai_platform.Rdma.RdmaClient as Client
use rdma_ai_platform.Rdma.RdmaClient.{RdmaClient}
use rdma_ai_platform.Rdma.RdmaServer as Server
use rdma_ai_platform.Rdma.RdmaServer.{RdmaServer}
use rdma_ai_platform.Rdma.TaskMessage.{TaskMessage}
use rdma_ai_platform.Rdma.ResultMessage.{ResultMessage}
use rdma_ai_platform.Rdma.TransportRdma as Transport
use rdma_ai_platform.Rdma.TransportRdma.{Message, Wire}
use rdma_ai_platform.Rdma.Types.{ready_to_send, reset, send}
use rdma_ai_platform.Rdma.WorkerSession as Session
use rdma_ai_platform.Rdma.WorkerSession.{WorkerSession}
use rdma_ai_platform.Text.{codes}

abbrev pub task : TaskMessage
task = record {
  task_id = codes "t1";
  kind = codes "inference";
  source_node = codes "a";
  target_node = codes "b";
  description = codes "x=1";
  metadata = (codes "k", codes "v") ∷ (codes "n", codes "2") ∷ [];
}

abbrev pub good_result : ResultMessage
good_result = record {
  task_id = codes "t1";
  worker_node = codes "b";
  target_node = codes "a";
  success = true;
  detail = codes "ok";
  metadata = (codes "ms", codes "7") ∷ [];
}

abbrev pub fabric : Fabric
fabric = record {
  transport =
      Transport.make (record { backend_name = codes "in-memory-rdma"; mailbox_capacity = 2 });
  heap = [];
  channels = [];
  now = 0;
}

abbrev pub wire : Wire
wire = record {
  transport = fabric.transport;
  completions = Queue.make (record { depth = 2 });
  channels = [];
}

abbrev pub pair_config : QueuePairConfig
pair_config = record {
  local_node = codes "a";
  remote_node = codes "b";
  max_send_wr = 256;
  max_recv_wr = 256;
}

abbrev pub fresh_pair : QueuePair
fresh_pair = record { config = pair_config; state = reset }

abbrev pub ready_pair : QueuePair
ready_pair = record { config = pair_config; state = ready_to_send }

abbrev pub message : Message
message = record {
  source = [];
  destination = [];
  topic = codes "task";
  description = [];
  payload = none;
  work_request_id = 7;
  operation = send;
}

abbrev pub session_a : WorkerSession
session_a =
    (Session.make
      (record {
        node_id = codes "a";
        buffer_pool = record { buffers = 0; buffer_size = 4 };
        completion_queue = record { depth = 4 };
      })
      true []).0

abbrev pub session_b : WorkerSession
session_b =
    (Session.make
      (record {
        node_id = codes "b";
        buffer_pool = record { buffers = 0; buffer_size = 4 };
        completion_queue = record { depth = 4 };
      })
      true []).0

abbrev pub server : RdmaServer
server = Server.make (record { node_id = codes "b"; listen_address = codes "0.0.0.0" }) true

abbrev pub client : RdmaClient
client =
    (Client.connect (Client.make (record { node_id = codes "a"; server_node = codes "b" }) true)
      fabric).0
