-- ===== src/Rdma/Fabric.antt =====
-- What the clients, servers and sessions of one program share: the transport that they were given
-- a pointer to, the buffers, the event channels and the clock (`Clock::now()`, read at a call).
-- Whether such a pointer is null is a flag of its owner, which tests it before a call.
pub mod Exchange
use rdma_ai_platform.Common.{Option}
use rdma_ai_platform.Rdma.CompletionQueue.{CompletionQueue}
use rdma_ai_platform.Rdma.EventChannel.{Channels}
use rdma_ai_platform.Rdma.Heap.{Heap}
use rdma_ai_platform.Rdma.QueuePair.{QueuePair}
use rdma_ai_platform.Rdma.TransportRdma.{TransportRdma, Message, connect, post_send, poll_receive}
use rdma_ai_platform.Rdma.Types.{TimePoint}
use rdma_ai_platform.Text.{Text}

pub record Fabric : Type 0 where
  pub transport : TransportRdma
  pub heap : Heap
  pub channels : Channels
  pub now : TimePoint

-- `transport->Connect(qp)`.
unfoldable pub connect_through : QueuePair → Fabric → Fabric
connect_through qp f = record f { transport = connect qp f.transport }

-- `transport->PostSend(qp, message, completions)`.
unfoldable pub send_through :
    QueuePair → Message → CompletionQueue → Fabric → CompletionQueue × Fabric
send_through qp message cq f =
    let w =
      post_send f.now f.heap qp message
        (record { transport = f.transport; completions = cq; channels = f.channels }) in
    (w.completions, record f { transport = w.transport; channels = w.channels })

-- `transport->PollReceive(node, timeout)`.
unfoldable pub receive_through : Text → Fabric → Fabric × Option Message
receive_through node f =
    let (t, message) = poll_receive node f.transport in (record f { transport = t }, message)
