-- ===== src/Rdma/TransportRdma.antt =====
-- rdma/include/rdma/transport_rdma.h and rdma/src/transport_rdma.cpp: the in-memory broker with a
-- mailbox for each node. The methods run under the broker's mutex and are one step each;
-- `PollReceive` is the step at which its wait ends, with a message there or at the time limit.
-- Objects that share the broker share its state.
pub mod Mailbox
pub mod Delivery
pub mod History
use rdma_ai_platform.Assoc.{Assoc, find, assign, emplace, or_else}
use rdma_ai_platform.Bounded.{push_bounded}
use rdma_ai_platform.Common.{
  ℕ, ◌≡◌, Bool, true, false, not, List, [], ◌∷◌, Option, none, some, if◌then◌else◌,
}
use rdma_ai_platform.Rdma.CompletionQueue.{CompletionEvent, CompletionQueue, push, pop_front}
use rdma_ai_platform.Rdma.Config.{TransportConfig}
use rdma_ai_platform.Rdma.EventChannel.{Channels}
use rdma_ai_platform.Rdma.Heap.{Heap, size_at}
use rdma_ai_platform.Rdma.MemoryRegion.{MemoryRegion}
use rdma_ai_platform.Rdma.QueuePair.{QueuePair, is_ready_to_send}
use rdma_ai_platform.Rdma.Types.{
  ByteBufferPtr, WorkRequestId, TimePoint, OperationType, write, CompletionStatus, success, failed,
}
use rdma_ai_platform.Text.{Text, codes, is_empty}

pub record Message : Type 0 where
  pub source : Text
  pub destination : Text
  pub topic : Text
  pub description : Text
  pub payload : ByteBufferPtr
  pub work_request_id : WorkRequestId
  pub operation : OperationType

-- `Message::size`.
unfoldable pub message_size : Message → Heap → ℕ
message_size m h = size_at m.payload h

pub record TransportRdma : Type 0 where
  pub config : TransportConfig
  pub inboxes : Assoc (List Message)

-- The constructor.
unfoldable pub make : TransportConfig → TransportRdma
make config = record { config = config; inboxes = [] }

unfoldable pub connect : QueuePair → TransportRdma → TransportRdma
connect qp t = record t {
  inboxes = emplace qp.config.remote_node [] (emplace qp.config.local_node [] t.inboxes);
}

-- The broker, the sender's completion queue and the event channels.
pub record Wire : Type 0 where
  pub transport : TransportRdma
  pub completions : CompletionQueue
  pub channels : Channels

-- `cq.Push(event)`.
unfoldable pub complete : CompletionEvent → Wire → Wire
complete event w =
    let (cq, channels) = push event w.completions w.channels in
    record w { completions = cq; channels = channels }

-- The block under the broker's mutex: the message goes behind those in the receiver's mailbox.
unfoldable pub deliver : Text → Message → TransportRdma → TransportRdma
deliver node message t =
    let inbox = or_else (find node t.inboxes) [] in
    record t {
      inboxes = assign node (push_bounded t.config.mailbox_capacity message inbox) t.inboxes;
    }

-- The event for a send through `qp`.
unfoldable pub send_event :
    TimePoint → QueuePair → Message → CompletionStatus → Text → ℕ → CompletionEvent
send_event now qp message status detail bytes = record {
  work_request_id = message.work_request_id;
  status = status;
  operation = message.operation;
  source = qp.config.local_node;
  destination = qp.config.remote_node;
  detail = detail;
  completed_at = now;
  bytes = bytes;
}

-- The message as it is delivered.
unfoldable pub address : QueuePair → Message → Message
address qp message = record message {
  source = if is_empty message.source then qp.config.local_node else message.source;
  destination = qp.config.remote_node;
}

unfoldable pub post_send : TimePoint → Heap → QueuePair → Message → Wire → Wire
unfolding send_event address
post_send now h qp message w =
    if not (is_ready_to_send qp)
    then complete (send_event now qp message failed (codes "queue pair is not ready to send") 0) w
    else complete
        (send_event now qp message success (codes "send completed through in-memory RDMA backend")
          (message_size message h))
        (record w { transport = deliver qp.config.remote_node (address qp message) w.transport })

unfoldable pub post_write :
    TimePoint → Heap → QueuePair → MemoryRegion → Text → WorkRequestId → Wire → Wire
post_write now h qp region topic work_request_id = post_send now h qp (record {
  source = qp.config.local_node;
  destination = qp.config.remote_node;
  topic = topic;
  description = region.key;
  payload = region.storage;
  work_request_id = work_request_id;
  operation = write;
})

-- The rest of `PollReceive` when its wait has ended, on the mailbox as it then is.
unfoldable pub receive_from : Text → List Message → TransportRdma → TransportRdma × Option Message
receive_from node [] t = (t, none)
receive_from node (message ∷ rest) t =
    (record t { inboxes = assign node rest t.inboxes }, some message)

unfoldable pub poll_receive : Text → TransportRdma → TransportRdma × Option Message
unfolding receive_from
poll_receive node t =
    let seen = record t { inboxes = emplace node [] t.inboxes } in
    receive_from node (or_else (find node seen.inboxes) []) seen

unfoldable pub backend_name : TransportRdma → Text
backend_name t = t.config.backend_name
