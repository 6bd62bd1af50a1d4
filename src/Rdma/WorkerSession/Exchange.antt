-- ===== src/Rdma/WorkerSession/Exchange.antt =====
-- A task from one session to another, and a result back.
use rdma_ai_platform.Common.{Option, if_not-true, ap, ◌∙◌, Bool, ◌≡◌, refl, true, none, some, []}
use rdma_ai_platform.Rdma.Fabric.Exchange.{receive_through-send_through, heap-receive_through}
use rdma_ai_platform.Rdma.Fabric.{Fabric, send_through, receive_through}
use rdma_ai_platform.Rdma.Heap.{Heap, load}
use rdma_ai_platform.Rdma.MemoryRegion.Registry.{register-load}
use rdma_ai_platform.Rdma.MemoryRegion.{register}
use rdma_ai_platform.Rdma.Peers.Ready.{AllReady, ensure_peer-Ensured}
use rdma_ai_platform.Rdma.Peers as Peer
use rdma_ai_platform.Rdma.Peers.{Peers}
use rdma_ai_platform.Rdma.Connection.{Connection}
use rdma_ai_platform.Rdma.CompletionQueue.{CompletionQueue}
use rdma_ai_platform.Rdma.TaskMessage.RoundTrip.{IsPlain, deserialize-serialize}
use rdma_ai_platform.Rdma.TaskMessage.{TaskMessage, serialize, to_text, deserialize_at, deserialize}
use rdma_ai_platform.Rdma.TransportRdma.Mailbox.{mailbox}
use rdma_ai_platform.Rdma.TransportRdma.{Message, address}
use rdma_ai_platform.Rdma.Types.{IsBytes, ByteBufferPtr, ByteBuffer}
use rdma_ai_platform.Rdma.WorkerSession.{
  SubmissionResult, WorkerSession, submit, submit_to, poll_task, read_task, target, task_message,
  ensure_peer,
}
use rdma_ai_platform.Text.{Text}

-- A received message with a good payload gives the task that the payload holds.
pub read_task-payload :
    (m : Message) (s : WorkerSession) (f : Fabric) (p : ByteBufferPtr) {bytes : ByteBuffer}
    → m.payload ≡ p
    → load p f.heap ≡ some bytes
    → (read_task (some m) s f).1 ≡ some (deserialize bytes)
unfolding read_task deserialize_at
read_task-payload m s f none e l = unfold load in cc
read_task-payload m s f (some i) e l = rw (e, read_task) (rw (l, deserialize_at) refl)

poll_task-received :
    (s : WorkerSession) (f : Fabric) (m : Message) {bytes : ByteBuffer}
    → s.has_transport ≡ true
    → (receive_through s.config.node_id f).1 ≡ some m
    → load m.payload f.heap ≡ some bytes
    → (poll_task s f).2 ≡ some (deserialize bytes)
unfolding poll_task
poll_task-received s f m up got l =
    ap (λ (r : WorkerSession × Fabric × Option TaskMessage). r.2)
      (if_not-true s.has_transport _ _ up)
    ∙ ap (λ o. (read_task o s (receive_through s.config.node_id f).0).1) got
    ∙ read_task-payload m s (receive_through s.config.node_id f).0 m.payload refl
        (ap (load m.payload) (heap-receive_through s.config.node_id f) ∙ l)

module _ (node : Text) (has_transport : Bool) (peer : Text) (peers : Peers) (f : Fabric)
    (ready : AllReady node peers) where
  -- The connection and the fabric that `EnsurePeer` gives.
  abbrev connection : Connection
  connection = (Peer.ensure_peer node has_transport peer peers f).0

  abbrev prepared : Fabric
  prepared = (Peer.ensure_peer node has_transport peer peers f).2

  -- What is sent through them to a peer whose mailbox is empty is what the peer receives next, and
  -- its payload is in the buffers that the sender left.
  pub ensured-received :
      (m : Message) (cq : CompletionQueue) (heap : Heap)
      → mailbox f.transport peer ≡ []
      → (receive_through peer
          (send_through connection.queue_pair m cq (record prepared { heap = heap })).1).1
        ≡ some (address connection.queue_pair m)
  ensured-received m cq heap empty =
      let e = ensure_peer-Ensured node has_transport peer peers f ready in
      receive_through-send_through connection.queue_pair m cq (record prepared { heap = heap }) peer
        e.leads.ready (ap (λ c. c.remote_node) e.leads.config) (e.mailboxes peer ∙ empty)

submit_to-poll_task :
    (peer : Text) (task : TaskMessage) (a b : WorkerSession) (f : Fabric)
    → b.has_transport ≡ true
    → AllReady a.config.node_id a.peers
    → b.config.node_id ≡ peer
    → mailbox f.transport peer ≡ []
    → (poll_task b (submit_to peer task a f).1).2 ≡ some (deserialize (serialize task))
unfolding submit_to ensure_peer
submit_to-poll_task peer task a b f up ready named empty =
    let g = (Peer.ensure_peer a.config.node_id a.has_transport peer a.peers f).2 in
    let qp = (Peer.ensure_peer a.config.node_id a.has_transport peer a.peers f).0.queue_pair in
    let stored = register-load (serialize task) a.registry g.heap in
    let m =
      task_message a.config.node_id peer task
        (register (serialize task) a.registry g.heap).0.storage a.next_work_request_id in
    let received =
      ensured-received a.config.node_id a.has_transport peer a.peers f ready m a.completions
        (register (serialize task) a.registry g.heap).2 empty in
    poll_task-received b (submit_to peer task a f).1 (address qp m) up (rw named received)
      (unfold address send_through in stored)

-- A task that one session submits is the next one that its target polls, unchanged, when both have
-- the transport, the target's mailbox is empty and the task can be written; a task without a target
-- goes to the session's own node.
pub poll_task-submit :
    (task : TaskMessage) (a b : WorkerSession) (f : Fabric)
    → a.has_transport ≡ true
    → b.has_transport ≡ true
    → AllReady a.config.node_id a.peers
    → b.config.node_id ≡ target task.target_node a
    → mailbox f.transport (target task.target_node a) ≡ []
    → IsPlain task
    → IsBytes (to_text task)
    → (poll_task b (submit task a f).1).2 ≡ some task
unfolding submit
poll_task-submit task a b f up up' ready named empty plain bytes =
    ap (λ (r : WorkerSession × Fabric × SubmissionResult). (poll_task b r.1).2)
      (if_not-true a.has_transport _ _ up)
    ∙ submit_to-poll_task (target task.target_node a) task a b f up' ready named empty
    ∙ ap some (deserialize-serialize task plain bytes)
