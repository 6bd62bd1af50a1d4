-- ===== src/Rdma/RdmaServer/Exchange.antt =====
-- A task from a client to its server, and the result back.
use rdma_ai_platform.Common.{
  if_false, if_not-true, ◌≡◌, refl, ap, ◌∙◌, Bool, true, false, not, ◌||◌, Option, none, some, [],
  arith,
}
use rdma_ai_platform.Rdma.Fabric.Exchange.{receive_through-send_through, heap-receive_through}
use rdma_ai_platform.Rdma.Fabric.{Fabric, send_through, receive_through}
use rdma_ai_platform.Rdma.Heap.{load, load-alloc, alloc}
use rdma_ai_platform.Rdma.MemoryRegion.Registry.{register-load}
use rdma_ai_platform.Rdma.MemoryRegion.{register}
use rdma_ai_platform.Rdma.Peers as Peer
use rdma_ai_platform.Rdma.Peers.Ready.{AllReady, Leads, ensure_peer-Ensured}
use rdma_ai_platform.Rdma.RdmaClient.{
  RdmaClient, submit_task, post_task, poll_result, read_result, task_message,
}
use rdma_ai_platform.Rdma.RdmaServer.{
  RdmaServer, ensure_peer, poll_task, read_task, send_result, post_result, result_message,
}
use rdma_ai_platform.Rdma.ResultMessage as Result
use rdma_ai_platform.Rdma.ResultMessage.RoundTrip as ResultTrip
use rdma_ai_platform.Rdma.ResultMessage.{ResultMessage}
use rdma_ai_platform.Rdma.TaskMessage.RoundTrip.{IsPlain, deserialize-serialize}
use rdma_ai_platform.Rdma.TaskMessage.{TaskMessage, serialize, to_text, deserialize_at, deserialize}
use rdma_ai_platform.Rdma.TransportRdma.Mailbox.{mailbox}
use rdma_ai_platform.Rdma.TransportRdma.{Message, address}
use rdma_ai_platform.Rdma.Types.{IsBytes, ByteBufferPtr, ByteBuffer, WorkRequestId}
use rdma_ai_platform.Text.{Text}

read_task-payload :
    (m : Message) (f : Fabric) (p : ByteBufferPtr) {bytes : ByteBuffer}
    → m.payload ≡ p
    → load p f.heap ≡ some bytes
    → read_task (some m) f ≡ some (deserialize bytes)
unfolding read_task deserialize_at
read_task-payload m f none e l = unfold load in cc
read_task-payload m f (some i) e l = rw (e, read_task) (rw (l, deserialize_at) refl)

read_result-payload :
    (m : Message) (f : Fabric) (p : ByteBufferPtr) {bytes : ByteBuffer}
    → m.payload ≡ p
    → load p f.heap ≡ some bytes
    → read_result (some m) f ≡ some (Result.deserialize bytes)
unfolding read_result Result.deserialize_at
read_result-payload m f none e l = unfold load in cc
read_result-payload m f (some i) e l = rw (e, read_result) (rw (l, Result.deserialize_at) refl)

poll_task-received :
    (s : RdmaServer) (f : Fabric) (m : Message) {bytes : ByteBuffer}
    → s.has_transport ≡ true
    → (receive_through s.config.node_id f).1 ≡ some m
    → load m.payload f.heap ≡ some bytes
    → (poll_task s f).2 ≡ some (deserialize bytes)
unfolding poll_task
poll_task-received s f m up got l =
    ap (λ (r : RdmaServer × Fabric × Option TaskMessage). r.2) (if_not-true s.has_transport _ _ up)
    ∙ ap (λ o. read_task o (receive_through s.config.node_id f).0) got
    ∙ read_task-payload m (receive_through s.config.node_id f).0 m.payload refl
        (ap (load m.payload) (heap-receive_through s.config.node_id f) ∙ l)

poll_result-received :
    (c : RdmaClient) (f : Fabric) (m : Message) {bytes : ByteBuffer}
    → c.has_transport ≡ true
    → (receive_through c.config.node_id f).1 ≡ some m
    → load m.payload f.heap ≡ some bytes
    → (poll_result c f).2 ≡ some (Result.deserialize bytes)
unfolding poll_result
poll_result-received c f m up got l =
    ap (λ (r : RdmaClient × Fabric × Option ResultMessage). r.2)
      (if_not-true c.has_transport _ _ up)
    ∙ ap (λ o. read_result o (receive_through c.config.node_id f).0) got
    ∙ read_result-payload m (receive_through c.config.node_id f).0 m.payload refl
        (ap (load m.payload) (heap-receive_through c.config.node_id f) ∙ l)

-- A client that is connected to its server: through the transport, with its connection established
-- and leading to the server's node.
pub record IsConnected (c : RdmaClient) : Type 0 where
  pub transport : c.has_transport ≡ true
  pub established : c.connection.established ≡ true
  pub leads : Leads c.config.node_id c.config.server_node c.connection

pub post_task-poll_task :
    (task : TaskMessage) (c : RdmaClient) (s : RdmaServer) (f : Fabric)
    → IsConnected c
    → s.has_transport ≡ true
    → s.config.node_id ≡ c.config.server_node
    → mailbox f.transport c.config.server_node ≡ []
    → (poll_task s (post_task task c f).1).2 ≡ some (deserialize (serialize task))
unfolding post_task
post_task-poll_task task c s f v up named empty =
    let qp = c.connection.queue_pair in
    let m = task_message c task c.next_work_request_id f in
    let heap = (register (serialize task) c.registry f.heap).2 in
    let received =
      receive_through-send_through qp m c.completions (record f { heap = heap })
        c.config.server_node v.leads.ready (ap (λ k. k.remote_node) v.leads.config) empty in
    poll_task-received s (post_task task c f).1 (address qp m) up (rw named received)
      (unfold address send_through in register-load (serialize task) c.registry f.heap)

-- A task that a connected client submits is the next one that its server polls, unchanged, when the
-- server's mailbox is empty and the task can be written.
pub poll_task-submit_task :
    (task : TaskMessage) (c : RdmaClient) (s : RdmaServer) (f : Fabric)
    → IsConnected c
    → s.has_transport ≡ true
    → s.config.node_id ≡ c.config.server_node
    → mailbox f.transport c.config.server_node ≡ []
    → IsPlain task
    → IsBytes (to_text task)
    → (poll_task s (submit_task task c f).1).2 ≡ some task
unfolding submit_task
poll_task-submit_task task c s f v up named empty plain bytes =
    ap (λ (r : RdmaClient × Fabric × WorkRequestId). (poll_task s r.1).2)
      (if_false (not c.connection.established || not c.has_transport) _ _ open_way)
    ∙ post_task-poll_task task c s f v up named empty
    ∙ ap some (deserialize-serialize task plain bytes)
  where
    open_way : (not c.connection.established || not c.has_transport) ≡ false
    open_way = ground (arith, v.established, v.transport)

pub post_result-poll_result :
    (client : Text) (r : ResultMessage) (s : RdmaServer) (c : RdmaClient) (f : Fabric)
    → AllReady s.config.node_id s.peers
    → c.has_transport ≡ true
    → c.config.node_id ≡ client
    → mailbox f.transport client ≡ []
    → (poll_result c (post_result client r s f).1).2
      ≡ some (Result.deserialize (Result.serialize r))
unfolding post_result ensure_peer
post_result-poll_result client r s c f ready up named empty =
    let e = ensure_peer-Ensured s.config.node_id s.has_transport client s.peers f ready in
    let (connection, peers, g) =
      Peer.ensure_peer s.config.node_id s.has_transport client s.peers f in
    let stored = load-alloc (Result.serialize r) g.heap in
    let m = result_message s.config.node_id client r (alloc (Result.serialize r) g.heap).1 in
    let received =
      receive_through-send_through connection.queue_pair m s.completions
        (record g { heap = (alloc (Result.serialize r) g.heap).0 }) client e.leads.ready
        (ap (λ k. k.remote_node) e.leads.config) (e.mailboxes client ∙ empty) in
    poll_result-received c (post_result client r s f).1 (address connection.queue_pair m) up
      (rw named received) (unfold address send_through in stored)

-- A result that a server sends to a client is the next one that the client polls, unchanged, when
-- both have the transport, the client's mailbox is empty and the result can be written.
pub poll_result-send_result :
    (client : Text) (r : ResultMessage) (s : RdmaServer) (c : RdmaClient) (f : Fabric)
    → AllReady s.config.node_id s.peers
    → s.has_transport ≡ true
    → c.has_transport ≡ true
    → c.config.node_id ≡ client
    → mailbox f.transport client ≡ []
    → ResultTrip.IsPlain r
    → IsBytes (Result.to_text r)
    → (poll_result c (send_result client r s f).1).2 ≡ some r
unfolding send_result
poll_result-send_result client r s c f ready up up' named empty plain bytes =
    ap (λ (t : RdmaServer × Fabric × Bool). (poll_result c t.1).2)
      (if_not-true s.has_transport _ _ up)
    ∙ post_result-poll_result client r s c f ready up' named empty
    ∙ ap some (ResultTrip.deserialize-serialize_result r plain bytes)
