-- ===== src/Rdma/RdmaServer/Round.antt =====
-- What a task sent to the server and read, and a result sent back and read, leave behind.
use rdma_ai_platform.Common.{
  if_not-true, sym, subst, Bool, not, ◌||◌, if_false, ◌+◌, ◌%◌, ◌^◌, ◌≡◌, refl, ap, ◌∙◌, true, some,
  [], arith,
}
use rdma_ai_platform.Rdma.Fabric.Exchange.{mailbox-receive_through_sent}
use rdma_ai_platform.Rdma.Fabric.{Fabric, receive_through}
use rdma_ai_platform.Rdma.Heap.{alloc}
use rdma_ai_platform.Rdma.MemoryRegion.{register}
use rdma_ai_platform.Rdma.Peers.Ready.{AllReady, ensure_peer-Ensured}
use rdma_ai_platform.Rdma.Peers as Peer
use rdma_ai_platform.Rdma.RdmaClient.{RdmaClient, submit_task, post_task, poll_result, task_message}
use rdma_ai_platform.Rdma.RdmaServer.Exchange.{
  IsConnected, post_task-poll_task, post_result-poll_result,
}
use rdma_ai_platform.Rdma.RdmaServer.{
  RdmaServer, ensure_peer, poll_task, send_result, post_result, result_message,
}
use rdma_ai_platform.Rdma.ResultMessage as Result
use rdma_ai_platform.Rdma.ResultMessage.{ResultMessage}
use rdma_ai_platform.Rdma.TaskMessage.{TaskMessage, serialize, deserialize}
use rdma_ai_platform.Rdma.TransportRdma.Mailbox.{mailbox}
use rdma_ai_platform.Rdma.Types.{WorkRequestId}
use rdma_ai_platform.Text.{Text}

-- What a call of `SubmitTask` and the server's poll behind it leave: the client stays connected and
-- counts its requests, the server stays as it is and has the task, and mailboxes that were empty
-- are empty.
pub record TaskSent (task : TaskMessage) (c : RdmaClient) (s : RdmaServer) (f : Fabric)
    (sent : RdmaClient × Fabric × WorkRequestId) : Type 0 where
  pub connected : IsConnected sent.0
  pub config : sent.0.config ≡ c.config
  pub next : sent.0.next_work_request_id ≡ (c.next_work_request_id + 1) % 2 ^ 64
  pub id : sent.2 ≡ c.next_work_request_id
  pub server : (poll_task s sent.1).0 ≡ s
  pub read : (poll_task s sent.1).2 ≡ some (deserialize (serialize task))
  pub quiet :
      (j : Text) → mailbox f.transport j ≡ [] → mailbox (poll_task s sent.1).1.transport j ≡ []

post_task-IsConnected :
    (task : TaskMessage) (c : RdmaClient) (f : Fabric)
    → IsConnected c
    → IsConnected (post_task task c f).0
unfolding post_task
post_task-IsConnected task c f v = record {
  transport = v.transport;
  established = v.established;
  leads = record { ready = v.leads.ready; config = v.leads.config };
}

submit_task-post_task :
    (task : TaskMessage) (c : RdmaClient) (f : Fabric)
    → IsConnected c
    → submit_task task c f ≡ post_task task c f
unfolding submit_task
submit_task-post_task task c f v =
    if_false (not c.connection.established || not c.has_transport) _ _
      (ground (arith, v.established, v.transport))

pub poll_task-through :
    (s : RdmaServer) (f : Fabric)
    → s.has_transport ≡ true
    → ((poll_task s f).0 ≡ s) × ((poll_task s f).1 ≡ (receive_through s.config.node_id f).0)
unfolding poll_task
poll_task-through s f up = ground (arith, up)

post_task-quiet :
    (task : TaskMessage) (c : RdmaClient) (s : RdmaServer) (f : Fabric) (j : Text)
    → IsConnected c
    → s.has_transport ≡ true
    → s.config.node_id ≡ c.config.server_node
    → mailbox f.transport c.config.server_node ≡ []
    → mailbox f.transport j ≡ []
    → mailbox (poll_task s (post_task task c f).1).1.transport j ≡ []
unfolding post_task
post_task-quiet task c s f j v up named empty quiet =
    let heap = (register (serialize task) c.registry f.heap).2 in
    let m = task_message c task c.next_work_request_id f in
    ap (λ g. mailbox g.transport j) ((poll_task-through s (post_task task c f).1 up).1)
    ∙ ap (λ n. mailbox (receive_through n (post_task task c f).1).0.transport j) named
    ∙ mailbox-receive_through_sent c.connection.queue_pair m c.completions
        (record f { heap = heap }) c.config.server_node j v.leads.ready
        (ap (λ k. k.remote_node) v.leads.config) empty quiet

-- A task to the server whose mailbox is empty.
pub submit_task-TaskSent :
    (task : TaskMessage) (c : RdmaClient) (s : RdmaServer) (f : Fabric)
    → IsConnected c
    → s.has_transport ≡ true
    → s.config.node_id ≡ c.config.server_node
    → mailbox f.transport c.config.server_node ≡ []
    → TaskSent task c s f (submit_task task c f)
submit_task-TaskSent task c s f v up named empty =
    subst (TaskSent task c s f) (sym (submit_task-post_task task c f v)) (record {
      connected = post_task-IsConnected task c f v;
      config = unfold post_task in refl;
      next = unfold post_task in refl;
      id = unfold post_task in refl;
      server = (poll_task-through s (post_task task c f).1 up).0;
      read = post_task-poll_task task c s f v up named empty;
      quiet = λ j quiet. post_task-quiet task c s f j v up named empty quiet;
    })

-- The same of `SendResult` and the client's poll behind it.
pub record ResultSent (r : ResultMessage) (c : RdmaClient) (s : RdmaServer) (f : Fabric)
    (sent : RdmaServer × Fabric × Bool) : Type 0 where
  pub all_ready : AllReady s.config.node_id sent.0.peers
  pub config : sent.0.config ≡ s.config
  pub transport : sent.0.has_transport ≡ s.has_transport
  pub client : (poll_result c sent.1).0 ≡ c
  pub read : (poll_result c sent.1).2 ≡ some (Result.deserialize (Result.serialize r))
  pub quiet :
      (j : Text) → mailbox f.transport j ≡ [] → mailbox (poll_result c sent.1).1.transport j ≡ []

pub poll_result-through :
    (c : RdmaClient) (f : Fabric)
    → c.has_transport ≡ true
    → ((poll_result c f).0 ≡ c) × ((poll_result c f).1 ≡ (receive_through c.config.node_id f).0)
unfolding poll_result
poll_result-through c f up = ground (arith, up)

post_result-quiet :
    (client : Text) (r : ResultMessage) (c : RdmaClient) (s : RdmaServer) (f : Fabric) (j : Text)
    → AllReady s.config.node_id s.peers
    → c.has_transport ≡ true
    → c.config.node_id ≡ client
    → mailbox f.transport client ≡ []
    → mailbox f.transport j ≡ []
    → mailbox (poll_result c (post_result client r s f).1).1.transport j ≡ []
unfolding post_result ensure_peer
post_result-quiet client r c s f j ready up named empty quiet =
    let e = ensure_peer-Ensured s.config.node_id s.has_transport client s.peers f ready in
    let (connection, peers, g) =
      Peer.ensure_peer s.config.node_id s.has_transport client s.peers f in
    let m = result_message s.config.node_id client r (alloc (Result.serialize r) g.heap).1 in
    ap (λ g. mailbox g.transport j) ((poll_result-through c (post_result client r s f).1 up).1)
    ∙ ap (λ n. mailbox (receive_through n (post_result client r s f).1).0.transport j) named
    ∙ mailbox-receive_through_sent connection.queue_pair m s.completions
        (record g { heap = (alloc (Result.serialize r) g.heap).0 }) client j e.leads.ready
        (ap (λ k. k.remote_node) e.leads.config) (e.mailboxes client ∙ empty)
        (e.mailboxes j ∙ quiet)

post_result-AllReady :
    (client : Text) (r : ResultMessage) (s : RdmaServer) (f : Fabric)
    → AllReady s.config.node_id s.peers
    → AllReady s.config.node_id (post_result client r s f).0.peers
unfolding post_result ensure_peer
post_result-AllReady client r s f ready =
    (ensure_peer-Ensured s.config.node_id s.has_transport client s.peers f ready).all_ready

-- A result to a client whose mailbox is empty.
pub send_result-ResultSent :
    (client : Text) (r : ResultMessage) (c : RdmaClient) (s : RdmaServer) (f : Fabric)
    → AllReady s.config.node_id s.peers
    → s.has_transport ≡ true
    → c.has_transport ≡ true
    → c.config.node_id ≡ client
    → mailbox f.transport client ≡ []
    → ResultSent r c s f (send_result client r s f)
unfolding send_result
send_result-ResultSent client r c s f ready up up' named empty =
    subst (ResultSent r c s f) (sym (if_not-true s.has_transport _ _ up)) (record {
      all_ready = post_result-AllReady client r s f ready;
      config = unfold post_result ensure_peer in refl;
      transport = unfold post_result ensure_peer in refl;
      client = (poll_result-through c (post_result client r s f).1 up').0;
      read = post_result-poll_result client r s c f ready up' named empty;
      quiet = λ j quiet. post_result-quiet client r c s f j ready up' named empty quiet;
    })
