-- ===== src/Examples/PingPong/Turns.antt =====
-- From one phase of the example to the next.
use rdma_ai_platform.Common.{
  ◌≡◌, refl, ap, sym, ◌∙◌, subst, inl, inr, ◌<◌, ◌+◌, ◌^◌, not, ◌&&◌, true, false, [], ℕ, suc,
  arith, if_true, if_false, lt→ltb, ltb, ◌==◌,
}
use rdma_ai_platform.Examples.PingPong.Mail.{is_quiet-nil, is_quiet-poll_task, mailbox-poll_task}
use rdma_ai_platform.Examples.PingPong.{
  Game, ServerPlace, asks, awaits, listens, client_name, server_name, ping, is_quiet, asked, got,
  client_step,
}
use rdma_ai_platform.Rdma.Fabric.{Fabric}
use rdma_ai_platform.Rdma.RdmaClient.{RdmaClient, submit_task}
use rdma_ai_platform.Rdma.RdmaServer.Round.{submit_task-TaskSent}
use rdma_ai_platform.Rdma.RdmaServer.{RdmaServer, poll_task}
use rdma_ai_platform.Rdma.TransportRdma.Mailbox.{mailbox}
use rdma_ai_platform.Text.{text_eq}
use rdma_ai_platform.Examples.PingPong.Phases.{
  Calm, IsReady, Asking, Sent, Serving, Replied, Over, named_apart, at_client, polled_task,
}

still_listens : (n i : ℕ) (place : ServerPlace) → i < n → IsReady n i place → place ≡ listens i
still_listens n i place less (inl e) = e
still_listens n i place less (inr (last, e)) = absurd (omega arith)

-- The client and the server apart.
server_not_client :
    (i : ℕ) (c : RdmaClient) (s : RdmaServer) (f : Fabric)
    → Calm i c s f
    → text_eq s.config.node_id client_name ≡ false
server_not_client i c s f v = ap (λ k. text_eq k client_name) v.server_named ∙ named_apart.1

asked-Sent :
    (n i : ℕ) (g : Game)
    → n + 1 < 2 ^ 64
    → i < n
    → Asking n i g
    → Sent n i (asked i (submit_task (ping i) g.pair.client g.pair.fabric) g)
unfolding asked
asked-Sent n i g room less v =
    let s = g.pair.server in
    let f = g.pair.fabric in
    let named = v.calm.server_named ∙ sym v.calm.leads in
    let empty = ap (mailbox f.transport) v.calm.leads ∙ v.calm.to_server in
    let t =
      submit_task-TaskSent (ping i) g.pair.client s f v.calm.connected v.calm.transport named
        empty in
    let (c', f', id) = submit_task (ping i) g.pair.client f in
    let client_named = ap (λ c. c.node_id) t.config ∙ v.calm.client_named in
    let nonzero : (id == 0) ≡ false = ground (arith, t.id, v.calm.next) in
    let to_client : mailbox f'.transport client_name ≡ [] =
      sym (mailbox-poll_task s f' client_name v.calm.transport (server_not_client i _ s f v.calm))
      ∙ t.quiet client_name v.calm.to_client in
    record {
      client = if_false _ _ _ nonzero;
      server = still_listens n i g.server_at less v.server;
      quiet = ap (λ k. is_quiet k f') client_named ∙ is_quiet-nil client_name f' to_client;
      mail = is_quiet-poll_task s f' _ t.read;
      task = _;
      after = (poll_task s f').1;
      read = polled_task (poll_task s f') s _ t.server t.read;
      calm = record {
        connected = t.connected;
        client_named = client_named;
        server_named = v.calm.server_named;
        leads = ap (λ c. c.server_node) t.config ∙ v.calm.leads;
        transport = v.calm.transport;
        ready = v.calm.ready;
        to_client = t.quiet client_name v.calm.to_client;
        to_server = t.quiet server_name v.calm.to_server;
        next = omega (arith, t.next, v.calm.next);
      };
      received = v.received;
      within = less;
    }

-- The client sends the task of a round, or is done.
pub Asking-Sent :
    (n i : ℕ) (g : Game)
    → n + 1 < 2 ^ 64
    → i < n
    → Asking n i g
    → Sent n i (client_step n false g.client_at g)
unfolding client_step
Asking-Sent n i g room less v =
    at_client (Sent n i) n g (asks i) v.client
      (subst (Sent n i) (sym (if_true _ _ _ (lt→ltb i n less))) (asked-Sent n i g room less v))

pub Asking-Over : (n : ℕ) (g : Game) → Asking n n g → Over n (client_step n false g.client_at g)
unfolding client_step
Asking-Over n g v =
    let done : ltb n n ≡ false = ground arith in
    at_client (Over n) n g (asks n) v.client (
      subst (Over n) (sym (if_false _ _ _ done))
        (record { client = refl; server = v.server; received = v.received }))

-- A client that finds nothing waits on.
waits_on :
    (n i : ℕ) (g : Game)
    → g.client_at ≡ awaits i
    → is_quiet g.pair.client.config.node_id g.pair.fabric ≡ true
    → client_step n false g.client_at g ≡ g
unfolding client_step
waits_on n i g e quiet =
    let on : (is_quiet g.pair.client.config.node_id g.pair.fabric && not false) ≡ true =
      ground (arith, quiet) in
    ap (λ a. client_step n false a g) e ∙ if_true _ _ _ on

pub Sent-waits : (n i : ℕ) (g : Game) → Sent n i g → client_step n false g.client_at g ≡ g
Sent-waits n i g v = waits_on n i g v.client v.quiet

pub Serving-waits : (n i : ℕ) (g : Game) → Serving n i g → client_step n false g.client_at g ≡ g
Serving-waits n i g v = waits_on n i g v.client (
    ap (λ k. is_quiet k g.pair.fabric) v.calm.client_named
    ∙ is_quiet-nil client_name g.pair.fabric v.calm.to_client)

pub Over-ends : (n : ℕ) (g : Game) → Over n g → client_step n false g.client_at g ≡ g
unfolding client_step
Over-ends n g v = ap (λ a. client_step n false a g) v.client

-- The client takes its result.
pub Replied-Asking :
    (n i : ℕ) (g : Game) → Replied n i g → Asking n (suc i) (client_step n false g.client_at g)
unfolding client_step got
Replied-Asking n i g v =
    let goes : (is_quiet g.pair.client.config.node_id g.pair.fabric && not false) ≡ false =
      ground (arith, v.mail) in
    at_client (Asking n (suc i)) n g (awaits i) v.client (
      subst (Asking n (suc i)) (sym (if_false _ _ _ goes ∙ ap (λ p. got i p g) v.read)) (record {
        client = ap asks (omega arith);
        server = v.server;
        calm = v.calm;
        received = omega (arith, v.received);
        within = omega (arith, v.within);
      }))
