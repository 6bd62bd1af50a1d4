-- ===== src/Examples/PingPong/Phases.antt =====
-- Where the two loops of the example stand together.
use rdma_ai_platform.Common.{
  ◌≡◌, refl, sym, subst, ◌⊎◌, ◌≤◌, ◌<◌, true, false, some, [], ℕ, suc, Option,
}
use rdma_ai_platform.Examples.PingPong.{
  Game, ClientPlace, ServerPlace, asks, awaits, client_ended, listens, answers, server_ended,
  client_name, server_name, is_quiet, client_step, server_step,
}
use rdma_ai_platform.Rdma.Fabric.{Fabric}
use rdma_ai_platform.Rdma.Peers.Ready.{AllReady}
use rdma_ai_platform.Rdma.RdmaClient.{RdmaClient, poll_result}
use rdma_ai_platform.Rdma.RdmaServer.Exchange.{IsConnected}
use rdma_ai_platform.Rdma.RdmaServer.{RdmaServer, poll_task}
use rdma_ai_platform.Rdma.ResultMessage.{ResultMessage}
use rdma_ai_platform.Rdma.TaskMessage.{TaskMessage}
use rdma_ai_platform.Rdma.TransportRdma.Mailbox.{mailbox}
use rdma_ai_platform.Text.{text_eq}

-- The two ends, connected, with no message on its way and `i` requests made.
pub record Calm (i : ℕ) (client : RdmaClient) (server : RdmaServer) (f : Fabric) : Type 0 where
  pub connected : IsConnected client
  pub client_named : client.config.node_id ≡ client_name
  pub server_named : server.config.node_id ≡ server_name
  pub leads : client.config.server_node ≡ server_name
  pub transport : server.has_transport ≡ true
  pub ready : AllReady server.config.node_id server.peers
  pub to_client : mailbox f.transport client_name ≡ []
  pub to_server : mailbox f.transport server_name ≡ []
  pub next : client.next_work_request_id ≡ suc i

-- The server waits for the task of round `i`, or has ended behind the last round.
abbrev pub IsReady : ℕ → ℕ → ServerPlace → Type 0
IsReady n i place = (place ≡ listens i) ⊎ ((i ≡ n) × (place ≡ server_ended))

-- The client is about to send its task.
pub record Asking (n i : ℕ) (g : Game) : Type 0 where
  pub client : g.client_at ≡ asks i
  pub server : IsReady n i g.server_at
  pub calm : Calm i g.pair.client g.pair.server g.pair.fabric
  pub received : g.received ≡ i
  pub within : i ≤ n

-- The task waits for the server.
pub record Sent (n i : ℕ) (g : Game) : Type 0 where
  pub client : g.client_at ≡ awaits i
  pub server : g.server_at ≡ listens i
  pub quiet : is_quiet g.pair.client.config.node_id g.pair.fabric ≡ true
  pub mail : is_quiet g.pair.server.config.node_id g.pair.fabric ≡ false
  pub task : TaskMessage
  pub after : Fabric
  pub read : poll_task g.pair.server g.pair.fabric ≡ (g.pair.server, after, some task)
  pub calm : Calm (suc i) g.pair.client g.pair.server after
  pub received : g.received ≡ i
  pub within : i < n

-- The server has the task.
pub record Serving (n i : ℕ) (g : Game) : Type 0 where
  pub client : g.client_at ≡ awaits i
  pub task : TaskMessage
  pub server : g.server_at ≡ answers i task
  pub calm : Calm (suc i) g.pair.client g.pair.server g.pair.fabric
  pub received : g.received ≡ i
  pub within : i < n

-- The result waits for the client.
pub record Replied (n i : ℕ) (g : Game) : Type 0 where
  pub client : g.client_at ≡ awaits i
  pub server : IsReady n (suc i) g.server_at
  pub quiet : is_quiet g.pair.server.config.node_id g.pair.fabric ≡ true
  pub mail : is_quiet g.pair.client.config.node_id g.pair.fabric ≡ false
  pub result : ResultMessage
  pub after : Fabric
  pub read : poll_result g.pair.client g.pair.fabric ≡ (g.pair.client, after, some result)
  pub calm : Calm (suc i) g.pair.client g.pair.server after
  pub received : g.received ≡ i
  pub within : i < n

-- The client's loop is over, with a result for each round.
pub record Over (n : ℕ) (g : Game) : Type 0 where
  pub client : g.client_at ≡ client_ended
  pub server : IsReady n n g.server_at
  pub received : g.received ≡ n

pub named_apart :
    (text_eq client_name server_name ≡ false) × (text_eq server_name client_name ≡ false)
unfolding text_eq
named_apart = (refl, refl)

-- The places of a step's result, at which the step is looked up.
pub at_client :
    (P : Game → Type 0) (n : ℕ) (g : Game) (place : ClientPlace)
    → g.client_at ≡ place
    → P (client_step n false place g)
    → P (client_step n false g.client_at g)
at_client P n g place e h = subst (λ a. P (client_step n false a g)) (sym e) h

pub at_server :
    (P : Game → Type 0) (n : ℕ) (g : Game) (place : ServerPlace)
    → g.server_at ≡ place
    → P (server_step n false place g)
    → P (server_step n false g.server_at g)
at_server P n g place e h = subst (λ a. P (server_step n false a g)) (sym e) h

pub polled_task :
    (polled : RdmaServer × Fabric × Option TaskMessage) (s : RdmaServer) (task : TaskMessage)
    → polled.0 ≡ s
    → polled.2 ≡ some task
    → polled ≡ (s, polled.1, some task)
polled_task polled s task e o = λ j. (e j, polled.1, o j)

pub polled_result :
    (polled : RdmaClient × Fabric × Option ResultMessage) (c : RdmaClient) (r : ResultMessage)
    → polled.0 ≡ c
    → polled.2 ≡ some r
    → polled ≡ (c, polled.1, some r)
polled_result polled c r e o = λ j. (e j, polled.1, o j)
