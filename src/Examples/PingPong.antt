-- ===== src/Examples/PingPong.antt =====
-- rdma/examples/pingpong.cpp: the client's loop in the main thread and the server's in its own, as
-- steps of a schedule. A poll is the step at which its wait ends: with a message, or, where none is
-- there, by its time limit. The times that the program measures and its output are not modelled.
pub mod Mail
pub mod Phases
pub mod Turns
pub mod Answers
pub mod Setup
pub mod Rounds
use rdma_ai_platform.Common.{
  ltb, ◌&&◌, List, ℕ, zero, suc, ◌+◌, Bool, true, false, not, ◌||◌, Option, none, some, [], ◌∷◌,
  ◌++◌, ◌==◌, if◌then◌else◌,
}
use rdma_ai_platform.OrderedMap.{OrderedMap}
use rdma_ai_platform.Rdma.Config.{default_rdma_config}
use rdma_ai_platform.Rdma.Fabric.{Fabric}
use rdma_ai_platform.Rdma.RdmaClient as Client
use rdma_ai_platform.Rdma.RdmaClient.{RdmaClient, submit_task, poll_result, connect}
use rdma_ai_platform.Rdma.RdmaServer as Server
use rdma_ai_platform.Rdma.RdmaServer.{RdmaServer, poll_task, send_result, accept}
use rdma_ai_platform.Rdma.ResultMessage.{ResultMessage}
use rdma_ai_platform.Rdma.TaskMessage.{TaskMessage}
use rdma_ai_platform.Rdma.TransportRdma as Transport
use rdma_ai_platform.Rdma.Types.{TimePoint, WorkRequestId}
use rdma_ai_platform.Rdma.TransportRdma.Mailbox.{mailbox}
use rdma_ai_platform.Text.Decimal.{to_string}
use rdma_ai_platform.Text.{Text, codes}

-- The two ends and what they share.
pub record Pingpong : Type 0 where
  pub client : RdmaClient
  pub server : RdmaServer
  pub fabric : Fabric

abbrev client_name : Text
client_name = codes "pingpong-client"

abbrev server_name : Text
server_name = codes "pingpong-server"

-- The objects that `main` makes, at the time `now`.
unfoldable pub set_up : TimePoint → Pingpong
set_up now = record {
  client = Client.make (record { node_id = client_name; server_node = server_name }) true;
  server = Server.make (record { node_id = server_name; listen_address = codes "loopback" }) true;
  fabric = record {
    transport = Transport.make default_rdma_config.transport;
    heap = [];
    channels = [];
    now = now;
  };
}

-- `{{"round", std::to_string(i + 1)}}`.
unfoldable pub round_entry : ℕ → OrderedMap
round_entry i = (codes "round", to_string (i + 1)) ∷ []

unfoldable pub ping : ℕ → TaskMessage
unfolding round_entry
ping i = record {
  task_id = codes "ping-" ++ to_string (i + 1);
  kind = codes "pingpong";
  source_node = client_name;
  target_node = server_name;
  description = codes "ping";
  metadata = round_entry i;
}

unfoldable pub pong : ℕ → TaskMessage → RdmaServer → ResultMessage
unfolding round_entry
pong i task server = record {
  task_id = task.task_id;
  worker_node = server.config.node_id;
  target_node = client_name;
  success = true;
  detail = codes "pong";
  metadata = round_entry i;
}

-- `has_value`.
abbrev pub has_value {ℓ} : {A : Type ℓ} → Option A → Bool
has_value none = false
has_value (some x) = true

-- Where the client's loop stands: before the test of round `i`, in the wait of its poll, or behind
-- the end.
pub data ClientPlace : Type 0 where
  asks awaits : ℕ → ClientPlace
  client_ended : ClientPlace

-- Where the server's loop stands: before the test of round `i` or in the wait behind it, with the
-- task of the round, or behind the end.
pub data ServerPlace : Type 0 where
  listens : ℕ → ServerPlace
  answers : ℕ → TaskMessage → ServerPlace
  server_ended : ServerPlace

pub record Game : Type 0 where
  pub pair : Pingpong
  pub client_at : ClientPlace
  pub server_at : ServerPlace
  pub received : ℕ

abbrev pub is_nil {ℓ} : {A : Type ℓ} → List A → Bool
is_nil [] = true
is_nil (x ∷ xs) = false

-- Whether a wait for a message finds none.
unfoldable pub is_quiet : Text → Fabric → Bool
unfolding mailbox
is_quiet node f = is_nil (mailbox f.transport node)

-- `SubmitTask` has returned.
unfoldable pub asked : ℕ → RdmaClient × Fabric × WorkRequestId → Game → Game
asked i (client, f, id) g = record g {
  pair = record g.pair { client = client; fabric = f };
  client_at = if id == 0 then client_ended else awaits i;
}

-- `PollResult` has returned: with a result the loop goes on.
unfoldable pub got : ℕ → RdmaClient × Fabric × Option ResultMessage → Game → Game
got i (client, f, none) g = record g {
  pair = record g.pair { client = client; fabric = f };
  client_at = client_ended;
}
got i (client, f, some _) g = record g {
  pair = record g.pair { client = client; fabric = f };
  client_at = asks (i + 1);
  received = g.received + 1;
}

-- The next step of the client, with `n` rounds; the flag tells that its time limit is reached.
unfoldable pub client_step : ℕ → Bool → ClientPlace → Game → Game
unfolding ping is_quiet asked got
client_step n late (asks i) g =
    if ltb i n
    then asked i (submit_task (ping i) g.pair.client g.pair.fabric) g
    else record g { client_at = client_ended }
client_step n late (awaits i) g =
    if is_quiet g.pair.client.config.node_id g.pair.fabric && not late
    then g
    else got i (poll_result g.pair.client g.pair.fabric) g
client_step n late client_ended g = g

-- `PollTask` has returned.
unfoldable pub heard : ℕ → RdmaServer × Fabric × Option TaskMessage → Game → Game
heard i (server, f, none) g = record g {
  pair = record g.pair { server = server; fabric = f };
  server_at = server_ended;
}
heard i (server, f, some task) g = record g {
  pair = record g.pair { server = server; fabric = f };
  server_at = answers i task;
}

-- `SendResult` has returned.
unfoldable pub answered : ℕ → RdmaServer × Fabric × Bool → Game → Game
answered i (server, f, _) g = record g {
  pair = record g.pair { server = server; fabric = f };
  server_at = listens (i + 1);
}

unfoldable pub server_step : ℕ → Bool → ServerPlace → Game → Game
unfolding pong is_quiet heard answered
server_step n late (listens i) g =
    if not (ltb i n)
    then record g { server_at = server_ended }
    else if is_quiet g.pair.server.config.node_id g.pair.fabric && not late
    then g
    else heard i (poll_task g.pair.server g.pair.fabric) g
server_step n late (answers i task) g =
    answered i (send_result client_name (pong i task g.pair.server) g.pair.server g.pair.fabric) g
server_step n late server_ended g = g

-- A step of either thread, or one at which its wait has reached the time limit.
pub data Event : Type 0 where
  client_goes server_goes client_late server_late : Event

unfoldable pub step : ℕ → Event → Game → Game
unfolding client_step server_step
step n client_goes g = client_step n false g.client_at g
step n client_late g = client_step n true g.client_at g
step n server_goes g = server_step n false g.server_at g
step n server_late g = server_step n true g.server_at g

unfoldable pub run : ℕ → List Event → Game → Game
unfolding step
run n [] g = g
run n (e ∷ es) g = run n es (step n e g)

-- The game that starts when the pair is set up; nothing where that fails.
unfoldable pub set_off : TimePoint → Option Game
unfolding set_up
set_off now =
    let p = set_up now in
    let (server, f, accepted) = accept client_name p.server p.fabric in
    let (client, f', connected) = connect p.client f in
    if not accepted || not connected
    then none
    else some (record {
      pair = record { client = client; server = server; fabric = f' };
      client_at = asks 0;
      server_at = listens 0;
      received = 0;
    })

-- `main`, with `n` rounds under a schedule.
unfoldable pub play : ℕ → TimePoint → List Event → Option Game
unfolding set_off run
play n now es = elim (set_off now) [ none ↦ none | some g ↦ some (run n es g) ]

-- What `main` returns, once both loops are over.
unfoldable pub exit_code : ℕ → Option Game → ℕ
exit_code n none = 1
exit_code n (some g) = if g.received == n then 0 else 1
