-- ===== src/Worker/TcpTransport.antt =====
-- worker/src/transport_tcp.cpp: the task server. What `recv` and the system calls of `start`
-- return is given; a stalled `recv` is a list of answers that ends.
pub mod Framing
pub mod Lifecycle
use rdma_ai_platform.Common.{
  Bool, true, false, not, ◌&&◌, Option, none, some, List, [], ◌∷◌, ◌++◌, ◌==◌, if◌then◌else◌, ℕ,
}
use rdma_ai_platform.Text.{Text, is_empty, split_at}
use rdma_ai_platform.Worker.Task.{Task}

-- An answer of `recv`: bytes, the end of the stream, EINTR, the time limit (EAGAIN or EWOULDBLOCK)
-- with the value of `running_` read behind it, or another error.
pub data Recv : Type 0 where
  bytes : Text → Recv
  closed interrupted failed : Recv
  timed_out : Bool → Recv

-- How the receive loop ends: by `break` with the payload, by `return`, or not yet.
pub data Received : Type 0 where
  payload : Text → Received
  gave_up waiting : Received

-- The loop of `handleClient` with the payload so far.
unfoldable pub recv_loop : List Recv → Text → Received
recv_loop [] p = waiting
recv_loop (bytes chunk ∷ rs) p =
    let more = recv_loop rs (p ++ chunk) in
    elim (split_at b'\n' (p ++ chunk)) [ none ↦ more | some (line, _) ↦ payload line ]
recv_loop (closed ∷ rs) p = payload p
recv_loop (interrupted ∷ rs) p = recv_loop rs p
recv_loop (failed ∷ rs) p = gave_up
recv_loop (timed_out true ∷ rs) p = recv_loop rs p
recv_loop (timed_out false ∷ rs) p = gave_up

-- `if (!payload.empty() && payload.back() == '\r') payload.pop_back();`
unfoldable pub strip_return : Text → Text
strip_return [] = []
strip_return (c ∷ []) = if c == b'\r' then [] else c ∷ []
strip_return (c ∷ d ∷ cs) = c ∷ strip_return (d ∷ cs)

-- The task in a payload, or nothing for the early returns: an empty payload, no separator, an empty
-- identifier.
unfoldable pub parse_task : Text → Option Task
parse_task p = if is_empty p then none else elim (split_at b'|' p) [
  | none ↦ none
  | some (id, prompt) ↦ if is_empty id then none else some (record { id = id; prompt = prompt })
]

-- The part of `handleClient` behind the loop: the task that the handler is called with.
unfoldable pub dispatch : Received → Option Task
unfolding parse_task strip_return
dispatch (payload p) = parse_task (strip_return p)
dispatch gave_up = none
dispatch waiting = none

unfoldable pub handle_client : List Recv → Option Task
unfolding dispatch
handle_client rs = dispatch (recv_loop rs [])

-- A round of `acceptLoop`: it sees that the transport is stopped, serves a connection with the
-- answers of its `recv`, or finds that `accept` failed, with the value of `running_` read behind
-- it.
pub data Round : Type 0 where
  halts : Round
  serves : List Recv → Round
  fails : Bool → Round

abbrev pub with_task : Option Task → List Task → List Task
with_task none tasks = tasks
with_task (some task) tasks = task ∷ tasks

-- `acceptLoop`: the tasks that the handler is called with, in order.
unfoldable pub accept_loop : List Round → List Task
unfolding handle_client
accept_loop [] = []
accept_loop (halts ∷ rounds) = []
accept_loop (serves answers ∷ rounds) = with_task (handle_client answers) (accept_loop rounds)
accept_loop (fails true ∷ rounds) = accept_loop rounds
accept_loop (fails false ∷ rounds) = []

pub record TcpTransport : Type 0 where
  pub listen_open : Bool
  pub running : Bool
  pub has_thread : Bool

unfoldable pub new_transport : TcpTransport
new_transport = record { listen_open = false; running = false; has_thread = false }

-- What the four system calls of `start` return: whether each of them succeeds.
pub record Calls : Type 0 where
  pub socket_ok : Bool
  pub setsockopt_ok : Bool
  pub bind_ok : Bool
  pub listen_ok : Bool

-- `closeListenSocket`.
unfoldable pub close_listen_socket : TcpTransport → TcpTransport
close_listen_socket t = record t { listen_open = false }

unfoldable pub start : Calls → TcpTransport → TcpTransport × Bool
unfolding close_listen_socket
start k t =
    if t.running
    then (t, true)
    else if not k.socket_ok
    then (record t { listen_open = false }, false)
    else if not k.setsockopt_ok
    then (close_listen_socket (record t { listen_open = true }), false)
    else if not k.bind_ok
    then (close_listen_socket (record t { listen_open = true }), false)
    else if not k.listen_ok
    then (close_listen_socket (record t { listen_open = true }), false)
    else (record { listen_open = true; running = true; has_thread = true }, true)

-- `stop`. Both of its closing branches close the socket if it is open, so that the order of the
-- join and the closing is what tells them apart; the state behind them is one.
unfoldable pub stop : TcpTransport → TcpTransport
unfolding close_listen_socket
stop t =
    let halted = record t { running = false } in
    let shut = if t.running && t.listen_open then close_listen_socket halted else halted in
    let joined = record shut { has_thread = false } in
    if not t.running then close_listen_socket joined else joined
