-- ===== src/Benchmarks/TcpCompare/Program.antt =====
-- The whole of benchmark/tcp_compare.cpp: the setting up of both ends, the rounds and what `main`
-- returns, on the results of the system calls.
use rdma_ai_platform.Worker.Http.Sending.{Writes}
use mathlib.Core.Path.{ap₂}
use rdma_ai_platform.Benchmarks.TcpCompare.Loops.{
  send_all-succeeded, recv_all-succeeded, send_all-enough, recv_all-enough,
}
use rdma_ai_platform.Benchmarks.TcpCompare.{
  gave_up, pending, Progress, Answers, succeeded, send_all, recv_all,
}
use rdma_ai_platform.Common.{
  ℕ, zero, suc, ◌≤◌, ◌≡◌, refl, ap, ◌∙◌, Bool, true, false, not, ◌&&◌, List, [], ◌∷◌, arith, All,
  length, if◌then◌else◌, replicate,
}
use rdma_ai_platform.Text.{Text}

-- Which calls succeed; `accept` fails by itself or waits for a client. `rounds` has the answers of
-- each round.
pub record Calls : Type 0 where
  pub server_socket : Bool
  pub bind : Bool
  pub listen : Bool
  pub accept_fails : Bool
  pub client_socket : Bool
  pub connect : Bool
  pub rounds : List Answers

-- `main` returns, or waits for ever.
pub data Outcome : Type 0 where
  returns : ℕ → Outcome
  hangs : Outcome

-- The value of the promise.
unfoldable pub server_ready : Calls → Bool
server_ready c = c.server_socket && c.bind && c.listen

-- `server.join()` while no client has connected.
unfoldable pub join_listening : Calls → Outcome
join_listening c = if c.accept_fails then returns 1 else hangs

-- What the server's loop sends back in a round; a thread whose `accept` failed sends nothing.
unfoldable pub reply : Calls → Answers → ℕ → Text → Text
reply c a size stream =
    let received = recv_all a.server_receives size [] stream in
    if c.accept_fails then [] else elim received.progress [
      | succeeded ↦ (send_all a.server_sends received.buffer []).stream
      | gave_up ↦ []
      | pending ↦ []
    ]

-- A round of the client's loop, and what it has in `response` then.
unfoldable pub client_round : Calls → Answers → Text → Progress × Text
unfolding reply
client_round c a payload =
    let sent = send_all a.client_sends payload [] in
    elim sent.progress [
      | succeeded ↦
          let back = reply c a (length payload) sent.stream in
          let received = recv_all a.client_receives (length payload) [] back in
          (received.progress, received.buffer)
      | gave_up ↦ (gave_up, [])
      | pending ↦ (pending, [])
    ]

-- The client's loop goes on after a round that succeeded, with its response on record.
unfoldable pub after_round : Progress × Text → Progress × List Text → Progress × List Text
after_round (succeeded, response) (progress, responses) = (progress, response ∷ responses)
after_round (gave_up, response) later = (gave_up, [])
after_round (pending, response) later = (pending, [])

-- The client's loop, and the responses of its rounds.
unfoldable pub client_rounds : Calls → ℕ → List Answers → Text → Progress × List Text
unfolding client_round after_round
client_rounds c zero rest payload = (succeeded, [])
client_rounds c (suc k) [] payload = (pending, [])
client_rounds c (suc k) (a ∷ rest) payload =
    after_round (client_round c a payload) (client_rounds c k rest payload)

-- Once the client has closed its end, the server's loop ends too.
unfoldable pub conclude : Progress → Outcome
conclude succeeded = returns 0
conclude gave_up = returns 1
conclude pending = hangs

-- The bytes that are sent.
abbrev pub tcp_payload : ℕ → Text
tcp_payload size = replicate size 42

-- The client's loop in `main`.
unfoldable pub exchange : ℕ → ℕ → Calls → Progress × List Text
unfolding client_rounds
exchange rounds size c = client_rounds c rounds c.rounds (tcp_payload size)

-- `main`, with its number of rounds and of bytes.
unfoldable pub tcp_compare : ℕ → ℕ → Calls → Outcome
unfolding server_ready join_listening exchange conclude
tcp_compare rounds size c =
    if not (server_ready c)
    then returns 1
    else if not c.client_socket
    then join_listening c
    else if not c.connect
    then join_listening c
    else conclude (exchange rounds size c).0

-- Every call of the setting up succeeds.
pub record IsUp (c : Calls) : Type 0 where
  pub server : (c.server_socket ≡ true) × (c.bind ≡ true) × (c.listen ≡ true)
  pub accepts : c.accept_fails ≡ false
  pub client : (c.client_socket ≡ true) × (c.connect ≡ true)

-- Each loop gets an answer that is a number of bytes for every byte it has to move.
pub record IsEnough (a : Answers) (n : ℕ) : Type 0 where
  pub client_sends : All Writes a.client_sends × (n ≤ length a.client_sends)
  pub server_receives : All Writes a.server_receives × (n ≤ length a.server_receives)
  pub server_sends : All Writes a.server_sends × (n ≤ length a.server_sends)
  pub client_receives : All Writes a.client_receives × (n ≤ length a.client_receives)

reply-enough :
    (c : Calls) (a : Answers) (payload : Text)
    → c.accept_fails ≡ false
    → IsEnough a (length payload)
    → reply c a (length payload) payload ≡ payload
unfolding reply
reply-enough c a payload on e =
    let got =
      recv_all-enough a.server_receives (length payload) [] payload e.server_receives.0
        e.server_receives.1 (omega arith) in
    let bytes = recv_all-succeeded a.server_receives (length payload) payload refl got in
    let back =
      send_all-succeeded a.server_sends payload []
        (send_all-enough a.server_sends payload [] e.server_sends.0 e.server_sends.1) in
    rw (on, got, bytes) back

client_round-enough :
    (c : Calls) (a : Answers) (payload : Text)
    → c.accept_fails ≡ false
    → IsEnough a (length payload)
    → client_round c a payload ≡ (succeeded, payload)
unfolding client_round
client_round-enough c a payload on e =
    let sent = send_all-enough a.client_sends payload [] e.client_sends.0 e.client_sends.1 in
    let stream = send_all-succeeded a.client_sends payload [] sent in
    let back : reply c a (length payload) (send_all a.client_sends payload []).stream ≡ payload =
      ap (reply c a (length payload)) stream ∙ reply-enough c a payload on e in
    let got =
      recv_all-enough a.client_receives (length payload) [] payload e.client_receives.0
        e.client_receives.1 (omega arith) in
    rw (sent, client_round)
      (ap (λ b. let r = recv_all a.client_receives (length payload) [] b in (r.progress, r.buffer))
          back
        ∙ ap₂ (λ p b. (p, b)) got
            (recv_all-succeeded a.client_receives (length payload) payload refl got))

client_rounds-enough :
    (c : Calls) (k : ℕ) (rest : List Answers) (payload : Text)
    → c.accept_fails ≡ false
    → k ≤ length rest
    → All (λ a. IsEnough a (length payload)) rest
    → client_rounds c k rest payload ≡ (succeeded, replicate k payload)
unfolding client_rounds after_round
client_rounds-enough c zero rest payload on h e = refl
client_rounds-enough c (suc k) [] payload on h e = elim h [ ]
client_rounds-enough c (suc k) (a ∷ rest) payload on h e =
    ap₂ after_round (client_round-enough c a payload on e.0)
      (client_rounds-enough c k rest payload on (omega arith) e.1)

-- Where every call of the setting up succeeds and, in each round, each of the calls that a loop may
-- make, as many as there are bytes, sends or receives something: `main` returns 0, and the response
-- that its client has received in every round is what it sent, however the calls split the bytes.
pub tcp_compare-echo :
    (rounds size : ℕ) (c : Calls)
    → IsUp c
    → rounds ≤ length c.rounds
    → All (λ a. IsEnough a (length (tcp_payload size))) c.rounds
    → (tcp_compare rounds size c ≡ returns 0)
      × (exchange rounds size c ≡ (succeeded, replicate rounds (tcp_payload size)))
unfolding tcp_compare server_ready conclude exchange
tcp_compare-echo rounds size c up h e =
    let (socket, bound, listens) = up.server in
    let (made, connected) = up.client in
    let all = client_rounds-enough c rounds c.rounds (tcp_payload size) up.accepts h e in
    (rw (socket, bound, listens, made, connected) (ap (λ r. conclude r.0) all), all)
