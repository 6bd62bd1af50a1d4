-- ===== src/Worker/Http.antt =====
-- worker/src/scheduler_client.cpp: `postJSON` and the methods that call it. What the network calls
-- return is given by a `Network`; a call whose answers run out has not returned yet. `operator>>`
-- for a number is modelled as the standard describes it in the C locale.
pub mod Status
pub mod Sending
pub mod Exchange
use rdma_ai_platform.Common.Int.{ℤ, pos, negsuc, neg_ℕ}
use rdma_ai_platform.Common.{
  ◌-◌, ◌^◌, Bool, true, false, not, ◌||◌, Option, none, some, List, [], ◌∷◌, ◌++◌, ◌==◌, leb, ℕ,
  length, take, drop, if◌then◌else◌,
}
use rdma_ai_platform.Text.Decimal.{to_string, value_from}
use rdma_ai_platform.Text.Trim.{drop_while, span}
use rdma_ai_platform.Text.{Text, codes, is_empty, strip_prefix}
use rdma_ai_platform.Worker.Config.{is_space, is_digit}
use rdma_ai_platform.Worker.SchedulerClient.{
  SchedulerClient, split_host_port, Request, register_request, heartbeat_request, result_request,
}
use rdma_ai_platform.Worker.Task.{TaskResult}

-- An answer of `recv`.
pub data Answer : Type 0 where
  chunk : Text → Answer
  closed interrupted failed : Answer

-- What the calls answer: whether `getaddrinfo` succeeds; for each address whether a socket can be
-- made and connected; for each `send` the number of bytes written, or an error; and the answers of
-- `recv`.
pub record Network : Type 0 where
  pub resolves : Bool
  pub connects : List Bool
  pub sends : List (Option ℕ)
  pub answers : List Answer

-- How a loop over calls ends, if it does.
pub data Progress : Type 0 where
  waiting broken completed : Progress

-- The loop over the addresses: whether one of them connects.
unfoldable pub connect_any : List Bool → Bool
connect_any [] = false
connect_any (ok ∷ rest) = ok || connect_any rest

unfoldable pub request_text : Text → Text → Text → Text → Text
request_text path host port body =
    codes "POST "
    ++ (path
        ++ (codes " HTTP/1.1\r\nHost: "
            ++ (host
                ++ (b':'
                    ∷ (port
                        ++ (codes
                              "\r\nContent-Type: application/json\r\nConnection: close\r\nContent-Length: "
                            ++ (to_string (length body) ++ (codes "\r\n\r\n" ++ body))))))))

-- The loop over `send`, with what is still to be sent and what was.
unfoldable pub send_loop : Text → List (Option ℕ) → Text → Progress × Text
send_loop [] sends wire = (completed, wire)
send_loop (c ∷ rest) [] wire = (waiting, wire)
send_loop (c ∷ rest) (none ∷ sends) wire = (broken, wire)
send_loop (c ∷ rest) (some written ∷ sends) wire =
    send_loop (drop written (c ∷ rest)) sends (wire ++ take written (c ∷ rest))

-- The loop over `recv`, with the response so far.
unfoldable pub recv_loop : List Answer → Text → Progress × Text
recv_loop [] response = (waiting, response)
recv_loop (chunk bytes ∷ answers) response = recv_loop answers (response ++ bytes)
recv_loop (closed ∷ answers) response = (completed, response)
recv_loop (interrupted ∷ answers) response = recv_loop answers response
recv_loop (failed ∷ answers) response = (broken, response)

abbrev pub onto_line : ℕ → Option Text → Option Text
onto_line c none = none
onto_line c (some line) = some (c ∷ line)

-- `response.substr(0, response.find("\r\n"))`, where it is found.
unfoldable pub first_line : Text → Option Text
first_line [] = none
first_line (c ∷ cs) =
    let rest = first_line cs in
    elim (strip_prefix (codes "\r\n") (c ∷ cs)) [ some _ ↦ some [] | none ↦ onto_line c rest ]

-- The digits of a number: none makes 0, and a number beyond `limit` makes `limit`.
unfoldable pub read_digits : ℕ → (ℕ → ℤ) → Text → ℤ
read_digits limit sign digits =
    let n = value_from 0 digits in sign (if leb n limit then n else limit)

-- `>> status_code` where -1 was its value: with nothing left to read it stays.
unfoldable pub read_int : Text → ℤ
unfolding read_digits
read_int [] = negsuc 0
read_int (c ∷ cs) =
    if c == b'-'
    then read_digits (2 ^ 31) neg_ℕ (span is_digit cs).0
    else if c == b'+'
    then read_digits (2 ^ 31 - 1) pos (span is_digit cs).0
    else read_digits (2 ^ 31 - 1) pos (span is_digit (c ∷ cs)).0

abbrev pub is_word : ℕ → Bool
is_word c = not (is_space c)

-- `status_line >> http_version >> status_code`.
unfoldable pub read_status : Text → ℤ
unfolding read_int
read_status line =
    let (version, rest) = span is_word (drop_while is_space line) in
    if is_empty version then negsuc 0 else read_int (drop_while is_space rest)

unfoldable pub status_of : Text → ℤ
unfolding first_line read_status
status_of response = elim (first_line response) [ none ↦ negsuc 0 | some line ↦ read_status line ]

-- What a call of `postJSON` put on the wire, and the status that it returned, if it has.
pub record Posted : Type 0 where
  pub wire : Text
  pub status : Option ℤ

unfoldable pub after_recv : Text → Progress × Text → Posted
after_recv wire (waiting, response) = record { wire = wire; status = none }
after_recv wire (broken, response) = record { wire = wire; status = some (negsuc 0) }
after_recv wire (completed, response) = record { wire = wire; status = some (status_of response) }

unfoldable pub after_send : List Answer → Progress × Text → Posted
unfolding after_recv
after_send answers (waiting, wire) = record { wire = wire; status = none }
after_send answers (broken, wire) = record { wire = wire; status = some (negsuc 0) }
after_send answers (completed, wire) = after_recv wire (recv_loop answers [])

unfoldable pub post_to : Network → Text → Text → Text → Text → Posted
unfolding after_send
post_to net host port path body =
    if not net.resolves || not (connect_any net.connects)
    then record { wire = []; status = some (negsuc 0) }
    else after_send net.answers (send_loop (request_text path host port body) net.sends [])

unfoldable pub post_json : Network → SchedulerClient → Text → Text → Posted
unfolding post_to
post_json net c path body = elim (split_host_port c.scheduler_addr) [
  | none ↦ record { wire = []; status = some (negsuc 0) }
  | some (host, port) ↦ post_to net host port path body
]

-- `status != expected`, on the status of a call that has returned.
unfoldable pub is_expected : ℕ → Option ℤ → Option Bool
is_expected code none = none
is_expected code (some (pos n)) = some (n == code)
is_expected code (some (negsuc n)) = some false

-- A method of the client: without a worker identifier it fails at once.
unfoldable pub perform : Network → SchedulerClient → Option Request → Option Bool
unfolding is_expected
perform net c none = some false
perform net c (some r) = is_expected r.expected (post_json net c r.path r.body).status

unfoldable pub register_worker : Network → SchedulerClient → Text → ℤ → Option Bool
unfolding perform
register_worker net c address capacity = perform net c (register_request c address capacity)

unfoldable pub send_heartbeat : Network → SchedulerClient → ℤ → List Text → Option Bool
unfolding perform
send_heartbeat net c running_tasks active_task_ids =
    perform net c (heartbeat_request c running_tasks active_task_ids)

unfoldable pub report_result : Network → SchedulerClient → TaskResult → Option Bool
unfolding perform
report_result net c result = perform net c (result_request c result)
