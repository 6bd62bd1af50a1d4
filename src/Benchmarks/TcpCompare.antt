-- ===== src/Benchmarks/TcpCompare.antt =====
-- benchmark/tcp_compare.cpp: the loops over `send` and `recv`. What a call
-- returns is a list of answers, one for each call: `none` for a negative number, `some n` for a
-- number of bytes. A direction of the connection is the text that was sent and not yet received.
-- The times measured are not modelled.
pub mod Loops
pub mod Program
use rdma_ai_platform.Common.{
  min, ℕ, zero, suc, ◌-◌, Option, none, some, List, [], ◌∷◌, ◌++◌, length, take, drop, ◌==◌,
  if◌then◌else◌,
}
use rdma_ai_platform.Text.{Text}

-- How a loop ends: it returns true or false, or a call has not returned.
pub data Progress : Type 0 where
  succeeded gave_up pending : Progress

-- A direction of the connection, and the progress of the loop that worked on it.
pub record Sent : Type 0 where
  pub progress : Progress
  pub stream : Text

-- `SendAll`, with what is still to be sent. A call sends at most what it is given.
unfoldable pub send_all : List (Option ℕ) → Text → Text → Sent
send_all answers [] stream = record { progress = succeeded; stream = stream }
send_all [] (c ∷ rest) stream = record { progress = pending; stream = stream }
send_all (none ∷ answers) (c ∷ rest) stream = record { progress = gave_up; stream = stream }
send_all (some zero ∷ answers) (c ∷ rest) stream = record { progress = gave_up; stream = stream }
send_all (some (suc n) ∷ answers) (c ∷ rest) stream =
    send_all answers (drop n rest) (stream ++ c ∷ take n rest)

-- What `RecvAll` has, and what it has left of the stream.
pub record Received : Type 0 where
  pub progress : Progress
  pub buffer : Text
  pub stream : Text

-- `RecvAll`, with the bytes that the buffer still lacks. A call returns at most what it is asked
-- for and what there is.
unfoldable pub recv_all : List (Option ℕ) → ℕ → Text → Text → Received
recv_all answers zero buffer stream = record {
  progress = succeeded;
  buffer = buffer;
  stream = stream;
}
recv_all [] (suc k) buffer stream = record { progress = pending; buffer = buffer; stream = stream }
recv_all (none ∷ answers) (suc k) buffer stream = record {
  progress = gave_up;
  buffer = buffer;
  stream = stream;
}
recv_all (some n ∷ answers) (suc k) buffer stream =
    let bytes = take (min n (suc k)) stream in
    let rest =
      recv_all answers (suc k - length bytes) (buffer ++ bytes) (drop (min n (suc k)) stream) in
    if length bytes == 0
    then record { progress = gave_up; buffer = buffer; stream = stream }
    else rest

-- The answers that the calls of a round get: the client's and the server's, to send and to receive.
pub record Answers : Type 0 where
  pub client_sends : List (Option ℕ)
  pub server_receives : List (Option ℕ)
  pub server_sends : List (Option ℕ)
  pub client_receives : List (Option ℕ)
