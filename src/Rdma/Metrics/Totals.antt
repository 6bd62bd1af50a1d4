-- ===== src/Rdma/Metrics/Totals.antt =====
-- The counters against the sums over everything that was recorded.
use rdma_ai_platform.Common.{◌+◌, ◌%◌, ◌^◌, ◌<◌, List, [], ◌∷◌, arith, ℕ, ◌≡◌}
use rdma_ai_platform.Rdma.CompletionQueue.{CompletionEvent}
use rdma_ai_platform.Rdma.Metrics.{
  Metrics, record_send, record_write, record_receive, record_completion, failure_count, snapshot,
}

pub data Entry : Type 0 where
  sent written received : ℕ → Entry
  completed : CompletionEvent → Entry

pub enter : Entry → Metrics → Metrics
enter (sent n) m = record_send n m
enter (written n) m = record_write n m
enter (received n) m = record_receive n m
enter (completed e) m = record_completion e m

pub enter_all : List Entry → Metrics → Metrics
enter_all [] m = m
enter_all (e ∷ es) m = enter_all es (enter e m)

-- The sum of a quantity over the entries.
abbrev pub total : (Entry → ℕ) → List Entry → ℕ
total f [] = 0
total f (e ∷ es) = f e + total f es

abbrev pub is_send : Entry → ℕ
is_send (sent n) = 1
is_send _ = 0

abbrev pub is_write : Entry → ℕ
is_write (written n) = 1
is_write _ = 0

abbrev pub is_receive : Entry → ℕ
is_receive (received n) = 1
is_receive _ = 0

abbrev pub is_completion : Entry → ℕ
is_completion (completed e) = 1
is_completion _ = 0

abbrev pub is_failure : Entry → ℕ
is_failure (completed e) = failure_count e.status
is_failure _ = 0

abbrev pub bytes_out : Entry → ℕ
bytes_out (sent n) = n
bytes_out (written n) = n
bytes_out _ = 0

abbrev pub bytes_in : Entry → ℕ
bytes_in (received n) = n
bytes_in _ = 0

pub record Counts (es : List Entry) (before after : Metrics) : Type 0 where
  pub sends : after.sends ≡ (before.sends + total is_send es) % 2 ^ 64
  pub writes : after.writes ≡ (before.writes + total is_write es) % 2 ^ 64
  pub receives : after.receives ≡ (before.receives + total is_receive es) % 2 ^ 64
  pub completions : after.completions ≡ (before.completions + total is_completion es) % 2 ^ 64
  pub failures :
      after.failed_completions ≡ (before.failed_completions + total is_failure es) % 2 ^ 64
  pub sent_bytes : after.sent_bytes ≡ (before.sent_bytes + total bytes_out es) % 2 ^ 64
  pub received_bytes : after.received_bytes ≡ (before.received_bytes + total bytes_in es) % 2 ^ 64

pub record InRange (m : Metrics) : Type 0 where
  pub sends : m.sends < 2 ^ 64
  pub writes : m.writes < 2 ^ 64
  pub receives : m.receives < 2 ^ 64
  pub completions : m.completions < 2 ^ 64
  pub failures : m.failed_completions < 2 ^ 64
  pub sent_bytes : m.sent_bytes < 2 ^ 64
  pub received_bytes : m.received_bytes < 2 ^ 64

enter-InRange : (e : Entry) (m : Metrics) → InRange m → InRange (enter e m)
unfolding enter record_send record_write record_receive record_completion
enter-InRange (sent n) m v = omega arith
enter-InRange (written n) m v = omega arith
enter-InRange (received n) m v = omega arith
enter-InRange (completed e) m v = ground arith

enter-Counts :
    (e : Entry) (es : List Entry) (m : Metrics) {after : Metrics}
    → Counts es (enter e m) after
    → Counts (e ∷ es) m after
unfolding enter record_send record_write record_receive record_completion
enter-Counts (sent n) es m c = omega arith
enter-Counts (written n) es m c = omega arith
enter-Counts (received n) es m c = omega arith
enter-Counts (completed e) es m c = ground arith

-- The counters are the sums over all that was recorded, modulo 2^64: sends, writes, receives,
-- completions, failed completions, bytes out (of sends and of writes) and bytes in.
pub enter_all-Counts :
    (es : List Entry) (m : Metrics) → InRange m → Counts es m (snapshot (enter_all es m))
unfolding enter_all snapshot
enter_all-Counts [] m v = omega arith
enter_all-Counts (e ∷ es) m v =
    enter-Counts e es m (enter_all-Counts es (enter e m) (enter-InRange e m v))
