-- ===== src/Rdma/Metrics.antt =====
-- rdma/include/rdma/metrics.h and rdma/src/metrics.cpp: seven counters of 64 bits, which wrap.
-- `fetch_add` on each is one step; a snapshot that races with a record may see some of its
-- counters before the record and some after it. The model takes a record and a snapshot whole.
pub mod Totals
use rdma_ai_platform.Common.{ℕ, ◌+◌, ◌%◌, ◌^◌}
use rdma_ai_platform.Rdma.CompletionQueue.{CompletionEvent}
use rdma_ai_platform.Rdma.Types.{CompletionStatus, success, failed, timeout}

pub record MetricsSnapshot : Type 0 where
  pub sends : ℕ
  pub writes : ℕ
  pub receives : ℕ
  pub completions : ℕ
  pub failed_completions : ℕ
  pub sent_bytes : ℕ
  pub received_bytes : ℕ

-- The counters have the fields of a snapshot.
abbrev pub Metrics : Type 0
Metrics = MetricsSnapshot

unfoldable pub zero_metrics : Metrics
zero_metrics = record {
  sends = 0;
  writes = 0;
  receives = 0;
  completions = 0;
  failed_completions = 0;
  sent_bytes = 0;
  received_bytes = 0;
}

-- `fetch_add` on 64 bits.
abbrev pub fetch_add : ℕ → ℕ → ℕ
fetch_add counter n = (counter + n) % 2 ^ 64

unfoldable pub record_send : ℕ → Metrics → Metrics
record_send bytes m = record m {
  sends = fetch_add m.sends 1;
  sent_bytes = fetch_add m.sent_bytes bytes;
}

unfoldable pub record_write : ℕ → Metrics → Metrics
record_write bytes m = record m {
  writes = fetch_add m.writes 1;
  sent_bytes = fetch_add m.sent_bytes bytes;
}

unfoldable pub record_receive : ℕ → Metrics → Metrics
record_receive bytes m = record m {
  receives = fetch_add m.receives 1;
  received_bytes = fetch_add m.received_bytes bytes;
}

-- What a completion adds to `failed_completions`.
abbrev pub failure_count : CompletionStatus → ℕ
failure_count success = 0
failure_count failed = 1
failure_count timeout = 1

-- `if (event.status != CompletionStatus::kSuccess) failed_completions_.fetch_add(1)`.
unfoldable pub record_status : CompletionStatus → Metrics → Metrics
record_status success m = m
record_status _ m = record m { failed_completions = fetch_add m.failed_completions 1 }

unfoldable pub record_completion : CompletionEvent → Metrics → Metrics
unfolding record_status
record_completion event m =
    record_status event.status (record m { completions = fetch_add m.completions 1 })

unfoldable pub snapshot : Metrics → MetricsSnapshot
snapshot m = record {
  sends = m.sends;
  writes = m.writes;
  receives = m.receives;
  completions = m.completions;
  failed_completions = m.failed_completions;
  sent_bytes = m.sent_bytes;
  received_bytes = m.received_bytes;
}
