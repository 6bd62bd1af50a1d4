-- ===== src/Tests/Queues.antt =====
-- Completion queues and metrics.
use rdma_ai_platform.Bounded.{keep_last}
use rdma_ai_platform.Common.{ltb, if◌then◌else◌, ◌≡◌, [], ◌∷◌, arith, ℕ, List}
use rdma_ai_platform.Rdma.CompletionQueue.Log.{push_each, push_each-keep_last}
use rdma_ai_platform.Rdma.CompletionQueue.{CompletionEvent, make}
use rdma_ai_platform.Rdma.Metrics.Totals.{
  Entry, sent, written, received, completed, enter_all, Counts, enter_all-Counts,
}
use rdma_ai_platform.Rdma.Metrics.{zero_metrics, snapshot}
use rdma_ai_platform.Rdma.Types.{failed, send}
use rdma_ai_platform.Text.{codes}

abbrev event : ℕ → CompletionEvent
event id = record {
  work_request_id = id;
  status = failed;
  operation = send;
  source = codes "a";
  destination = codes "b";
  detail = [];
  completed_at = 0;
  bytes = 0;
}

push_each-keep_last_example :
    (push_each (event 1 ∷ event 2 ∷ event 3 ∷ []) (make (record { depth = 2 })) []).0.queue ≡ (
      if ltb 0 2
      then keep_last 2 (event 1 ∷ event 2 ∷ event 3 ∷ [])
      else event 1 ∷ event 2 ∷ event 3 ∷ [])
push_each-keep_last_example =
    push_each-keep_last (record { depth = 2 }) (event 1 ∷ event 2 ∷ event 3 ∷ []) []

abbrev entries : List Entry
entries = sent 10 ∷ written 5 ∷ received 3 ∷ completed (event 1) ∷ []

enter_all-Counts_example : Counts entries zero_metrics (snapshot (enter_all entries zero_metrics))
unfolding zero_metrics
enter_all-Counts_example = enter_all-Counts entries zero_metrics (omega arith)
