-- ===== src/Tests/Messages.antt =====
-- Messages on the wire.
use rdma_ai_platform.Common.{◌≡◌, refl, arith, [], ◌∷◌}
use rdma_ai_platform.Rdma.ResultMessage as Result
use rdma_ai_platform.Rdma.ResultMessage.RoundTrip as ResultTrip
use rdma_ai_platform.Rdma.TaskMessage.Metadata.{assigned, deserialize-serialize-assigned}
use rdma_ai_platform.Rdma.TaskMessage.RoundTrip.{IsPlain}
use rdma_ai_platform.OrderedMap.Reordering.{Reordered, later, swaps}
use rdma_ai_platform.Text.{text_eq, codes}
use rdma_ai_platform.Rdma.TaskMessage.{serialize, deserialize, to_text}
use rdma_ai_platform.Rdma.Types.{IsBytes}
use rdma_ai_platform.Rdma.KeyValue.{meta_lines}
use rdma_ai_platform.OrderedMap.{OrderedMap, text_lt, assign, assign_all}
use rdma_ai_platform.Tests.Data.{task, good_result}

pub task-IsPlain : IsPlain task
unfolding text_lt
task-IsPlain = record {
  task_id = omega arith;
  kind = omega arith;
  source_node = omega arith;
  target_node = omega arith;
  description = omega arith;
  entries = omega arith;
  ordered = ((refl, tt), (tt, tt));
}

pub task-IsBytes : IsBytes (to_text task)
unfolding to_text meta_lines
task-IsBytes = omega arith

pub result-IsPlain : ResultTrip.IsPlain good_result
result-IsPlain = record {
  task_id = omega arith;
  worker_node = omega arith;
  target_node = omega arith;
  detail = omega arith;
  entries = omega arith;
  ordered = (tt, tt);
}

pub result-IsBytes : IsBytes (Result.to_text good_result)
unfolding Result.to_text meta_lines
result-IsBytes = omega arith

abbrev assignments : OrderedMap
assignments = (codes "n", codes "1") ∷ (codes "n", codes "2") ∷ (codes "k", codes "v") ∷ []

abbrev other_order : OrderedMap
other_order = (codes "n", codes "1") ∷ (codes "k", codes "v") ∷ (codes "n", codes "2") ∷ []

assignments-Reordered : Reordered assignments other_order
unfolding text_eq
assignments-Reordered = later (swaps refl)

assignments-IsBytes : IsBytes (to_text (assigned task assignments))
unfolding to_text meta_lines assign_all assign text_lt text_eq
assignments-IsBytes = omega arith

deserialize-serialize-assigned_example :
    deserialize (serialize (assigned task assignments)) ≡ assigned task other_order
deserialize-serialize-assigned_example =
    deserialize-serialize-assigned task assignments other_order task-IsPlain (omega arith)
      assignments-Reordered assignments-IsBytes

deserialize-serialize_result_example :
    Result.deserialize (Result.serialize good_result) ≡ good_result
deserialize-serialize_result_example =
    ResultTrip.deserialize-serialize_result good_result result-IsPlain result-IsBytes
