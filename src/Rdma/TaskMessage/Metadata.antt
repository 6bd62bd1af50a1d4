-- ===== src/Rdma/TaskMessage/Metadata.antt =====
-- Messages whose metadata a program has put together by assignments.
use rdma_ai_platform.Common.{◌≡◌, ap, ◌∙◌, [], All}
use rdma_ai_platform.OrderedMap.{OrderedMap, assign_all}
use rdma_ai_platform.OrderedMap.Assigned.{assign_all-All, IsOrdered-assign_all}
use rdma_ai_platform.OrderedMap.Reordering.{Reordered, assign_all-Reordered}
use rdma_ai_platform.Rdma.KeyValue.RoundTrip.{IsEntry}
use rdma_ai_platform.Rdma.TaskMessage.{TaskMessage, to_text, serialize, deserialize}
use rdma_ai_platform.Rdma.TaskMessage.RoundTrip.{IsPlain, deserialize-serialize}
use rdma_ai_platform.Rdma.Types.{IsBytes}

-- The message with the metadata that the assignments make.
abbrev pub assigned : TaskMessage → OrderedMap → TaskMessage
assigned t es = record t { metadata = assign_all es [] }

assigned-IsPlain :
    (t : TaskMessage) (es : OrderedMap) → IsPlain t → All IsEntry es → IsPlain (assigned t es)
assigned-IsPlain t es p h = record {
  task_id = p.task_id;
  kind = p.kind;
  source_node = p.source_node;
  target_node = p.target_node;
  description = p.description;
  entries = assign_all-All IsEntry es [] h tt;
  ordered = IsOrdered-assign_all es [] tt;
}

-- A plain message that is given metadata by assignments, in any order, of values with no newline to
-- keys with neither a newline nor a `=`, all of bytes: it comes back from its serialised form with
-- every field, and with the metadata that the same assignments make in any other order in which
-- those to one key keep theirs.
pub deserialize-serialize-assigned :
    (t : TaskMessage) (es es' : OrderedMap)
    → IsPlain t
    → All IsEntry es
    → Reordered es es'
    → IsBytes (to_text (assigned t es))
    → deserialize (serialize (assigned t es)) ≡ assigned t es'
deserialize-serialize-assigned t es es' p h r b =
    deserialize-serialize (assigned t es) (assigned-IsPlain t es p h) b
    ∙ ap (λ m. record t { metadata = m }) (assign_all-Reordered [] r)
