-- ===== src/Rdma/TaskMessage/RoundTrip.antt =====
-- What `Serialize` writes, `Deserialize` reads back.
use rdma_ai_platform.Common.{◌≡◌, refl, ap, ◌∙◌, [], ◌∷◌, ◌++◌, arith, All}
use rdma_ai_platform.OrderedMap.{OrderedMap, IsOrdered, assign_all, assign_all-IsOrdered}
use rdma_ai_platform.Rdma.KeyValue.RoundTrip.{
  IsEntry, lines-field_line, read_lines-meta_lines, set_meta_all,
}
use rdma_ai_platform.Rdma.KeyValue.{read_line, read_lines, meta_lines}
use rdma_ai_platform.Rdma.TaskMessage.{
  TaskMessage, empty_task, to_text, serialize, set_field, task_format, deserialize,
}
use rdma_ai_platform.Rdma.Types.{IsBytes, string_from_bytes-bytes_from_string}
use rdma_ai_platform.Text.Lines.{lines}
use rdma_ai_platform.Text.{codes, text_eq, split_at, strip_prefix, Lacks}

-- A message that the format can hold: no field has a newline, and the metadata is a map with no
-- newline in it and no `=` in its keys.
pub record IsPlain (t : TaskMessage) : Type 0 where
  pub task_id : Lacks b'\n' t.task_id
  pub kind : Lacks b'\n' t.kind
  pub source_node : Lacks b'\n' t.source_node
  pub target_node : Lacks b'\n' t.target_node
  pub description : Lacks b'\n' t.description
  pub entries : All IsEntry t.metadata
  pub ordered : IsOrdered t.metadata

set_meta_all-assign_all :
    (es : OrderedMap) (t : TaskMessage)
    → set_meta_all task_format es t ≡ record t { metadata = assign_all es t.metadata }
unfolding set_meta_all assign_all
set_meta_all-assign_all [] t = refl
set_meta_all-assign_all ((k, v) ∷ es) t = set_meta_all-assign_all es (task_format.set_meta k v t)

-- The lines of a written message.
lines-to_text :
    (t : TaskMessage)
    → IsPlain t
    → lines (to_text t)
      ≡ (codes "task_id=" ++ t.task_id)
        ∷ (codes "kind=" ++ t.kind)
        ∷ (codes "source_node=" ++ t.source_node)
        ∷ (codes "target_node=" ++ t.target_node)
        ∷ (codes "description=" ++ t.description)
        ∷ lines (meta_lines t.metadata)
unfolding to_text
lines-to_text t p = rw (
  lines-field_line (codes "task_id") t.task_id _ (omega arith) p.task_id,
  lines-field_line (codes "kind") t.kind _ (omega arith) p.kind,
  lines-field_line (codes "source_node") t.source_node _ (omega arith) p.source_node,
  lines-field_line (codes "target_node") t.target_node _ (omega arith) p.target_node,
  lines-field_line (codes "description") t.description _ (omega arith) p.description,
)

-- Reading the text of a message into the empty message gives the message.
read_lines-to_text :
    (t : TaskMessage) → IsPlain t → read_lines task_format (lines (to_text t)) empty_task ≡ t
unfolding read_lines read_line set_field text_eq strip_prefix split_at
read_lines-to_text t p = rw (lines-to_text t p) (
    read_lines-meta_lines task_format t.metadata _ p.entries
    ∙ set_meta_all-assign_all t.metadata _
    ∙ ap (λ m. record t { metadata = m }) (assign_all-IsOrdered t.metadata p.ordered))

-- A message of bytes, in a form that the format can hold, comes back from its serialised form with
-- every field and the whole of its metadata.
pub deserialize-serialize :
    (t : TaskMessage) → IsPlain t → IsBytes (to_text t) → deserialize (serialize t) ≡ t
unfolding deserialize serialize
deserialize-serialize t p b =
    rw (string_from_bytes-bytes_from_string (to_text t) b) (read_lines-to_text t p)
