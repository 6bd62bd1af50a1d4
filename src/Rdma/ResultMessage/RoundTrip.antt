-- ===== src/Rdma/ResultMessage/RoundTrip.antt =====
-- What `Serialize` writes, `Deserialize` reads back.
use rdma_ai_platform.Common.{Bool, true, false, ◌≡◌, refl, ap, ◌∙◌, [], ◌∷◌, ◌++◌, arith, All}
use rdma_ai_platform.OrderedMap.{OrderedMap, IsOrdered, assign_all, assign_all-IsOrdered}
use rdma_ai_platform.Rdma.KeyValue.RoundTrip.{
  IsEntry, lines-field_line, read_lines-meta_lines, set_meta_all,
}
use rdma_ai_platform.Rdma.KeyValue.{read_line, read_lines, meta_lines}
use rdma_ai_platform.Rdma.ResultMessage.{
  flag, ResultMessage, empty_result, to_text, serialize, set_field, result_format, deserialize,
}
use rdma_ai_platform.Rdma.Types.{IsBytes, string_from_bytes-bytes_from_string}
use rdma_ai_platform.Text.Lines.{lines}
use rdma_ai_platform.Text.{codes, text_eq, split_at, strip_prefix, Lacks}

-- A message that the format can hold: no field has a newline, and the metadata is a map with no
-- newline in it and no `=` in its keys.
pub record IsPlain (r : ResultMessage) : Type 0 where
  pub task_id : Lacks b'\n' r.task_id
  pub worker_node : Lacks b'\n' r.worker_node
  pub target_node : Lacks b'\n' r.target_node
  pub detail : Lacks b'\n' r.detail
  pub entries : All IsEntry r.metadata
  pub ordered : IsOrdered r.metadata

-- The flag is written on one line and read back.
flag-Lacks : (b : Bool) → Lacks b'\n' (flag b)
flag-Lacks true = omega arith
flag-Lacks false = omega arith

read-flag : (b : Bool) → text_eq (flag b) (codes "1") ≡ b
unfolding text_eq
read-flag true = refl
read-flag false = refl

set_meta_all-assign_all :
    (es : OrderedMap) (r : ResultMessage)
    → set_meta_all result_format es r ≡ record r { metadata = assign_all es r.metadata }
unfolding set_meta_all assign_all
set_meta_all-assign_all [] r = refl
set_meta_all-assign_all ((k, v) ∷ es) r = set_meta_all-assign_all es (result_format.set_meta k v r)

-- The lines of a written message.
lines-to_text :
    (r : ResultMessage)
    → IsPlain r
    → lines (to_text r)
      ≡ (codes "task_id=" ++ r.task_id)
        ∷ (codes "worker_node=" ++ r.worker_node)
        ∷ (codes "target_node=" ++ r.target_node)
        ∷ (codes "success=" ++ flag r.success)
        ∷ (codes "detail=" ++ r.detail)
        ∷ lines (meta_lines r.metadata)
unfolding to_text
lines-to_text r p = rw (
  lines-field_line (codes "task_id") r.task_id _ (omega arith) p.task_id,
  lines-field_line (codes "worker_node") r.worker_node _ (omega arith) p.worker_node,
  lines-field_line (codes "target_node") r.target_node _ (omega arith) p.target_node,
  lines-field_line (codes "success") (flag r.success) _ (omega arith) (flag-Lacks r.success),
  lines-field_line (codes "detail") r.detail _ (omega arith) p.detail,
)

-- Reading the text of a message into the empty message gives the message.
read_lines-to_text :
    (r : ResultMessage) → IsPlain r → read_lines result_format (lines (to_text r)) empty_result ≡ r
unfolding read_lines read_line set_field text_eq strip_prefix split_at
read_lines-to_text r p = rw (lines-to_text r p) (
    read_lines-meta_lines result_format r.metadata _ p.entries
    ∙ set_meta_all-assign_all r.metadata _
    ∙ ap (λ m. record r { success = text_eq (flag r.success) (codes "1"); metadata = m })
        (assign_all-IsOrdered r.metadata p.ordered)
    ∙ ap (λ b. record r { success = b }) (read-flag r.success))

-- A result of bytes, in a form that the format can hold, comes back from its serialised form with
-- its flag, every field and the whole of its metadata.
pub deserialize-serialize_result :
    (r : ResultMessage) → IsPlain r → IsBytes (to_text r) → deserialize (serialize r) ≡ r
unfolding deserialize serialize
deserialize-serialize_result r p b =
    rw (string_from_bytes-bytes_from_string (to_text r) b) (read_lines-to_text r p)
