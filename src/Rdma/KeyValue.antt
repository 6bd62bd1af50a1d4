-- ===== src/Rdma/KeyValue.antt =====
-- The text that TaskMessage and ResultMessage share (rdma/include/rdma/task_message.h,
-- rdma/include/rdma/result_message.h): a line `key=value` for each field, and a line
-- `meta:key=value` for each entry of the metadata.
pub mod RoundTrip
use rdma_ai_platform.Common.{none, some, List, [], ◌∷◌, ◌++◌, ◌==◌, if◌then◌else◌, ℕ, ◌≡◌}
use rdma_ai_platform.OrderedMap.{OrderedMap}
use rdma_ai_platform.Text.Lines.{lines}
use rdma_ai_platform.Text.{Text, codes, is_empty, split_at, strip_prefix}

-- What a message does with a field and with an entry of the metadata.
pub record Format (M : Type 0) : Type 0 where
  pub set_field : Text → Text → M → M
  pub set_meta : Text → Text → M → M

module _ {M : Type 0} (format : Format M) where
  -- The body of the loop in `Deserialize`.
  unfoldable pub read_line : Text → M → M
  read_line line m = if is_empty line then m else elim (strip_prefix (codes "meta:") line) [
    | some pair ↦ elim (split_at b'=' pair) [
      | none ↦ m
      | some (key, value) ↦ format.set_meta key value m
    ]
    | none ↦ elim (split_at b'=' line) [
      | none ↦ m
      | some (key, value) ↦ format.set_field key value m
    ]
  ]

  unfoldable pub read_lines : List Text → M → M
  read_lines [] m = m
  read_lines (l ∷ ls) m = read_lines ls (read_line l m)

-- `stream << "key=" << value << "\n"`, with what is written behind it.
abbrev pub field_line : Text → Text → Text → Text
field_line key value rest = key ++ (b'=' ∷ (value ++ b'\n' ∷ rest))

-- The loop over the metadata.
unfoldable pub meta_lines : OrderedMap → Text
meta_lines [] = []
meta_lines ((key, value) ∷ m) = codes "meta:" ++ field_line key value (meta_lines m)
