-- ===== src/Rdma/KeyValue/RoundTrip.antt =====
-- Reading what was written, for any message of this format.
use rdma_ai_platform.Common.{
  sym, ap, ◌∙◌, append_assoc, refl, ◌≢◌, [], ◌∷◌, ◌++◌, arith, All, All-append, ℕ, ◌≡◌,
}
use rdma_ai_platform.OrderedMap.{OrderedMap}
use rdma_ai_platform.Rdma.KeyValue.{Format, read_line, read_lines, field_line, meta_lines}
use rdma_ai_platform.Text.Lines.{lines, lines-append}
use rdma_ai_platform.Text.{Text, codes, Lacks, split_at-Lacks, strip_prefix-append}

-- An entry of the metadata that can be written: no newline in it, and no `=` in its key.
abbrev pub IsEntry : Text × Text → Type 0
IsEntry e = Lacks b'\n' e.0 × Lacks b'=' e.0 × Lacks b'\n' e.1

Lacks-append : (c : ℕ) (a b : Text) → Lacks c a → Lacks c b → Lacks c (a ++ b)
Lacks-append c a b = All-append (λ x. x ≢ c) a b

-- A written field is one line.
pub lines-field_line :
    (key value rest : Text)
    → Lacks b'\n' key
    → Lacks b'\n' value
    → lines (field_line key value rest) ≡ (key ++ b'=' ∷ value) ∷ lines rest
lines-field_line key value rest hk hv =
    ap lines (sym (append_assoc key (b'=' ∷ value) (b'\n' ∷ rest)))
    ∙ lines-append (key ++ b'=' ∷ value) rest
        (Lacks-append b'\n' key (b'=' ∷ value) hk ((λ e. absurd (omega arith)), hv))

module _ {M : Type 0} (format : Format M) where
  unfoldable pub set_meta_all : OrderedMap → M → M
  set_meta_all [] m = m
  set_meta_all ((k, v) ∷ es) m = set_meta_all es (format.set_meta k v m)

  read_line-meta :
      (k v : Text) (m : M)
      → Lacks b'=' k
      → read_line format (codes "meta:" ++ (k ++ b'=' ∷ v)) m ≡ format.set_meta k v m
  unfolding read_line
  read_line-meta k v m h =
      rw (strip_prefix-append (codes "meta:") (k ++ b'=' ∷ v), split_at-Lacks b'=' k v h) refl

  pub read_lines-meta_lines :
      (es : OrderedMap) (m : M)
      → All IsEntry es
      → read_lines format (lines (meta_lines es)) m ≡ set_meta_all es m
  unfolding read_lines meta_lines set_meta_all
  read_lines-meta_lines [] m h = unfold lines in refl
  read_lines-meta_lines ((k, v) ∷ es) m h =
      let (no_newline, no_equals, plain) = h.0 in
      let prefix = Lacks-append b'\n' (codes "meta:") k (omega arith) no_newline in
      ap (λ ls. read_lines format ls m)
        (lines-field_line (codes "meta:" ++ k) v (meta_lines es) prefix plain)
      ∙ ap (read_lines format (lines (meta_lines es))) (read_line-meta k v m no_equals)
      ∙ read_lines-meta_lines es (format.set_meta k v m) h.1
