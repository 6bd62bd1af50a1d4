-- ===== src/Worker/Config/Reading.antt =====
-- What `loadConfig` makes of a line with a key and a value.
use rdma_ai_platform.Common.{
  ◌≤◌, set, ap, ◌∙◌, some, if◌then◌else◌, ℕ, ◌^◌, ◌<◌, ◌≡◌, refl, sym, ◌≢◌, false, [], ◌∷◌, ◌++◌,
  arith, All, All-append,
}
use mathlib.Core.Path.{ap₂}
use rdma_ai_platform.Common.Int.{ℤ, pos}
use rdma_ai_platform.Text.Decimal.{to_string, to_string-IsDigit, IsDigit, to_string-ne-nil}
use rdma_ai_platform.Text.Lines.{lines, lines-append}
use rdma_ai_platform.Text.Trimmed.{
  IsTrimmed, trim_both-IsTrimmed, trim_both-led, IsTrimmed-append, IsTrimmed-all,
}
use rdma_ai_platform.Text.{Text, is_empty, split_at, split_at-Lacks, split_at-none, Lacks}
use rdma_ai_platform.Worker.Config.Number.{parse_int-to_string}
use rdma_ai_platform.Worker.Config.{
  with_int, WorkerConfig, is_blank, trim, strip_comment, read_entry, read_line, read_lines, set_key,
  parse_int,
}

-- A line of the file, and what follows it.
abbrev pub line : Text → Text → Text → Text
line key value rest = (key ++ b':' ∷ b' ' ∷ value) ++ b'\n' ∷ rest

-- A text that a line can hold: of one line, with no comment sign and no blank at either end.
pub record IsValue (v : Text) : Type 0 where
  pub one_line : Lacks b'\n' v
  pub no_comment : Lacks b'#' v
  pub trimmed : IsTrimmed is_blank v

digits-inked : (s : Text) → All IsDigit s → All (λ c. is_blank c ≡ false) s
digits-inked [] h = tt
digits-inked (c ∷ cs) h = (ground arith, digits-inked cs h.1)

digits-Lacks : (k : ℕ) (s : Text) → k < 48 → All IsDigit s → Lacks k s
digits-Lacks k [] small h = tt
digits-Lacks k (c ∷ cs) small h = (λ e. omega arith, digits-Lacks k cs small h.1)

to_string-IsValue : (n : ℕ) → IsValue (to_string n)
to_string-IsValue n = record {
  one_line = digits-Lacks b'\n' (to_string n) (omega arith) (to_string-IsDigit n);
  no_comment = digits-Lacks b'#' (to_string n) (omega arith) (to_string-IsDigit n);
  trimmed =
      IsTrimmed-all is_blank (to_string n) (to_string-ne-nil n)
        (digits-inked (to_string n) (to_string-IsDigit n));
}

-- A key of the file: it starts with no blank and has neither a colon, a comment sign nor a newline.
pub record IsKey (k : ℕ) (ks : Text) : Type 0 where
  inked : is_blank k ≡ false
  trimmed : IsTrimmed is_blank (k ∷ ks)
  no_colon : Lacks b':' (k ∷ ks)
  no_comment : Lacks b'#' (k ∷ ks)
  one_line : Lacks b'\n' (k ∷ ks)

Lacks-line :
    (c : ℕ) (key value : Text)
    → Lacks c key
    → c ≢ b':'
    → c ≢ b' '
    → Lacks c value
    → Lacks c (key ++ b':' ∷ b' ' ∷ value)
Lacks-line c key value k colon blank v =
    All-append (λ x. x ≢ c) key (b':' ∷ b' ' ∷ value) k
      (λ e. colon (sym e), (λ e. blank (sym e), v))

read_entry-split :
    (key value rest : Text) (c : WorkerConfig)
    → split_at b':' rest ≡ some (key, value)
    → read_entry rest c ≡ set_key (trim key) (trim value) c
unfolding read_entry
read_entry-split key value rest c e = rw (e, read_entry) refl

pub read_line-entry :
    (k : ℕ) (ks value : Text) (c : WorkerConfig)
    → IsKey k ks
    → IsValue value
    → read_line ((k ∷ ks) ++ b':' ∷ b' ' ∷ value) c ≡ set_key (k ∷ ks) value c
unfolding read_line strip_comment trim read_entry
read_line-entry k ks value c key v =
    let l = (k ∷ ks) ++ b':' ∷ b' ' ∷ value in
    let bare : strip_comment l ≡ l =
      rw
        (
          split_at-none b'#' l (
              Lacks-line b'#' (k ∷ ks) value key.no_comment (λ e. omega arith) (λ e. omega arith)
                v.no_comment),
          strip_comment,
        )
        refl in
    let trimmed : trim l ≡ l = trim_both-IsTrimmed is_blank l (
      IsTrimmed-append is_blank k ks (b':' ∷ b' ' ∷ value) key.inked
        (IsTrimmed-append is_blank b':' (b' ' ∷ []) value refl v.trimmed)) in
    let split = split_at-Lacks b':' (k ∷ ks) (b' ' ∷ value) key.no_colon in
    let named : trim (k ∷ ks) ≡ k ∷ ks = trim_both-IsTrimmed is_blank (k ∷ ks) key.trimmed in
    let valued : trim (b' ' ∷ value) ≡ value = trim_both-led is_blank b' ' value refl v.trimmed in
    ap (λ t. if is_empty t then some c else read_entry t c) (ap trim bare ∙ trimmed)
    ∙ read_entry-split (k ∷ ks) (b' ' ∷ value) l c split
    ∙ ap₂ (λ a b. set_key a b c) named valued

-- The lines of the file in turn.
pub read_lines-line :
    (k : ℕ) (ks value rest : Text) (c c' : WorkerConfig)
    → IsKey k ks
    → IsValue value
    → set_key (k ∷ ks) value c ≡ some c'
    → read_lines (lines (line (k ∷ ks) value rest)) c ≡ read_lines (lines rest) c'
unfolding read_lines
read_lines-line k ks value rest c c' key v e =
    let first_line = lines-append ((k ∷ ks) ++ b':' ∷ b' ' ∷ value) rest (
      Lacks-line b'\n' (k ∷ ks) value key.one_line (λ e. omega arith) (λ e. omega arith)
        v.one_line) in
    let got = read_line-entry k ks value c key v ∙ e in
    ap (λ ls. read_lines ls c) first_line ∙ rw (got, read_lines) refl

-- A key of lower letters and underlines.
abbrev pub IsKeyByte : ℕ → Type 0
IsKeyByte c = (95 ≤ c) × (c ≤ 122)

key-inked : (s : Text) → All IsKeyByte s → All (λ c. is_blank c ≡ false) s
key-inked [] h = tt
key-inked (c ∷ cs) h = (ground arith, key-inked cs h.1)

key-Lacks : (k : ℕ) (s : Text) → k < 95 → All IsKeyByte s → Lacks k s
key-Lacks k [] small h = tt
key-Lacks k (c ∷ cs) small h = (λ e. omega arith, key-Lacks k cs small h.1)

pub bytes-IsKey : (k : ℕ) (ks : Text) → All IsKeyByte (k ∷ ks) → IsKey k ks
bytes-IsKey k ks h = record {
  inked = (key-inked (k ∷ ks) h).0;
  trimmed = IsTrimmed-all is_blank (k ∷ ks) (λ e. cc) (key-inked (k ∷ ks) h);
  no_colon = key-Lacks b':' (k ∷ ks) (omega arith) h;
  no_comment = key-Lacks b'#' (k ∷ ks) (omega arith) h;
  one_line = key-Lacks b'\n' (k ∷ ks) (omega arith) h;
}

-- A line with a number.
pub read_lines-number :
    (k : ℕ) (ks rest : Text) (n : ℕ) (c c' : WorkerConfig)
    → All IsKeyByte (k ∷ ks)
    → (parse_int (to_string n) ≡ some (pos n) → set_key (k ∷ ks) (to_string n) c ≡ some c')
    → n < 2 ^ 31
    → read_lines (lines (line (k ∷ ks) (to_string n) rest)) c ≡ read_lines (lines rest) c'
read_lines-number k ks rest n c c' key set small =
    read_lines-line k ks (to_string n) rest c c' (bytes-IsKey k ks key) (to_string-IsValue n)
      (set (parse_int-to_string n small))

pub set_number :
    (s : Text) (n : ℕ) (set : ℤ → WorkerConfig)
    → parse_int s ≡ some (pos n)
    → with_int s set ≡ some (set (pos n))
set_number s n set e = rw (e, with_int) refl
