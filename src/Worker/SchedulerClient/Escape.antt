-- ===== src/Worker/SchedulerClient/Escape.antt =====
-- The escaped text against a reader of JSON strings.
use rdma_ai_platform.Common.{
  ltb, not, ◌&&◌, ◌||◌, ◌≡◌, refl, ap, ◌∙◌, Bool, true, false, Option, none, some, [], ◌∷◌, ◌++◌,
  append_assoc, arith, ◌==◌, if◌then◌else◌, ℕ,
}
use rdma_ai_platform.Text.{Text}
use rdma_ai_platform.Worker.SchedulerClient.{escape_byte, escape_json_string}

-- The byte that an escape stands for.
abbrev pub escaped_byte : ℕ → Option ℕ
escaped_byte c =
    if c == b'\\'
    then some b'\\'
    else if c == b'"'
    then some b'"'
    else if c == b'/'
    then some b'/'
    else if c == b'b'
    then some 8
    else if c == b'f'
    then some 12
    else if c == b'n'
    then some b'\n'
    else if c == b'r'
    then some b'\r'
    else if c == b't'
    then some b'\t'
    else none

abbrev pub onto : ℕ → Option (Text × Text) → Option (Text × Text)
onto c none = none
onto c (some (s, rest)) = some (c ∷ s, rest)

-- A reader of the inside of a JSON string without `\u` escapes: the value up to the closing quote,
-- and the text behind the quote. As RFC 8259 has it, a control byte below 32 may not stand in it.
-- The flag says that a backslash stands before.
pub read_string : Bool → Text → Option (Text × Text)
read_string escaped [] = none
read_string true (c ∷ cs) = elim (escaped_byte c) [
  | none ↦ none
  | some d ↦ onto d (read_string false cs)
]
read_string false (c ∷ cs) =
    let rest = read_string false cs in
    let behind = read_string true cs in
    if c == b'"'
    then some ([], cs)
    else if c == b'\\'
    then behind
    else if ltb c 32
    then none
    else onto c rest

-- Whether a byte is no control byte but those that `escapeJSONString` escapes.
abbrev pub is_plain : ℕ → Bool
is_plain c = not (ltb c 32) || c == b'\n' || c == b'\r' || c == b'\t'

abbrev pub all_plain : Text → Bool
all_plain [] = true
all_plain (c ∷ cs) = is_plain c && all_plain cs

read_string-escape_byte :
    (c : ℕ) (rest : Text)
    → read_string false (escape_byte c ++ rest)
      ≡ (if is_plain c then onto c (read_string false rest) else none)
unfolding read_string escape_byte
read_string-escape_byte c rest = ground arith

onto-chosen :
    (a b : Bool) (c : ℕ) (s rest : Text)
    → (if a then onto c (if b then some (s, rest) else none) else none)
      ≡ (if a && b then some (c ∷ s, rest) else none)
onto-chosen true true c s rest = refl
onto-chosen true false c s rest = refl
onto-chosen false b c s rest = refl

-- An escaped text between quotes is read back whole as a JSON string, and reading ends at the
-- closing quote, so that no text can close the string early, exactly if its only control bytes are
-- newlines, carriage returns and tabs; with any other it is no JSON string.
pub read_string-escape_json_string :
    (s rest : Text)
    → read_string false (escape_json_string s ++ b'"' ∷ rest)
      ≡ (if all_plain s then some (s, rest) else none)
unfolding escape_json_string
read_string-escape_json_string [] rest = unfold read_string in refl
read_string-escape_json_string (c ∷ s) rest =
    ap (read_string false) (append_assoc (escape_byte c) (escape_json_string s) (b'"' ∷ rest))
    ∙ read_string-escape_byte c (escape_json_string s ++ b'"' ∷ rest)
    ∙ ap (λ r. if is_plain c then onto c r else none) (read_string-escape_json_string s rest)
    ∙ onto-chosen (is_plain c) (all_plain s) c s rest
