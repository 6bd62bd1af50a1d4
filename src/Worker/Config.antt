-- ===== src/Worker/Config.antt =====
-- The configuration of worker/src/worker_node.cpp: `trim`, `parseInt` and `loadConfig`. The
-- file is its text, or nothing when it cannot be opened. `std::stoi` is modelled as the standard
-- describes it in the C locale, for an `int` of 32 bits.
pub mod Number
pub mod Loading
pub mod Reading
pub mod RoundTrip
use rdma_ai_platform.Common.Int.{ℤ, pos, neg_ℕ, is_nonpositive}
use rdma_ai_platform.Common.{
  ◌-◌, ◌^◌, Bool, true, false, not, ◌&&◌, ◌||◌, Option, none, some, List, [], ◌∷◌, set, leb, ◌==◌,
  if◌then◌else◌, ℕ,
}
use rdma_ai_platform.Text.Decimal.{value_from}
use rdma_ai_platform.Text.Lines.{lines}
use rdma_ai_platform.Text.Trim.{drop_while, span, trim_both}
use rdma_ai_platform.Text.{Text, codes, text_eq, is_empty, split_at}

-- " \t\r\n".
abbrev pub is_blank : ℕ → Bool
is_blank c = c == b' ' || c == b'\t' || c == b'\r' || c == b'\n'

unfoldable pub trim : Text → Text
trim = trim_both is_blank

-- `std::isspace`: a blank, a vertical tab or a form feed.
abbrev pub is_space : ℕ → Bool
is_space c = is_blank c || c == 11 || c == 12

abbrev pub is_digit : ℕ → Bool
is_digit c = leb b'0' c && leb c b'9'

-- The digits behind a sign: the number that they make, if there is one and it is at most `limit`,
-- and what follows them.
unfoldable pub stoi_digits : ℕ → (ℕ → ℤ) → Text × Text → Option (ℤ × Text)
stoi_digits limit sign ([], rest) = none
stoi_digits limit sign (c ∷ cs, rest) =
    if leb (value_from 0 (c ∷ cs)) limit then some (sign (value_from 0 (c ∷ cs)), rest) else none

unfoldable pub stoi_sign : Text → Option (ℤ × Text)
unfolding stoi_digits
stoi_sign [] = none
stoi_sign (c ∷ cs) =
    if c == b'-'
    then stoi_digits (2 ^ 31) neg_ℕ (span is_digit cs)
    else if c == b'+'
    then stoi_digits (2 ^ 31 - 1) pos (span is_digit cs)
    else stoi_digits (2 ^ 31 - 1) pos (span is_digit (c ∷ cs))

-- `std::stoi`: the number and the text behind it, or nothing for its exceptions.
unfoldable pub stoi : Text → Option (ℤ × Text)
unfolding stoi_sign
stoi text = stoi_sign (drop_while is_space text)

-- `parseInt`: the value, or nothing for `false`, where the variable keeps its value.
unfoldable pub parse_int : Text → Option ℤ
unfolding stoi
parse_int text = elim (stoi text) [
  | none ↦ none
  | some (parsed, rest) ↦ if is_empty rest then some parsed else none
]

pub record WorkerConfig : Type 0 where
  pub worker_id : Text
  pub listen_port : ℤ
  pub scheduler_addr : Text
  pub heartbeat_interval : ℤ
  pub threads : ℤ

abbrev pub default_config : WorkerConfig
default_config = record {
  worker_id = codes "worker-1";
  listen_port = pos 9001;
  scheduler_addr = codes "127.0.0.1:8080";
  heartbeat_interval = pos 5;
  threads = pos 4;
}

-- `line.substr(0, line.find('#'))`.
unfoldable pub strip_comment : Text → Text
strip_comment line = elim (split_at b'#' line) [ none ↦ line | some (before, _) ↦ before ]

-- A number for a field, or the early `return false`.
abbrev pub with_int : Text → (ℤ → WorkerConfig) → Option WorkerConfig
with_int value set = elim (parse_int value) [ none ↦ none | some n ↦ some (set n) ]

-- The chain of tests on the key; an unknown key is passed over.
unfoldable pub set_key : Text → Text → WorkerConfig → Option WorkerConfig
set_key key value c =
    if text_eq key (codes "worker_id")
    then some (record c { worker_id = value })
    else if text_eq key (codes "listen_port")
    then with_int value (λ n. record c { listen_port = n })
    else if text_eq key (codes "scheduler_addr")
    then some (record c { scheduler_addr = value })
    else if text_eq key (codes "heartbeat_interval")
    then with_int value (λ n. record c { heartbeat_interval = n })
    else if text_eq key (codes "threads")
    then with_int value (λ n. record c { threads = n })
    else some c

-- A line that is neither empty nor a comment.
unfoldable pub read_entry : Text → WorkerConfig → Option WorkerConfig
unfolding set_key trim
read_entry line c = elim (split_at b':' line) [
  | none ↦ none
  | some (key, value) ↦ set_key (trim key) (trim value) c
]

-- The body of the loop.
unfoldable pub read_line : Text → WorkerConfig → Option WorkerConfig
unfolding read_entry strip_comment trim
read_line line c =
    let trimmed = trim (strip_comment line) in
    if is_empty trimmed then some c else read_entry trimmed c

unfoldable pub read_lines : List Text → WorkerConfig → Option WorkerConfig
read_lines [] c = some c
read_lines (l ∷ ls) c = elim (read_line l c) [ none ↦ none | some c' ↦ read_lines ls c' ]

-- The tests behind the loop.
unfoldable pub is_valid : WorkerConfig → Bool
is_valid c =
    not (is_empty c.worker_id)
    && not (is_nonpositive c.listen_port)
    && not (is_empty c.scheduler_addr)
    && not (is_nonpositive c.heartbeat_interval)
    && not (is_nonpositive c.threads)

-- The last tests and the assignment to `config_`.
unfoldable pub accept : WorkerConfig → Option WorkerConfig → WorkerConfig × Bool
unfolding is_valid
accept c none = (c, false)
accept c (some loaded) = if is_valid loaded then (loaded, true) else (c, false)

unfoldable pub load_config : Option Text → WorkerConfig → WorkerConfig × Bool
unfolding accept
load_config none c = (c, false)
load_config (some text) c = accept c (read_lines (lines text) c)
