-- ===== src/Worker/Http/Status.antt =====
-- Receiving a response and reading its status.
use rdma_ai_platform.Common.Int.{pos}
use rdma_ai_platform.Common.{
  All-append, ◌≡◌, refl, ap, ◌∙◌, sym, ◌≢◌, Bool, true, false, some, List, [], ◌∷◌, ◌++◌, arith, ℕ,
  ◌<◌, ◌^◌, append-nil, append_assoc, All,
}
use rdma_ai_platform.Text.Decimal.{
  value-to_string, to_string-ne-nil, to_string-IsDigit, to_string, IsDigit, value_from,
}
use rdma_ai_platform.Text.Trim.{drop_while, span}
use rdma_ai_platform.Text.{Text, Lacks, strip_prefix}
use rdma_ai_platform.Worker.Config.{is_digit, is_space}
use rdma_ai_platform.Worker.Http.{
  status_of, Answer, chunk, closed, interrupted, completed, recv_loop, first_line, read_digits,
  read_int, is_word, read_status,
}

-- The answers of `recv` that deliver a text and the end of the stream behind it.
pub data Delivers : List Answer → Text → Type 0 where
  ends : (rs : List Answer) → Delivers (closed ∷ rs) []
  brings :
      {rs : List Answer} {s : Text} (c : Text) → Delivers rs s → Delivers (chunk c ∷ rs) (c ++ s)
  retries : {rs : List Answer} {s : Text} → Delivers rs s → Delivers (interrupted ∷ rs) s

pub recv_loop-Delivers :
    {rs : List Answer} {s : Text} (response : Text)
    → Delivers rs s
    → recv_loop rs response ≡ (completed, response ++ s)
unfolding recv_loop
recv_loop-Delivers response (ends rs) = ap (λ r. (completed, r)) (sym (append-nil response))
recv_loop-Delivers response (brings {rs} {s} c more) =
    recv_loop-Delivers (response ++ c) more ∙ ap (λ r. (completed, r)) (append_assoc response c s)
recv_loop-Delivers response (retries more) = recv_loop-Delivers response more

first_line-Lacks : (l rest : Text) → Lacks b'\r' l → first_line (l ++ b'\r' ∷ b'\n' ∷ rest) ≡ some l
unfolding first_line strip_prefix
first_line-Lacks [] rest h = refl
first_line-Lacks (c ∷ l) rest h = ground (arith, first_line-Lacks l rest h.1)

-- A run of characters ends at the first that is not of its kind.
span_stops :
    (p : ℕ → Bool) (s : Text) (c : ℕ) (rest : Text)
    → All (λ x. p x ≡ true) s
    → p c ≡ false
    → span p (s ++ c ∷ rest) ≡ (s, c ∷ rest)
unfolding span
span_stops p [] c rest h e = ground arith
span_stops p (x ∷ s) c rest h e = ground (arith, span_stops p s c rest h.1 e)

All-is_digit : (s : Text) → All IsDigit s → All (λ c. is_digit c ≡ true) s
All-is_digit [] h = tt
All-is_digit (c ∷ cs) h = (ground arith, All-is_digit cs h.1)

-- Digits followed by a blank are read as their number.
read_int-digits :
    (s rest : Text)
    → s ≢ []
    → All IsDigit s
    → value_from 0 s < 2 ^ 31
    → read_int (drop_while is_space (b' ' ∷ (s ++ b' ' ∷ rest))) ≡ pos (value_from 0 s)
unfolding read_int drop_while read_digits
read_int-digits [] rest ne h small = absurd (ne refl)
read_int-digits (c ∷ s) rest ne h small =
    ground (arith, span_stops is_digit (c ∷ s) b' ' rest (All-is_digit (c ∷ s) h) refl)

-- A protocol version: one word.
pub record IsVersion (version : Text) : Type 0 where
  pub some_word : version ≢ []
  pub word : All (λ c. is_word c ≡ true) version
  pub line : Lacks b'\r' version

read_status-version :
    (version rest : Text)
    → IsVersion version
    → read_status (version ++ b' ' ∷ rest) ≡ read_int (drop_while is_space (b' ' ∷ rest))
unfolding read_status drop_while
read_status-version [] rest v = absurd (v.some_word refl)
read_status-version (c ∷ version) rest v =
    ground (arith, v.word, span_stops is_word (c ∷ version) b' ' rest v.word refl)

digits-Lacks : (s : Text) → All IsDigit s → Lacks b'\r' s
digits-Lacks [] h = tt
digits-Lacks (c ∷ s) h = ((λ e. absurd (omega arith)), digits-Lacks s h.1)

-- A status line and its status.
abbrev pub status_line : Text → ℕ → Text → Text
status_line version code reason = version ++ b' ' ∷ (to_string code ++ b' ' ∷ reason)

status_line-Lacks :
    (version : Text) (code : ℕ) (reason : Text)
    → IsVersion version
    → Lacks b'\r' reason
    → Lacks b'\r' (status_line version code reason)
status_line-Lacks version code reason v h =
    All-append (λ x. x ≢ b'\r') version (b' ' ∷ (to_string code ++ b' ' ∷ reason)) v.line
      (
        (λ e. absurd (omega arith)),
        All-append (λ x. x ≢ b'\r') (to_string code) (b' ' ∷ reason)
            (digits-Lacks (to_string code) (to_string-IsDigit code))
            ((λ e. absurd (omega arith)), h),
      )

-- A response that begins with a version, a status code, a reason and the end of the line has that
-- status, whatever stands behind.
pub status_of_lem :
    (version : Text) (code : ℕ) (reason rest : Text)
    → IsVersion version
    → code < 2 ^ 31
    → Lacks b'\r' reason
    → status_of (status_line version code reason ++ b'\r' ∷ b'\n' ∷ rest) ≡ pos code
unfolding status_of
status_of_lem version code reason rest v small h =
    let cut =
      first_line-Lacks (status_line version code reason) rest
        (status_line-Lacks version code reason v h) in
    rw (cut, status_of)
      (read_status-version version (to_string code ++ b' ' ∷ reason) v
        ∙ read_int-digits (to_string code) reason (to_string-ne-nil code) (to_string-IsDigit code)
            (omega (arith, value-to_string code))
        ∙ ap pos (value-to_string code))
