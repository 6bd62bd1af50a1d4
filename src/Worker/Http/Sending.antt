-- ===== src/Worker/Http/Sending.antt =====
-- Sending a request in pieces.
use rdma_ai_platform.Common.{
  take-drop, length-drop, ◌≡◌, refl, ap, ◌∙◌, sym, Option, none, some, List, [], ◌∷◌, ◌++◌, arith,
  ℕ, ◌≤◌, ◌<◌, length, take, drop, append-nil, append_assoc, All,
}
use rdma_ai_platform.Text.{Text}
use rdma_ai_platform.Worker.Http.{completed, send_loop}

-- A `send` that writes at least one byte.
abbrev pub Writes : Option ℕ → Type 0
Writes none = ⊥
Writes (some n) = 0 < n

-- However many bytes each `send` takes, a loop that ends without an error has sent the text, each
-- byte once and in order, behind what was sent before.
pub send_loop-completed :
    (rest : Text) (sends : List (Option ℕ)) (wire : Text)
    → (send_loop rest sends wire).0 ≡ completed
    → (send_loop rest sends wire).1 ≡ wire ++ rest
unfolding send_loop
send_loop-completed [] sends wire h = sym (append-nil wire)
send_loop-completed (c ∷ rest) [] wire h = cc
send_loop-completed (c ∷ rest) (none ∷ sends) wire h = cc
send_loop-completed (c ∷ rest) (some n ∷ sends) wire h =
    send_loop-completed (drop n (c ∷ rest)) sends (wire ++ take n (c ∷ rest)) h
    ∙ append_assoc wire (take n (c ∷ rest)) (drop n (c ∷ rest))
    ∙ ap (◌++◌ wire) (take-drop n (c ∷ rest))

-- The loop ends when as many calls write something as there are bytes.
pub send_loop-enough :
    (rest : Text) (sends : List (Option ℕ)) (wire : Text)
    → All Writes sends
    → length rest ≤ length sends
    → (send_loop rest sends wire).0 ≡ completed
unfolding send_loop
send_loop-enough [] sends wire w h = refl
send_loop-enough (c ∷ rest) [] wire w h = absurd (omega arith)
send_loop-enough (c ∷ rest) (none ∷ sends) wire w h = absurd (w.0)
send_loop-enough (c ∷ rest) (some n ∷ sends) wire w h =
    send_loop-enough (drop n (c ∷ rest)) sends (wire ++ take n (c ∷ rest)) (w.1)
      (omega (arith, length-drop n (c ∷ rest)))
