-- ===== src/Benchmarks/TcpCompare/Loops.antt =====
-- The loops that send and receive.
use rdma_ai_platform.Common.{
  tail, length-drop, some_inj, ◌≤◌, false, All, take-drop, length-take, min, length-append, if_true,
  if_false, ℕ, zero, suc, ◌+◌, ◌-◌, ◌≡◌, refl, sym, ap, ◌∙◌, inl, inr, Option, none, some, List, [],
  ◌∷◌, ◌++◌, append-nil, append_assoc, arith, length, take, drop, ◌==◌, Bool-cases,
}
use rdma_ai_platform.Benchmarks.TcpCompare.{succeeded, Received, send_all, recv_all}
use rdma_ai_platform.Worker.Http.Sending.{Writes}
use rdma_ai_platform.Rdma.TransportRdma.Mailbox.{first}
use mathlib.Core.Path.{ap₂}
use rdma_ai_platform.Text.{Text}

pub send_all-succeeded :
    (answers : List (Option ℕ)) (rest stream : Text)
    → (send_all answers rest stream).progress ≡ succeeded
    → (send_all answers rest stream).stream ≡ stream ++ rest
unfolding send_all
send_all-succeeded answers [] stream h = sym (append-nil stream)
send_all-succeeded [] (c ∷ rest) stream h = cc
send_all-succeeded (none ∷ answers) (c ∷ rest) stream h = cc
send_all-succeeded (some zero ∷ answers) (c ∷ rest) stream h = cc
send_all-succeeded (some (suc n) ∷ answers) (c ∷ rest) stream h =
    send_all-succeeded answers (drop n rest) (stream ++ c ∷ take n rest) h
    ∙ append_assoc stream (c ∷ take n rest) (drop n rest)
    ∙ ap (λ t. stream ++ c ∷ t) (take-drop n rest)

-- The buffer and what is left of the stream are always what was there.
recv_all-kept :
    (answers : List (Option ℕ)) (missing : ℕ) (buffer stream : Text)
    → let r = recv_all answers missing buffer stream in r.buffer ++ r.stream ≡ buffer ++ stream
unfolding recv_all
recv_all-kept answers zero buffer stream = refl
recv_all-kept [] (suc k) buffer stream = refl
recv_all-kept (none ∷ answers) (suc k) buffer stream = refl
recv_all-kept (some n ∷ answers) (suc k) buffer stream =
    let bytes = take (min n (suc k)) stream in
    let left = drop (min n (suc k)) stream in
    let ih = recv_all-kept answers (suc k - length bytes) (buffer ++ bytes) left in
    elim (Bool-cases (length bytes == 0)) [
      | inl closed ↦ ap (λ (r : Received). r.buffer ++ r.stream) (if_true _ _ _ closed)
      | inr more ↦
          ap (λ (r : Received). r.buffer ++ r.stream) (if_false _ _ _ more)
          ∙ ih
          ∙ append_assoc buffer bytes left
          ∙ ap (λ t. buffer ++ t) (take-drop (min n (suc k)) stream)
    ]

recv_all-length :
    (answers : List (Option ℕ)) (missing : ℕ) (buffer stream : Text)
    → (recv_all answers missing buffer stream).progress ≡ succeeded
    → length (recv_all answers missing buffer stream).buffer ≡ length buffer + missing
unfolding recv_all
recv_all-length answers zero buffer stream h = omega arith
recv_all-length [] (suc k) buffer stream h = cc
recv_all-length (none ∷ answers) (suc k) buffer stream h = cc
recv_all-length (some n ∷ answers) (suc k) buffer stream h =
    let bytes = take (min n (suc k)) stream in
    let left = drop (min n (suc k)) stream in
    elim (Bool-cases (length bytes == 0)) [
      | inl closed ↦ cc
      | inr more ↦
          let e : recv_all (some n ∷ answers) (suc k) buffer stream
              ≡ recv_all answers (suc k - length bytes) (buffer ++ bytes) left =
            if_false _ _ _ more in
          let ih =
            recv_all-length answers (suc k - length bytes) (buffer ++ bytes) left
              (ap (λ (r : Received). r.progress) (sym e) ∙ h) in
          omega (
            arith,
            ap (λ (r : Received). length r.buffer) e,
            ih,
            length-append buffer bytes,
            length-take (min n (suc k)) stream,
          )
    ]

prefix_all {ℓ} : {A : Type ℓ} (xs ys zs : List A) → xs ++ ys ≡ zs → length xs ≡ length zs → xs ≡ zs
prefix_all [] ys [] e h = refl
prefix_all [] ys (z ∷ zs) e h = absurd (omega arith)
prefix_all (x ∷ xs) ys [] e h = absurd (omega arith)
prefix_all (x ∷ xs) ys (z ∷ zs) e h =
    let e' : xs ++ ys ≡ zs = ap tail e in
    let ih = prefix_all xs ys zs e' (omega arith) in
    let same : x ≡ z = some_inj (ap first e) in ap₂ (λ a l. a ∷ l) same ih

-- As many bytes as the stream has, when the loop succeeds, are the stream.
pub recv_all-succeeded :
    (answers : List (Option ℕ)) (n : ℕ) (stream : Text)
    → length stream ≡ n
    → (recv_all answers n [] stream).progress ≡ succeeded
    → (recv_all answers n [] stream).buffer ≡ stream
recv_all-succeeded answers n stream size h =
    prefix_all _ (recv_all answers n [] stream).stream stream (recv_all-kept answers n [] stream)
      (omega (arith, recv_all-length answers n [] stream h))

-- Enough calls that send or receive something let the loops succeed.
pub send_all-enough :
    (answers : List (Option ℕ)) (rest stream : Text)
    → All Writes answers
    → length rest ≤ length answers
    → (send_all answers rest stream).progress ≡ succeeded
unfolding send_all
send_all-enough answers [] stream w h = refl
send_all-enough [] (c ∷ rest) stream w h = absurd (omega arith)
send_all-enough (none ∷ answers) (c ∷ rest) stream w h = absurd w.0
send_all-enough (some zero ∷ answers) (c ∷ rest) stream w h = absurd (omega arith)
send_all-enough (some (suc n) ∷ answers) (c ∷ rest) stream w h =
    send_all-enough answers (drop n rest) (stream ++ c ∷ take n rest) w.1
      (omega (arith, length-drop n rest))

pub recv_all-enough :
    (answers : List (Option ℕ)) (missing : ℕ) (buffer stream : Text)
    → All Writes answers
    → missing ≤ length answers
    → missing ≤ length stream
    → (recv_all answers missing buffer stream).progress ≡ succeeded
unfolding recv_all
recv_all-enough answers zero buffer stream w h there = refl
recv_all-enough [] (suc k) buffer stream w h there = absurd (omega arith)
recv_all-enough (none ∷ answers) (suc k) buffer stream w h there = absurd w.0
recv_all-enough (some n ∷ answers) (suc k) buffer stream w h there =
    let bytes = take (min n (suc k)) stream in
    let some_there : (length bytes == 0) ≡ false =
      ground (arith, length-take (min n (suc k)) stream, w.0) in
    ap (λ (r : Received). r.progress) (if_false _ _ _ some_there)
    ∙ recv_all-enough answers (suc k - length bytes) (buffer ++ bytes) (drop (min n (suc k)) stream)
        w.1 (omega (arith, length-take (min n (suc k)) stream, w.0))
        (omega (arith, length-take (min n (suc k)) stream, length-drop (min n (suc k)) stream))
