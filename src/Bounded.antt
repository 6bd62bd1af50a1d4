-- ===== src/Bounded.antt =====
-- A queue that drops its oldest entry when it is full: the completion queue and the mailboxes of
-- the transport hold their entries so. A capacity of zero stands for no bound.
use rdma_ai_platform.Common.{
  length-drop, ◌∙◌, ℕ, zero, suc, ◌-◌, ◌<◌, ◌≤◌, ◌≡◌, refl, ap, ◌&&◌, List, [], ◌∷◌, ◌++◌, arith,
  ltb, leb, if◌then◌else◌, length, length-append, tail, drop, append_assoc, append-nil, sym, dec_lt,
}

module _ {ℓ} {A : Type ℓ} where
  unfoldable pub push_bounded : ℕ → A → List A → List A
  push_bounded capacity x xs =
      if ltb 0 capacity && leb capacity (length xs) then tail xs ++ x ∷ [] else xs ++ x ∷ []

  -- The last `n` entries.
  abbrev pub keep_last : ℕ → List A → List A
  keep_last n xs = drop (length xs - n) xs

  pub length-tail : (xs : List A) → length (tail xs) ≡ length xs - 1
  length-tail [] = refl
  length-tail (x ∷ xs) = omega arith

  -- A bound is kept, and an entry more stands in the queue unless it was full.
  pub length-push_bounded :
      (n : ℕ) (x : A) (xs : List A)
      → 0 < n
      → length xs ≤ n
      → (length (push_bounded n x xs) ≤ n) × (0 < length (push_bounded n x xs))
  unfolding push_bounded
  length-push_bounded n x xs pos h =
      ground (arith, length-append xs (x ∷ []), length-append (tail xs) (x ∷ []), length-tail xs)

  unfoldable pub push_all : ℕ → List A → List A → List A
  push_all n [] xs = xs
  push_all n (y ∷ ys) xs = push_all n ys (push_bounded n y xs)

  drop-append : (n : ℕ) (xs ys : List A) → n ≤ length xs → drop n (xs ++ ys) ≡ drop n xs ++ ys
  drop-append zero xs ys h = refl
  drop-append (suc n) [] ys h = elim h [ ]
  drop-append (suc n) (x ∷ xs) ys h = drop-append n xs ys (omega arith)

  tail-drop : (n : ℕ) (xs : List A) → tail (drop n xs) ≡ drop (suc n) xs
  tail-drop zero [] = refl
  tail-drop zero (x ∷ xs) = refl
  tail-drop (suc n) [] = refl
  tail-drop (suc n) (x ∷ xs) = tail-drop n xs

  pub push_full :
      (n : ℕ) (x : A) (xs : List A)
      → 0 < n
      → n ≤ length xs
      → push_bounded n x xs ≡ tail xs ++ x ∷ []
  unfolding push_bounded
  push_full n x xs pos h = ground arith

  pub push_room : (n : ℕ) (x : A) (xs : List A) → length xs < n → push_bounded n x xs ≡ xs ++ x ∷ []
  unfolding push_bounded
  push_room n x xs h = ground arith

  -- The queue holds the last entries of all that was ever pushed.
  pub push_bounded-keep_last :
      (n : ℕ) (x : A) (all : List A)
      → 0 < n
      → push_bounded n x (keep_last n all) ≡ keep_last n (all ++ x ∷ [])
  push_bounded-keep_last n x all pos = elim (dec_lt (length all) n) [
    | yes h ↦
        let none_dropped : length all - n ≡ 0 = omega arith in
        let still : length (all ++ x ∷ []) - n ≡ 0 = omega (arith, length-append all (x ∷ [])) in
        rw (none_dropped, still) (push_room n x all h)
    | no h ↦
        let one_more : length (all ++ x ∷ []) - n ≡ suc (length all - n) =
          omega (arith, length-append all (x ∷ [])) in
        rw one_more (
          push_full n x _ pos (omega (arith, length-drop (length all - n) all))
          ∙ ap (λ ys. ys ++ x ∷ []) (tail-drop (length all - n) all)
          ∙ sym (drop-append (suc (length all - n)) all (x ∷ []) (omega arith)))
  ]

  pub push_all-keep_last :
      (n : ℕ) (ys all : List A) → 0 < n → push_all n ys (keep_last n all) ≡ keep_last n (all ++ ys)
  unfolding push_all
  push_all-keep_last n [] all pos = rw append-nil
  push_all-keep_last n (y ∷ ys) all pos =
      rw (push_bounded-keep_last n y all pos, push_all-keep_last n ys (all ++ y ∷ []) pos)
        (ap (keep_last n) (append_assoc all (y ∷ []) ys))

  drop-nil : (n : ℕ) → drop {A = A} n [] ≡ []
  drop-nil zero = refl
  drop-nil (suc n) = refl

  -- From the empty queue on.
  pub push_all-nil : (n : ℕ) (ys : List A) → 0 < n → push_all n ys [] ≡ keep_last n ys
  push_all-nil n ys pos =
      ap (push_all n ys) (sym (drop-nil (0 - n))) ∙ push_all-keep_last n ys [] pos

  pub keep_last_all : (n : ℕ) (xs : List A) → length xs ≤ n → keep_last n xs ≡ xs
  keep_last_all n xs h = let e : length xs - n ≡ 0 = omega arith in rw e

  pub push_unbounded : (x : A) (xs : List A) → push_bounded 0 x xs ≡ xs ++ x ∷ []
  unfolding push_bounded
  push_unbounded x xs = refl

  -- A queue with no bound holds them all.
  pub push_all_unbounded : (ys xs : List A) → push_all 0 ys xs ≡ xs ++ ys
  unfolding push_all
  push_all_unbounded [] xs = sym (append-nil xs)
  push_all_unbounded (y ∷ ys) xs =
      ap (push_all 0 ys) (push_unbounded y xs)
      ∙ push_all_unbounded ys (xs ++ y ∷ [])
      ∙ append_assoc xs (y ∷ []) ys

  pub push_bounded-nil : (n : ℕ) (x : A) → push_bounded n x [] ≡ x ∷ []
  unfolding push_bounded
  push_bounded-nil n x = ground arith
