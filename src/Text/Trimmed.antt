-- ===== src/Text/Trimmed.antt =====
-- Texts that trimming leaves alone.
use rdma_ai_platform.Common.{
  if_true, if_false, ℕ, ◌≡◌, refl, sym, ap, ◌∙◌, ◌≢◌, Bool, true, false, [], ◌∷◌, ◌++◌, All,
  All-append,
}
use mathlib.Core.List.{reverse, reverse-append, reverse-reverse, reverse-cons}
use rdma_ai_platform.Text.Trim.{drop_while, trim_both}
use rdma_ai_platform.Text.{Text}

-- A text that starts and ends with a byte outside the set.
pub record IsTrimmed (p : ℕ → Bool) (s : Text) : Type 0 where
  pub front : (x : ℕ) × (xs : Text) × (s ≡ x ∷ xs) × (p x ≡ false)
  pub back : (y : ℕ) × (ys : Text) × (reverse s ≡ y ∷ ys) × (p y ≡ false)

drop_while-kept : (p : ℕ → Bool) (x : ℕ) (xs : Text) → p x ≡ false → drop_while p (x ∷ xs) ≡ x ∷ xs
unfolding drop_while
drop_while-kept p x xs e = if_false _ _ _ e

drop_while-front : (p : ℕ → Bool) (s : Text) → IsTrimmed p s → drop_while p s ≡ s
drop_while-front p s t = let (x, xs, e, out) = t.front in rw e (drop_while-kept p x xs out)

drop_while-back : (p : ℕ → Bool) (s : Text) → IsTrimmed p s → drop_while p (reverse s) ≡ reverse s
drop_while-back p s t = let (y, ys, e, out) = t.back in rw e (drop_while-kept p y ys out)

pub trim_both-IsTrimmed : (p : ℕ → Bool) (s : Text) → IsTrimmed p s → trim_both p s ≡ s
unfolding trim_both
trim_both-IsTrimmed p s t =
    ap (λ r. reverse (drop_while p (reverse r))) (drop_while-front p s t)
    ∙ ap reverse (drop_while-back p s t)
    ∙ reverse-reverse s

-- Nor does a byte of the set before it change what is left.
pub trim_both-led :
    (p : ℕ → Bool) (c : ℕ) (s : Text) → p c ≡ true → IsTrimmed p s → trim_both p (c ∷ s) ≡ s
unfolding trim_both drop_while
trim_both-led p c s blank t =
    ap (λ r. reverse (drop_while p (reverse r))) (if_true _ _ _ blank) ∙ trim_both-IsTrimmed p s t

pub IsTrimmed-append :
    (p : ℕ → Bool) (x : ℕ) (a s : Text) → p x ≡ false → IsTrimmed p s → IsTrimmed p ((x ∷ a) ++ s)
IsTrimmed-append p x a s out t =
    let (y, ys, e, outside) = t.back in
    record {
      front = (x, a ++ s, refl, out);
      back = (
        y,
        ys ++ reverse (x ∷ a),
        reverse-append (x ∷ a) s ∙ ap (λ r. r ++ reverse (x ∷ a)) e,
        outside,
      );
    }

All-reverse : (P : ℕ → Type 0) (s : Text) → All P s → All P (reverse s)
All-reverse P [] h = tt
All-reverse P (x ∷ s) h =
    rw (reverse-cons x s) (All-append P (reverse s) (x ∷ []) (All-reverse P s h.1) (h.0, tt))

first_of :
    (P : ℕ → Type 0) (r s : Text)
    → r ≡ reverse s
    → s ≢ []
    → All P r
    → (y : ℕ) × (ys : Text) × (r ≡ y ∷ ys) × P y
first_of P [] s e ne h = absurd (ne (sym (reverse-reverse s) ∙ ap reverse (sym e)))
first_of P (y ∷ ys) s e ne h = (y, ys, refl, h.0)

-- A text of bytes outside the set.
pub IsTrimmed-all : (p : ℕ → Bool) (s : Text) → s ≢ [] → All (λ c. p c ≡ false) s → IsTrimmed p s
IsTrimmed-all p [] ne h = absurd (ne refl)
IsTrimmed-all p (x ∷ xs) ne h = record {
  front = (x, xs, refl, h.0);
  back =
      first_of (λ c. p c ≡ false) (reverse (x ∷ xs)) (x ∷ xs) refl ne
        (All-reverse (λ c. p c ≡ false) (x ∷ xs) h);
}
