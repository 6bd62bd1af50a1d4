-- ===== src/Text.antt =====
-- Byte strings: `std::string` as the list of its bytes, with the searches that the program makes.
pub mod Decimal
pub mod Lines
pub mod Trim
pub mod Trimmed
use Prim.Native.Char.{code}
use Prim.Native.String.{String}
use rdma_ai_platform.Common.{
  ℕ, suc, ◌+◌, ◌≡◌, ◌↔◌, refl, ap, Bool, true, false, ◌&&◌, List, [], ◌∷◌, ◌++◌, Option, none, some,
  arith, ◌==◌, if◌then◌else◌, All, ◌≢◌, Option-cases, inl, inr,
}

abbrev pub Text : Type 0
Text = List ℕ

-- The bytes of an ASCII literal. `String` has its own `[]` and `∷`.
abbrev pub codes : String → Text
codes String.[] = []
codes (String.◌∷◌ c s) = code c ∷ codes s

-- `operator==` on strings.
unfoldable pub text_eq : Text → Text → Bool
text_eq [] [] = true
text_eq (x ∷ xs) (y ∷ ys) = x == y && text_eq xs ys
text_eq _ _ = false

pub text_eq_iff : (a b : Text) → (text_eq a b ≡ true) ↔ (a ≡ b)
unfolding text_eq
text_eq_iff (x ∷ a) (y ∷ b) = ground (arith, text_eq_iff a b)
text_eq_iff _ _ = ground arith

pub text_eq_refl : (a : Text) → text_eq a a ≡ true
text_eq_refl a = (text_eq_iff a a).1 refl

-- `empty()`.
abbrev pub is_empty : Text → Bool
is_empty [] = true
is_empty (_ ∷ _) = false

-- `find(ch)` with the two `substr` that follow it: what stands before the first `ch` and what
-- stands behind it, or `none` for `npos`.
unfoldable pub split_at : ℕ → Text → Option (Text × Text)
split_at c [] = none
split_at c (x ∷ xs) =
    let rest = split_at c xs in
    if x == c then some ([], xs) else elim rest [ none ↦ none | some (a, b) ↦ some (x ∷ a, b) ]

-- `rfind(prefix, 0) == 0` with the `substr` behind the prefix.
unfoldable pub strip_prefix : Text → Text → Option Text
strip_prefix [] s = some s
strip_prefix (p ∷ ps) [] = none
strip_prefix (p ∷ ps) (x ∷ xs) = if x == p then strip_prefix ps xs else none

-- The byte does not stand in the text.
abbrev pub Lacks : ℕ → Text → Type 0
Lacks c = All (λ x. x ≢ c)

pub split_at-Lacks : (c : ℕ) (a b : Text) → Lacks c a → split_at c (a ++ c ∷ b) ≡ some (a, b)
unfolding split_at
split_at-Lacks c [] b h = ground arith
split_at-Lacks c (x ∷ a) b h = ground (arith, split_at-Lacks c a b h.1)

pub split_at-none : (c : ℕ) (a : Text) → Lacks c a → split_at c a ≡ none
unfolding split_at
split_at-none c [] h = refl
split_at-none c (x ∷ a) h = ground (arith, split_at-none c a h.1)

-- A split is a cut at the first occurrence.
pub split_at_sound :
    (c : ℕ) (s a b : Text) → split_at c s ≡ some (a, b) → (s ≡ a ++ c ∷ b) × Lacks c a
unfolding split_at
split_at_sound c [] a b h = cc
split_at_sound c (x ∷ s) [] b h = ground (arith, split_at_sound c s)
split_at_sound c (x ∷ s) (y ∷ a) b h = elim (Option-cases (split_at c s)) [
  | inl e ↦ ground arith
  | inr ((p, q), e) ↦ ground (arith, split_at_sound c s p q e)
]

pub split_at-none_sound : (c : ℕ) (s : Text) → split_at c s ≡ none → Lacks c s
unfolding split_at
split_at-none_sound c [] h = tt
split_at-none_sound c (x ∷ s) h = elim (Option-cases (split_at c s)) [
  | inl e ↦ ground (arith, split_at-none_sound c s)
  | inr ((a, b), e) ↦ ground arith
]

pub strip_prefix-append : (p s : Text) → strip_prefix p (p ++ s) ≡ some s
unfolding strip_prefix
strip_prefix-append [] s = refl
strip_prefix-append (x ∷ p) s = ground (arith, strip_prefix-append p s)
