-- ===== src/Text/Trim.antt =====
-- Cutting a set of bytes off both ends of a text, and the runs at its front.
use mathlib.Core.List.{reverse}
use rdma_ai_platform.Common.{◌≡◌, refl, Bool, true, [], ◌∷◌, ◌++◌, arith, All, if◌then◌else◌, ℕ}
use rdma_ai_platform.Text.{Text}

-- The text from its first byte outside the set on: `find_first_not_of` with the `substr` behind it.
unfoldable pub drop_while : (ℕ → Bool) → Text → Text
drop_while p [] = []
drop_while p (c ∷ cs) = let rest = drop_while p cs in if p c then rest else c ∷ cs

-- The run of bytes in the set at the front, and what follows it.
unfoldable pub span : (ℕ → Bool) → Text → Text × Text
span p [] = ([], [])
span p (c ∷ cs) = let rest = span p cs in if p c then (c ∷ rest.0, rest.1) else ([], c ∷ cs)

-- Both ends are cut off.
unfoldable pub trim_both : (ℕ → Bool) → Text → Text
unfolding drop_while
trim_both p s = reverse (drop_while p (reverse (drop_while p s)))

pub span-append : (p : ℕ → Bool) (s : Text) → (span p s).0 ++ (span p s).1 ≡ s
unfolding span
span-append p [] = refl
span-append p (c ∷ cs) = ground (arith, span-append p cs)

-- A text all of whose bytes are in the set is one run.
pub span_all : (p : ℕ → Bool) (s : Text) → All (λ c. p c ≡ true) s → span p s ≡ (s, [])
unfolding span
span_all p [] h = refl
span_all p (c ∷ cs) h = ground (arith, span_all p cs h.1)
