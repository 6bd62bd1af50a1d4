-- ===== src/Text/Lines.antt =====
-- The lines of a text, as a loop over `std::getline` reads them.
use rdma_ai_platform.Common.{◌≡◌, refl, List, [], ◌∷◌, ◌++◌, arith, ◌==◌, if◌then◌else◌, ℕ}
use rdma_ai_platform.Text.{Text, Lacks}

-- `std::getline` until it fails: the texts between the newlines, and what stands behind the last
-- one unless it is empty.
abbrev pub onto_first : ℕ → List Text → List Text
onto_first c [] = (c ∷ []) ∷ []
onto_first c (l ∷ ls) = (c ∷ l) ∷ ls

unfoldable pub lines : Text → List Text
lines [] = []
lines (c ∷ cs) = let rest = lines cs in if c == b'\n' then [] ∷ rest else onto_first c rest

pub lines-append : (l rest : Text) → Lacks b'\n' l → lines (l ++ b'\n' ∷ rest) ≡ l ∷ lines rest
unfolding lines
lines-append [] rest h = refl
lines-append (c ∷ l) rest h = ground (arith, lines-append l rest h.1)
