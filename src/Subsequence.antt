-- ===== src/Subsequence.antt =====
-- What is left of a list when some entries are struck out.
use rdma_ai_platform.Common.{List, [], ◌∷◌, ◌++◌}

pub data Subsequence {ℓ} {A : Type ℓ} : List A → List A → Type ℓ where
  done : (ys : List A) → Subsequence [] ys
  keep : {x : A} {xs ys : List A} → Subsequence xs ys → Subsequence (x ∷ xs) (x ∷ ys)
  skip : {y : A} {xs ys : List A} → Subsequence xs ys → Subsequence xs (y ∷ ys)

module _ {ℓ} {A : Type ℓ} where
  pub Subsequence-refl : (xs : List A) → Subsequence xs xs
  Subsequence-refl [] = done []
  Subsequence-refl (x ∷ xs) = keep (Subsequence-refl xs)

  pub Subsequence-trans :
      {xs ys zs : List A} → Subsequence xs ys → Subsequence ys zs → Subsequence xs zs
  Subsequence-trans (done ys) q = done _
  Subsequence-trans p (skip q) = skip (Subsequence-trans p q)
  Subsequence-trans (keep p) (keep q) = keep (Subsequence-trans p q)
  Subsequence-trans (skip p) (keep q) = skip (Subsequence-trans p q)

  pub Subsequence-prefix :
      (ps : List A) {xs ys : List A} → Subsequence xs ys → Subsequence (ps ++ xs) (ps ++ ys)
  Subsequence-prefix [] p = p
  Subsequence-prefix (x ∷ ps) p = keep (Subsequence-prefix ps p)

  skip_all : (ys : List A) {xs zs : List A} → Subsequence xs zs → Subsequence xs (ys ++ zs)
  skip_all [] p = p
  skip_all (y ∷ ys) p = skip (skip_all ys p)

  pub Subsequence-suffix :
      (ps : List A) {xs ys : List A} → Subsequence xs ys → Subsequence (xs ++ ps) (ys ++ ps)
  Subsequence-suffix ps (done ys) = skip_all ys (Subsequence-refl ps)
  Subsequence-suffix ps (keep p) = keep (Subsequence-suffix ps p)
  Subsequence-suffix ps (skip p) = skip (Subsequence-suffix ps p)
