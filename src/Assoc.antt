-- ===== src/Assoc.antt =====
-- `std::unordered_map` and `std::unordered_set` keyed by strings, as lists of entries. The order
-- of the entries stands for the unspecified iteration order.
use rdma_ai_platform.Common.{
  ◌+◌, ◌≤◌, ◌≡◌, refl, Bool, false, ◌||◌, List, [], ◌∷◌, ◌++◌, Option, none, some, arith,
  if◌then◌else◌, length,
}
use rdma_ai_platform.Text.{Text, text_eq, text_eq_iff, text_eq_refl}

abbrev pub Assoc {ℓ} : Type ℓ → Type ℓ
Assoc V = List (Text × V)

abbrev pub or_else {ℓ} : {V : Type ℓ} → Option V → V → V
or_else none d = d
or_else (some v) d = v

module _ {ℓ} {V : Type ℓ} where
  -- `find`.
  unfoldable pub find : Text → Assoc V → Option V
  find k [] = none
  find k ((j, v) ∷ m) = if text_eq j k then some v else find k m

  -- `m[k] = v`.
  unfoldable pub assign : Text → V → Assoc V → Assoc V
  assign k v [] = (k, v) ∷ []
  assign k v ((j, w) ∷ m) = if text_eq j k then (j, v) ∷ m else (j, w) ∷ assign k v m

  -- `emplace` and `try_emplace`: an entry that is there stays.
  unfoldable pub emplace : Text → V → Assoc V → Assoc V
  emplace k v [] = (k, v) ∷ []
  emplace k v ((j, w) ∷ m) = if text_eq j k then (j, w) ∷ m else (j, w) ∷ emplace k v m

  -- `erase`.
  unfoldable pub erase : Text → Assoc V → Assoc V
  erase k [] = []
  erase k ((j, w) ∷ m) = let rest = erase k m in if text_eq j k then rest else (j, w) ∷ rest

  pub find-assign :
      (k j : Text) (v : V) (m : Assoc V)
      → find j (assign k v m) ≡ (if text_eq k j then some v else find j m)
  unfolding find assign
  find-assign k j v [] = refl
  find-assign k j v ((i, w) ∷ m) =
      ground (arith, text_eq_iff k j, text_eq_iff i k, text_eq_iff i j, find-assign k j v m)

  pub find-emplace :
      (k j : Text) (v : V) (m : Assoc V)
      → find j (emplace k v m) ≡ (if text_eq k j then some (or_else (find k m) v) else find j m)
  unfolding find emplace
  find-emplace k j v [] = refl
  find-emplace k j v ((i, w) ∷ m) =
      ground (arith, text_eq_iff k j, text_eq_iff i k, text_eq_iff i j, find-emplace k j v m)

  pub find-erase :
      (k j : Text) (m : Assoc V) → find j (erase k m) ≡ (if text_eq k j then none else find j m)
  unfolding find erase
  find-erase k j [] = ground arith
  find-erase k j ((i, w) ∷ m) =
      ground (arith, text_eq_iff k j, text_eq_iff i k, text_eq_iff i j, find-erase k j m)

  pub length-erase-le : (k : Text) (m : Assoc V) → length (erase k m) ≤ length m
  unfolding erase
  length-erase-le k [] = omega arith
  length-erase-le k ((j, w) ∷ m) = ground (arith, length-erase-le k m)

  -- A new key makes the map larger by one.
  pub length-emplace :
      (k : Text) (v : V) (m : Assoc V) → find k m ≡ none → length (emplace k v m) ≡ length m + 1
  unfolding find emplace
  length-emplace k v [] h = omega arith
  length-emplace k v ((j, w) ∷ m) h = ground (arith, length-emplace k v m)

  pub find-assign_self : (k : Text) (v : V) (m : Assoc V) → find k (assign k v m) ≡ some v
  find-assign_self k v m = simp (find-assign, text_eq_refl)

  pub find-assign_ne :
      (k j : Text) (v : V) (m : Assoc V) → text_eq k j ≡ false → find j (assign k v m) ≡ find j m
  find-assign_ne k j v m h = simp (find-assign, h)

  pub find-emplace_new :
      (k : Text) (v : V) (m : Assoc V) → find k m ≡ none → find k (emplace k v m) ≡ some v
  find-emplace_new k v m h = simp (find-emplace, text_eq_refl, h)

-- `contains` of a set, and `std::find(...) != end()` of a sequence.
unfoldable pub contains : Text → List Text → Bool
contains k [] = false
contains k (j ∷ s) = text_eq j k || contains k s

-- `insert` of a set.
unfoldable pub insert : Text → List Text → List Text
insert k [] = k ∷ []
insert k (j ∷ s) = if text_eq j k then j ∷ s else j ∷ insert k s

-- `erase` of a set.
unfoldable pub remove : Text → List Text → List Text
remove k [] = []
remove k (j ∷ s) = let rest = remove k s in if text_eq j k then rest else j ∷ rest

pub contains-insert :
    (k j : Text) (s : List Text) → contains j (insert k s) ≡ (text_eq k j || contains j s)
unfolding contains insert
contains-insert k j [] = ground arith
contains-insert k j (i ∷ s) =
    ground (arith, text_eq_iff k j, text_eq_iff i k, text_eq_iff i j, contains-insert k j s)

pub contains-remove :
    (k j : Text) (s : List Text)
    → contains j (remove k s) ≡ (if text_eq k j then false else contains j s)
unfolding contains remove
contains-remove k j [] = ground arith
contains-remove k j (i ∷ s) =
    ground (arith, text_eq_iff k j, text_eq_iff i k, text_eq_iff i j, contains-remove k j s)

pub contains-concat :
    (k j : Text) (s : List Text) → contains j (s ++ k ∷ []) ≡ (contains j s || text_eq k j)
unfolding contains
contains-concat k j [] = ground arith
contains-concat k j (i ∷ s) = ground (arith, contains-concat k j s)

-- No string stands twice.
abbrev pub IsDistinct : List Text → Type 0
IsDistinct [] = Unit
IsDistinct (x ∷ xs) = (contains x xs ≡ false) × IsDistinct xs

pub insert-IsDistinct : (k : Text) (s : List Text) → IsDistinct s → IsDistinct (insert k s)
unfolding insert contains
insert-IsDistinct k [] h = (refl, tt)
insert-IsDistinct k (j ∷ s) h =
    ground
      (arith, text_eq_iff j k, text_eq_iff k j, contains-insert k j s, insert-IsDistinct k s h.1)

pub remove-IsDistinct : (k : Text) (s : List Text) → IsDistinct s → IsDistinct (remove k s)
unfolding remove
remove-IsDistinct k [] h = tt
remove-IsDistinct k (j ∷ s) h = ground (arith, contains-remove k j s, remove-IsDistinct k s h.1)

pub concat-IsDistinct :
    (k : Text) (s : List Text) → contains k s ≡ false → IsDistinct s → IsDistinct (s ++ k ∷ [])
unfolding contains
concat-IsDistinct k [] c h = (refl, tt)
concat-IsDistinct k (j ∷ s) c h =
    ground (arith, text_eq_iff j k, text_eq_iff k j, contains-concat k j s, concat-IsDistinct k s)
