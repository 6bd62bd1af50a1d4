-- ===== src/OrderedMap.antt =====
-- `std::map<std::string, std::string>`: entries in the order of their keys, which is that of the
-- bytes.
pub mod Reordering
pub mod Assigned
use rdma_ai_platform.Common.{
  inl, inr, Bool-cases, refl, ◌∙◌, true, false, ◌&&◌, ◌||◌, List, [], ◌∷◌, ◌++◌, append-nil,
  append_assoc, arith, All, ltb, ◌==◌, if◌then◌else◌, ◌≡◌, Bool,
}
use rdma_ai_platform.Text.{Text, text_eq, text_eq_iff}

abbrev pub OrderedMap : Type 0
OrderedMap = List (Text × Text)

-- `operator<` on strings.
unfoldable pub text_lt : Text → Text → Bool
text_lt a [] = false
text_lt [] (y ∷ b) = true
text_lt (x ∷ a) (y ∷ b) = ltb x y || (x == y && text_lt a b)

-- `m[k] = v`.
unfoldable pub assign : Text → Text → OrderedMap → OrderedMap
assign k v [] = (k, v) ∷ []
assign k v ((j, w) ∷ m) =
    if text_eq j k
    then (j, v) ∷ m
    else if text_lt k j
    then (k, v) ∷ (j, w) ∷ m
    else (j, w) ∷ assign k v m

unfoldable pub assign_all : OrderedMap → OrderedMap → OrderedMap
assign_all [] m = m
assign_all ((k, v) ∷ es) m = assign_all es (assign k v m)

pub text_lt_asymm : (a b : Text) → text_lt a b ≡ true → text_lt b a ≡ false
unfolding text_lt
text_lt_asymm [] [] h = cc
text_lt_asymm (x ∷ a) [] h = cc
text_lt_asymm [] (y ∷ b) h = refl
text_lt_asymm (x ∷ a) (y ∷ b) h = ground (arith, text_lt_asymm a b)

pub text_lt_irrefl : (a b : Text) → text_lt a b ≡ true → text_eq a b ≡ false
text_lt_irrefl a b h = elim (Bool-cases (text_eq a b)) [
  | inl same ↦ cc ((text_eq_iff a b).0 same, text_lt_asymm a b h)
  | inr other ↦ other
]

-- Every key of the map comes before `k`.
abbrev pub Before : Text → OrderedMap → Type 0
Before k = All (λ e. text_lt e.0 k ≡ true)

-- Every key comes before those behind it.
abbrev pub IsOrdered : OrderedMap → Type 0
IsOrdered [] = Unit
IsOrdered ((k, v) ∷ m) = All (λ e. text_lt k e.0 ≡ true) m × IsOrdered m

assign_last : (k v : Text) (m : OrderedMap) → Before k m → assign k v m ≡ m ++ (k, v) ∷ []
unfolding assign
assign_last k v [] h = refl
assign_last k v ((j, w) ∷ m) h =
    ground (arith, text_lt_asymm j k, text_lt_irrefl j k, assign_last k v m h.1)

Before-concat :
    (j k v : Text) (m : OrderedMap) → Before j m → text_lt k j ≡ true → Before j (m ++ (k, v) ∷ [])
Before-concat j k v [] h lt = (lt, tt)
Before-concat j k v (e ∷ m) h lt = (h.0, Before-concat j k v m h.1 lt)

-- Every key of `m` comes before every key of `es`.
abbrev AllBefore : OrderedMap → OrderedMap → Type 0
AllBefore m es = All (λ e. Before e.0 m) es

AllBefore-concat :
    (k v : Text) (m es : OrderedMap)
    → AllBefore m es
    → All (λ e. text_lt k e.0 ≡ true) es
    → AllBefore (m ++ (k, v) ∷ []) es
AllBefore-concat k v m [] h lt = tt
AllBefore-concat k v m ((j, w) ∷ es) h lt =
    (Before-concat j k v m h.0 lt.0, AllBefore-concat k v m es h.1 lt.1)

assign_all-append : (es m : OrderedMap) → IsOrdered es → AllBefore m es → assign_all es m ≡ m ++ es
unfolding assign_all
assign_all-append [] m o b = rw append-nil
assign_all-append ((k, v) ∷ es) m o b = rw (assign_last k v m b.0) (
    assign_all-append es (m ++ (k, v) ∷ []) o.1 (AllBefore-concat k v m es b.1 o.0)
    ∙ append_assoc m ((k, v) ∷ []) es)

AllBefore-nil : (es : OrderedMap) → AllBefore [] es
AllBefore-nil [] = tt
AllBefore-nil (e ∷ es) = (tt, AllBefore-nil es)

-- Assigning the entries of a map in order to an empty map gives that map.
pub assign_all-IsOrdered : (es : OrderedMap) → IsOrdered es → assign_all es [] ≡ es
assign_all-IsOrdered es o = assign_all-append es [] o (AllBefore-nil es)
