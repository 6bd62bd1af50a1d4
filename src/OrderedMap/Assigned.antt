-- ===== src/OrderedMap/Assigned.antt =====
-- What assignments keep of a `std::map`: the order of its keys, and what holds of every entry.
use rdma_ai_platform.Common.{
  sym, subst, if_true, if_false, inl, inr, Bool-cases, true, [], ◌∷◌, arith, All, ◌≡◌,
}
use rdma_ai_platform.OrderedMap.{OrderedMap, IsOrdered, text_lt, assign, assign_all}
use rdma_ai_platform.OrderedMap.Reordering.{text_eq_comm, text_lt_total, text_lt_trans}
use rdma_ai_platform.Text.{Text, text_eq, text_eq_iff}

pub assign-All :
    (P : Text × Text → Type 0) (k v : Text) (m : OrderedMap)
    → P (k, v)
    → All P m
    → All P (assign k v m)
unfolding assign
assign-All P k v [] p h = (p, tt)
assign-All P k v ((j, w) ∷ m) p h = elim (Bool-cases (text_eq j k)) [
  | inl same ↦
      subst (All P) (sym (if_true _ _ _ same))
        (subst (λ i. P (i, v)) (sym ((text_eq_iff j k).0 same)) p, h.1)
  | inr other ↦ subst (All P) (sym (if_false _ _ _ other)) (elim (Bool-cases (text_lt k j)) [
    | inl before ↦ subst (All P) (sym (if_true _ _ _ before)) (p, h)
    | inr behind ↦ subst (All P) (sym (if_false _ _ _ behind)) (h.0, assign-All P k v m p h.1)
  ])
]

-- A key before the first one of an ordered map comes before all of them.
before_all :
    (k j : Text) (m : OrderedMap)
    → text_lt k j ≡ true
    → All (λ e. text_lt j e.0 ≡ true) m
    → All (λ e. text_lt k e.0 ≡ true) m
before_all k j [] lt h = tt
before_all k j (e ∷ m) lt h = (text_lt_trans k j e.0 lt h.0, before_all k j m lt h.1)

assign-IsOrdered : (k v : Text) (m : OrderedMap) → IsOrdered m → IsOrdered (assign k v m)
unfolding assign
assign-IsOrdered k v [] o = (tt, tt)
assign-IsOrdered k v ((j, w) ∷ m) o = elim (Bool-cases (text_eq j k)) [
  | inl same ↦ subst IsOrdered (sym (if_true _ _ _ same)) o
  | inr other ↦ subst IsOrdered (sym (if_false _ _ _ other)) (elim (Bool-cases (text_lt k j)) [
    | inl before ↦
        subst IsOrdered (sym (if_true _ _ _ before)) ((before, before_all k j m before o.0), o)
    | inr behind ↦ subst IsOrdered (sym (if_false _ _ _ behind)) (
      assign-All (λ e. text_lt j e.0 ≡ true) k v m
          (ground (arith, text_lt_total k j, text_eq_comm j k)) o.0,
      assign-IsOrdered k v m o.1,
    )
  ])
]

pub assign_all-All :
    (P : Text × Text → Type 0) (es m : OrderedMap) → All P es → All P m → All P (assign_all es m)
unfolding assign_all
assign_all-All P [] m p h = h
assign_all-All P ((k, v) ∷ es) m p h =
    assign_all-All P es (assign k v m) p.1 (assign-All P k v m p.0 h)

-- A map that assignments have made is ordered.
pub IsOrdered-assign_all : (es m : OrderedMap) → IsOrdered m → IsOrdered (assign_all es m)
unfolding assign_all
IsOrdered-assign_all [] m o = o
IsOrdered-assign_all ((k, v) ∷ es) m o =
    IsOrdered-assign_all es (assign k v m) (assign-IsOrdered k v m o)
