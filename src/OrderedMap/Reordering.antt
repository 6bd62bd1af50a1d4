-- ===== src/OrderedMap/Reordering.antt =====
-- Assignments to different keys of a `std::map` commute.
use rdma_ai_platform.Common.{sym, ap, ◌∙◌, refl, true, false, [], ◌∷◌, arith, ◌≡◌}
use rdma_ai_platform.OrderedMap.{
  assign_all, OrderedMap, text_lt, text_lt_asymm, text_lt_irrefl, assign,
}
use rdma_ai_platform.Text.{Text, text_eq, text_eq_iff}

pub text_lt_total : (a b : Text) → text_eq a b ≡ false → text_lt a b ≡ false → text_lt b a ≡ true
unfolding text_lt text_eq
text_lt_total [] [] e h = cc
text_lt_total (x ∷ a) [] e h = refl
text_lt_total [] (y ∷ b) e h = cc
text_lt_total (x ∷ a) (y ∷ b) e h = ground (arith, text_lt_total a b)

pub text_lt_trans : (a b c : Text) → text_lt a b ≡ true → text_lt b c ≡ true → text_lt a c ≡ true
unfolding text_lt
text_lt_trans a [] c h g = cc
text_lt_trans a (y ∷ b) [] h g = cc
text_lt_trans [] (y ∷ b) (z ∷ c) h g = refl
text_lt_trans (x ∷ a) (y ∷ b) (z ∷ c) h g = ground (arith, text_lt_trans a b c)

pub text_eq_comm : (a b : Text) → text_eq a b ≡ text_eq b a
unfolding text_eq
text_eq_comm [] [] = refl
text_eq_comm [] (y ∷ b) = refl
text_eq_comm (x ∷ a) [] = refl
text_eq_comm (x ∷ a) (y ∷ b) = ground (arith, text_eq_comm a b)

assign_comm_nil :
    (j v k w : Text) → text_eq j k ≡ false → assign j v (assign k w []) ≡ assign k w (assign j v [])
unfolding assign
assign_comm_nil j v k w ne =
    ground (arith, text_eq_comm j k, text_lt_asymm j k, text_lt_total j k ne)

assign_comm :
    (j v k w : Text) (m : OrderedMap)
    → text_eq j k ≡ false
    → assign j v (assign k w m) ≡ assign k w (assign j v m)
unfolding assign
assign_comm j v k w [] ne = assign_comm_nil j v k w ne
assign_comm j v k w ((i, u) ∷ m) ne = ground (
  arith,
  text_eq_comm j k,
  text_eq_iff i k,
  text_eq_iff i j,
  text_lt_asymm j k,
  text_lt_total j k ne,
  text_lt_irrefl j i,
  text_lt_irrefl k i,
  text_lt_trans j k i,
  text_lt_trans k j i,
  text_lt_total i j,
  text_lt_total i k,
  assign_comm j v k w m ne,
)

-- The same assignments in another order, in which those to one key keep theirs.
pub data Reordered : OrderedMap → OrderedMap → Type 0 where
  same : {es : OrderedMap} → Reordered es es
  swaps :
      {j v k w : Text} {es : OrderedMap}
      → text_eq j k ≡ false
      → Reordered ((j, v) ∷ (k, w) ∷ es) ((k, w) ∷ (j, v) ∷ es)
  later :
      {k v : Text} {es es' : OrderedMap} → Reordered es es' → Reordered ((k, v) ∷ es) ((k, v) ∷ es')
  follows : {es es' es'' : OrderedMap} → Reordered es es' → Reordered es' es'' → Reordered es es''

-- The map does not depend on the order of its assignments.
pub assign_all-Reordered :
    {es es' : OrderedMap} (m : OrderedMap) → Reordered es es' → assign_all es m ≡ assign_all es' m
unfolding assign_all
assign_all-Reordered m same = refl
assign_all-Reordered m (swaps {j} {v} {k} {w} {es} ne) =
    ap (assign_all es) (sym (assign_comm j v k w m ne))
assign_all-Reordered m (later {k} {v} r) = assign_all-Reordered (assign k v m) r
assign_all-Reordered m (follows r q) = assign_all-Reordered m r ∙ assign_all-Reordered m q
