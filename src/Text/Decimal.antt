-- ===== src/Text/Decimal.antt =====
-- `std::to_string` of an unsigned number, and the value of a run of digits.
use mathlib.Core.List.{concat-ne-nil}
use rdma_ai_platform.Common.{
  ◌≢◌, ℕ, zero, suc, ◌+◌, ◌-◌, ◌*◌, ◌/◌, ◌%◌, ◌<◌, ◌≤◌, ◌≡◌, refl, sym, ap, ◌∙◌, [], ◌∷◌, ◌++◌, inl,
  inr, arith, ltb, if◌then◌else◌, Bool-cases, All, All-append,
}
use rdma_ai_platform.Text.{Text}

-- The digits of `n`, the most significant first. A number has at most as many digits as fuel when
-- it is below the fuel.
print : ℕ → ℕ → Text
print zero n = []
print (suc f) n =
    let more = print f (n / 10) ++ (n % 10 + 48) ∷ [] in if ltb n 10 then (n + 48) ∷ [] else more

unfoldable pub to_string : ℕ → Text
unfolding print
to_string n = print (suc n) n

-- The number that a run of digits stands for, read on from `acc`.
unfoldable pub value_from : ℕ → Text → ℕ
value_from acc [] = acc
value_from acc (c ∷ cs) = value_from (acc * 10 + (c - 48)) cs

value_from-concat :
    (acc : ℕ) (a : Text) (c : ℕ) → value_from acc (a ++ c ∷ []) ≡ value_from acc a * 10 + (c - 48)
unfolding value_from
value_from-concat acc [] c = refl
value_from-concat acc (x ∷ a) c = value_from-concat (acc * 10 + (x - 48)) a c

value_from-print : (f n : ℕ) → n < f → value_from 0 (print f n) ≡ n
unfolding print
value_from-print zero n h = elim h [ ]
value_from-print (suc f) n h = elim (Bool-cases (ltb n 10)) [
  | inl small ↦ rw (small, print) (unfold value_from in omega arith)
  | inr big ↦ rw (big, print) (rw value_from-concat (ground (arith, value_from-print f (n / 10))))
]

-- Printing and reading back gives the number.
pub value-to_string : (n : ℕ) → value_from 0 (to_string n) ≡ n
unfolding to_string
value-to_string n = value_from-print (suc n) n (omega arith)

-- So no two numbers are printed alike.
pub to_string_inj : (m n : ℕ) → to_string m ≡ to_string n → m ≡ n
to_string_inj m n e = sym (value-to_string m) ∙ ap (value_from 0) e ∙ value-to_string n

abbrev pub IsDigit : ℕ → Type 0
IsDigit c = (48 ≤ c) × (c ≤ 57)

print-IsDigit : (f n : ℕ) → All IsDigit (print f n)
unfolding print
print-IsDigit zero n = tt
print-IsDigit (suc f) n = elim (Bool-cases (ltb n 10)) [
  | inl small ↦ rw (small, print) (ground arith)
  | inr big ↦ rw (big, print) (All-append IsDigit _ _ (print-IsDigit f (n / 10)) (omega arith))
]

pub to_string-IsDigit : (n : ℕ) → All IsDigit (to_string n)
unfolding to_string
to_string-IsDigit n = print-IsDigit (suc n) n

to_string_1080 : to_string 1080 ≡ 49 ∷ 48 ∷ 56 ∷ 48 ∷ []
unfolding to_string
to_string_1080 = refl

print-ne-nil : (f n : ℕ) → print (suc f) n ≢ []
unfolding print
print-ne-nil f n h = elim (Bool-cases (ltb n 10)) [
  | inl small ↦ cc (rw (small, print) at h)
  | inr big ↦ concat-ne-nil _ _ (rw (big, print) at h)
]

pub to_string-ne-nil : (n : ℕ) → to_string n ≢ []
unfolding to_string
to_string-ne-nil n = print-ne-nil n n
