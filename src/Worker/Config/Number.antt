-- ===== src/Worker/Config/Number.antt =====
-- `parseInt` reads the numbers that `std::to_string` writes.
use rdma_ai_platform.Common.Int.{ℤ, pos, negsuc, neg_ℕ}
use rdma_ai_platform.Common.{
  leb→le, if_true, if_false, some_inj, ◌-◌, sym, subst, inl, inr, leb, ◌==◌, Bool-cases,
  Option-cases, zero, suc, ◌^◌, ◌≤◌, ◌<◌, ◌≡◌, refl, ap, ◌∙◌, ◌≢◌, true, some, [], ◌∷◌, arith, All,
  ℕ,
}
use rdma_ai_platform.Text.Decimal.{
  to_string, to_string-IsDigit, IsDigit, value-to_string, to_string-ne-nil, value_from,
}
use rdma_ai_platform.Text.Trim.{drop_while, span_all}
use rdma_ai_platform.Text.{Text, is_empty}
use rdma_ai_platform.Worker.Config.{is_digit, is_space, stoi_digits, stoi_sign, stoi, parse_int}

All-is_digit : (s : Text) → All IsDigit s → All (λ c. is_digit c ≡ true) s
All-is_digit [] h = tt
All-is_digit (c ∷ cs) h = (ground arith, All-is_digit cs h.1)

parse_int-digits :
    (s : Text)
    → s ≢ []
    → All IsDigit s
    → value_from 0 s < 2 ^ 31
    → parse_int s ≡ some (pos (value_from 0 s))
unfolding parse_int drop_while
parse_int-digits [] ne h small = absurd (ne refl)
parse_int-digits (c ∷ cs) ne h small =
    ground (arith, span_all is_digit (c ∷ cs) (All-is_digit (c ∷ cs) h))

-- Every number from 0 to 2^31 - 1 is read back from its decimal form.
pub parse_int-to_string : (n : ℕ) → n < 2 ^ 31 → parse_int (to_string n) ≡ some (pos n)
parse_int-to_string n h =
    parse_int-digits (to_string n) (to_string-ne-nil n) (to_string-IsDigit n)
      (omega (arith, value-to_string n))
    ∙ ap (λ k. some (pos k)) (value-to_string n)

-- The integers of 32 bits.
abbrev pub IsInt : ℤ → Type 0
IsInt (pos n) = n < 2 ^ 31
IsInt (negsuc n) = n < 2 ^ 31

neg_ℕ-IsInt : (n : ℕ) → n ≤ 2 ^ 31 → IsInt (neg_ℕ n)
neg_ℕ-IsInt zero h = omega arith
neg_ℕ-IsInt (suc n) h = omega arith

stoi_digits-IsInt :
    (limit : ℕ) (sign : ℕ → ℤ) (d : Text × Text) {v : ℤ} {rest : Text}
    → ((n : ℕ) → n ≤ limit → IsInt (sign n))
    → stoi_digits limit sign d ≡ some (v, rest)
    → IsInt v
unfolding stoi_digits
stoi_digits-IsInt limit sign ([], r) good h = cc
stoi_digits-IsInt limit sign (c ∷ cs, r) good h =
    elim (Bool-cases (leb (value_from 0 (c ∷ cs)) limit)) [
      | inl fits ↦
          subst IsInt (ap (λ (p : ℤ × Text). p.0) (some_inj (sym (if_true _ _ _ fits) ∙ h)))
            (good (value_from 0 (c ∷ cs)) (leb→le _ limit fits))
      | inr long ↦ cc (sym (if_false _ _ _ long) ∙ h)
    ]

stoi_sign-IsInt : (s : Text) {v : ℤ} {rest : Text} → stoi_sign s ≡ some (v, rest) → IsInt v
unfolding stoi_sign
stoi_sign-IsInt [] h = cc
stoi_sign-IsInt (c ∷ cs) h = elim (Bool-cases (c == b'-')) [
  | inl minus ↦ stoi_digits-IsInt (2 ^ 31) neg_ℕ _ neg_ℕ-IsInt (sym (if_true _ _ _ minus) ∙ h)
  | inr other ↦ elim (Bool-cases (c == b'+')) [
    | inl plus ↦
        stoi_digits-IsInt (2 ^ 31 - 1) pos _ (λ n le. omega arith)
          (sym (if_false _ _ _ other ∙ if_true _ _ _ plus) ∙ h)
    | inr digit ↦
        stoi_digits-IsInt (2 ^ 31 - 1) pos _ (λ n le. omega arith)
          (sym (if_false _ _ _ other ∙ if_false _ _ _ digit) ∙ h)
  ]
]

-- Whatever is read is an integer of 32 bits: a longer number is refused and does not wrap.
pub parse_int-IsInt : (s : Text) {v : ℤ} → parse_int s ≡ some v → IsInt v
unfolding parse_int stoi
parse_int-IsInt s {v} h = elim (Option-cases (stoi s)) [
  | inl e ↦ cc (rw (e, parse_int) at h)
  | inr ((parsed, rest), e) ↦ elim (Bool-cases (is_empty rest)) [
    | inl all ↦
        subst IsInt (some_inj (rw all at (rw (e, parse_int) at h)))
          (stoi_sign-IsInt (drop_while is_space s) e)
    | inr left ↦ cc (rw left at (rw (e, parse_int) at h))
  ]
]
