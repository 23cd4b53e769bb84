-- ===== src/Decimal/Sign.antt =====
-- Signs: which operations keep a value at zero or above, whatever the rounding.
use strategy_adapter.Prelude.{
  Bool-cases, inl, inr, nat_beq, nat_beq_iff, ◌≡◌, ◌↔◌, true, false, arith,
}
use strategy_adapter.Decimal.{
  of_nat, lt?, le?, is_zero, Decimal, of_nat, neg_part, round, digits, abs, le?, ◌+ᵈ◌, ◌*ᵈ◌,
  quotient,
}

-- A value of zero or more: its negative part is 0.
abbrev pub IsNonneg : Decimal → Type 0
IsNonneg d = neg_part d ≡ 0

-- Rounding keeps the sign.
negative-round : (d : Decimal) → (round d).negative ≡ d.negative
unfolding round
negative-round d = ground arith

le_zero : (d : Decimal) → d.magnitude ≡ 0 → le? d (of_nat 0) ≡ true
unfolding le?
le_zero d h = ground (arith, h)

-- What is above zero is not zero.
pub gt_zero-is_zero : (d : Decimal) → lt? (of_nat 0) d ≡ true → is_zero d ≡ false
unfolding lt? is_zero
gt_zero-is_zero d h = elim (Bool-cases (nat_beq d.magnitude 0)) [
  | inl zero_digits ↦
      let nothing = rw (le_zero d ((nat_beq_iff d.magnitude 0).0 zero_digits)) at h in cc
  | inr other ↦ other
]

-- Nothing is lost of a zero.
round-zero : (d : Decimal) → d.magnitude ≡ 0 → (round d).magnitude ≡ 0
unfolding round digits
round-zero d h = rw h (ground arith)

pub round-IsNonneg : (d : Decimal) → IsNonneg d → IsNonneg (round d)
round-IsNonneg d h = ground (arith, negative-round d, round-zero d)

pub abs-IsNonneg : (d : Decimal) → IsNonneg (abs d)
unfolding abs
abs-IsNonneg d = round-IsNonneg _ (ground arith)

pub add-IsNonneg : (a b : Decimal) → IsNonneg a → IsNonneg b → IsNonneg (a +ᵈ b)
unfolding ◌+ᵈ◌
add-IsNonneg a b ha hb = round-IsNonneg _ (rw (ha, hb) (ground arith))

pub mul-IsNonneg : (a b : Decimal) → IsNonneg a → IsNonneg b → IsNonneg (a *ᵈ b)
unfolding ◌*ᵈ◌
mul-IsNonneg a b ha hb = round-IsNonneg _ (ground arith)

pub quotient-IsNonneg : (a b : Decimal) → IsNonneg a → b.negative ≡ false → IsNonneg (quotient a b)
unfolding quotient
quotient-IsNonneg a b ha hb = round-IsNonneg _ (rw hb (ground arith))

-- The test `0 <= d` is the predicate.
pub IsNonneg-iff : (d : Decimal) → (le? (of_nat 0) d ≡ true) ↔ IsNonneg d
unfolding le?
IsNonneg-iff d = (λ h. ground arith, λ h. ground arith)

pub negative-abs : (d : Decimal) → (abs d).negative ≡ false
unfolding abs
negative-abs d = negative-round _
