-- ===== src/Decimal/Order.antt =====
-- The order of decimals.
use strategy_adapter.Prelude.{◌≡◌, ◌⊎◌, true, false, arith}
use strategy_adapter.Decimal.{Decimal, le?, lt?}

pub le?-refl : (a : Decimal) → le? a a ≡ true
unfolding le?
le?-refl a = ground arith

pub le?-total : (a b : Decimal) → (le? a b ≡ true) ⊎ (le? b a ≡ true)
unfolding le?
le?-total a b = ground arith

pub le?_of_lt? : (a b : Decimal) → lt? a b ≡ true → le? a b ≡ true
unfolding lt?
le?_of_lt? a b h = ground (arith, le?-total a b)

pub le?_of_not_lt? : (a b : Decimal) → lt? a b ≡ false → le? b a ≡ true
unfolding lt?
le?_of_not_lt? a b h = ground arith
