-- ===== src/Decimal.antt =====
-- Python's `decimal.Decimal` under the default context (28 digits, ROUND_HALF_EVEN), which every
-- amount of the program is: sign, magnitude and a scale, the value being ±magnitude / 10^scale.
-- A positive exponent is written out in the magnitude; the limits on the exponent are not modelled.
pub mod Sign
pub mod Order
use Prim.Native.Nat.{max}
use strategy_adapter.Prelude.{
  ℕ, zero, suc, ◌+◌, ◌-◌, ◌*◌, ◌/◌, ◌%◌, ◌^◌, Bool, true, false, not, ◌&&◌, ◌||◌, Option, none,
  some, List, [], ◌∷◌, ltb, leb, nat_beq, if◌then◌else◌,
}

pub record Decimal : Type 0 where
  pub negative : Bool
  pub magnitude : ℕ
  pub scale : ℕ

-- the sum of the digits before the sign: a value is (pos_part - neg_part) / 10^scale
abbrev pub pos_part : Decimal → ℕ
pos_part d = if d.negative then 0 else d.magnitude

abbrev pub neg_part : Decimal → ℕ
neg_part d = if d.negative then d.magnitude else 0

-- `Decimal("n")`
abbrev pub of_nat : ℕ → Decimal
of_nat n = record { negative = false; magnitude = n; scale = 0 }

-- `Decimal("-n")`
abbrev pub of_neg : ℕ → Decimal
of_neg n = record { negative = true; magnitude = n; scale = 0 }

-- the number n / 10^s, as the literal `Decimal("0.0005")`
abbrev pub of_scaled : ℕ → ℕ → Decimal
of_scaled n s = record { negative = false; magnitude = n; scale = s }

abbrev pub precision : ℕ
precision = 28

-- the number of decimal digits; the fuel `m` is more than a division by ten needs
count_digits : ℕ → ℕ → ℕ
count_digits zero m = 1
count_digits (suc f) m = elim (ltb m 10) [ true ↦ 1 | false ↦ suc (count_digits f (m / 10)) ]

unfoldable pub digits : ℕ → ℕ
unfolding count_digits
digits m = count_digits m m

-- m / 10^k to the nearest integer, a tie to the even one
unfoldable pub round_half_even : ℕ → ℕ → ℕ
round_half_even m k =
    let q = m / 10 ^ k in
    let r = m % 10 ^ k in
    if ltb (10 ^ k) (2 * r) || (nat_beq (2 * r) (10 ^ k) && nat_beq (q % 2) 1) then q + 1 else q

-- Keeps 28 significant digits.
unfoldable pub round : Decimal → Decimal
round d =
    let n = digits d.magnitude in
    let k = n - precision in
    if leb n precision
    then d
    else if leb k d.scale
    then record d { magnitude = round_half_even d.magnitude k; scale = d.scale - k }
    else record d { magnitude = round_half_even d.magnitude k * 10 ^ (k - d.scale); scale = 0 }

-- the exact sum p - n over 10^s
abbrev signed : ℕ → ℕ → ℕ → Decimal
signed p n s =
    if leb n p
    then record { negative = false; magnitude = p - n; scale = s }
    else record { negative = true; magnitude = n - p; scale = s }

infixl 65 ◌+ᵈ◌ ◌-ᵈ◌
infixl 70 ◌*ᵈ◌
unfoldable pub ◌+ᵈ◌ : Decimal → Decimal → Decimal
a +ᵈ b =
    let s = max a.scale b.scale in
    let u = 10 ^ (s - a.scale) in
    let v = 10 ^ (s - b.scale) in
    round (signed (pos_part a * u + pos_part b * v) (neg_part a * u + neg_part b * v) s)

unfoldable pub ◌-ᵈ◌ : Decimal → Decimal → Decimal
a -ᵈ b =
    let s = max a.scale b.scale in
    let u = 10 ^ (s - a.scale) in
    let v = 10 ^ (s - b.scale) in
    round (signed (pos_part a * u + neg_part b * v) (neg_part a * u + pos_part b * v) s)

abbrev differ : Bool → Bool → Bool
differ true b = not b
differ false b = b

unfoldable pub ◌*ᵈ◌ : Decimal → Decimal → Decimal
a *ᵈ b = round (record {
  negative = differ a.negative b.negative;
  magnitude = a.magnitude * b.magnitude;
  scale = a.scale + b.scale;
})

-- `-a`; the minus of a zero is a plain zero
unfoldable pub neg : Decimal → Decimal
neg a = round (record a { negative = not a.negative && not (nat_beq a.magnitude 0) })

-- `abs(a)`
unfoldable pub abs : Decimal → Decimal
abs a = round (record a { negative = false })

unfoldable pub is_zero : Decimal → Bool
is_zero a = nat_beq a.magnitude 0

-- 29 digits of the quotient, the last one made odd if a remainder is left, and then 28.
unfoldable pub quotient : Decimal → Decimal → Decimal
quotient a b =
    let wide = digits b.magnitude + precision + 1 in
    let up = wide - digits a.magnitude in
    let down = digits a.magnitude - wide in
    let num = a.magnitude * 10 ^ up in
    let den = b.magnitude * 10 ^ down in
    let q = num / den in
    let sticky = if nat_beq (num % den) 0 then q else if nat_beq (q % 5) 0 then q + 1 else q in
    let above = a.scale + up in
    let below = b.scale + down in
    round (record {
      negative = differ a.negative b.negative;
      magnitude = sticky * 10 ^ (below - above);
      scale = above - below;
    })

-- a / b; a zero divisor raises (`DivisionByZero` or `InvalidOperation`)
unfoldable pub divide? : Decimal → Decimal → Option Decimal
divide? a b = if is_zero b then none else some (quotient a b)

-- `a.quantize(Decimal("0.000001"))`; more than 28 digits raise `InvalidOperation`
unfoldable pub quantize_6? : Decimal → Option Decimal
quantize_6? a =
    let m =
      if leb a.scale 6
      then a.magnitude * 10 ^ (6 - a.scale)
      else round_half_even a.magnitude (a.scale - 6) in
    if leb (digits m) precision then some (record a { magnitude = m; scale = 6 }) else none

-- `a <= b`, by cross multiplication
unfoldable pub le? : Decimal → Decimal → Bool
le? a b =
    leb (pos_part a * 10 ^ b.scale + neg_part b * 10 ^ a.scale)
      (pos_part b * 10 ^ a.scale + neg_part a * 10 ^ b.scale)

-- `a < b`
unfoldable pub lt? : Decimal → Decimal → Bool
lt? a b = not (le? b a)

-- `a == b`, of values
unfoldable pub eq? : Decimal → Decimal → Bool
eq? a b = le? a b && le? b a

-- `max(a, b)` and `min(a, b)`, the first of two equal values
unfoldable pub max_of : Decimal → Decimal → Decimal
max_of a b = if lt? a b then b else a

unfoldable pub min_of : Decimal → Decimal → Decimal
min_of a b = if lt? b a then b else a

-- `sum(xs, Decimal("0"))`
sum_from : Decimal → List Decimal → Decimal
sum_from acc [] = acc
sum_from acc (x ∷ xs) = sum_from (acc +ᵈ x) xs

unfoldable pub sum : List Decimal → Decimal
unfolding sum_from
sum = sum_from (of_nat 0)

-- The names that a run on concrete amounts has to see through, for an `unfolding` line.
unfoldable pub arithmetic : Unit {0}
unfolding digits round_half_even round ◌+ᵈ◌ ◌-ᵈ◌ ◌*ᵈ◌ neg abs is_zero quotient divide? quantize_6?
    le? lt? eq? max_of min_of sum
arithmetic = tt
