-- ===== src/Prelude/Int.antt =====
-- Integers over the native numbers, and Python's `int(text)`.
use Prim.Native.Char.{code}
use Prim.Native.String.{String}
use Prim.Native.Nat.{ℕ, zero, suc, ◌+◌, ◌-◌, ◌*◌}
use mathlib.Core.Bool.{Bool, true, false, not, ◌&&◌, ◌||◌}
use mathlib.Core.Option
use mathlib.Core.Option.{Option, none, some}
use mathlib.Core.List.{List, [], ◌∷◌, map}
use strategy_adapter.Prelude.Lists.{any, all}
use strategy_adapter.Prelude.Tests.{ltb, leb, nat_beq, if◌then◌else◌}

-- `negsuc n` is -(n + 1)
pub data ℤ : Type 0 where
  pos : ℕ → ℤ
  negsuc : ℕ → ℤ

abbrev pub pos_part : ℤ → ℕ
pos_part (pos n) = n
pos_part (negsuc n) = 0

abbrev pub neg_part : ℤ → ℕ
neg_part (pos n) = 0
neg_part (negsuc n) = suc n

-- the absolute value
abbrev pub nat_abs : ℤ → ℕ
nat_abs z = pos_part z + neg_part z

abbrev pub negate : ℕ → ℤ
negate zero = pos 0
negate (suc n) = negsuc n

-- a product with a natural number
abbrev pub scale : ℤ → ℕ → ℤ
scale (pos n) k = pos (n * k)
scale (negsuc n) k = negate (suc n * k)

-- `a < b`
abbrev pub ltb_ℤ : ℤ → ℤ → Bool
ltb_ℤ a b = ltb (pos_part a + neg_part b) (pos_part b + neg_part a)

-- the code points of a text
abbrev pub codes : String → List ℕ
codes String.[] = []
codes (String.◌∷◌ c s) = code c ∷ codes s

abbrev is_digit : ℕ → Bool
is_digit c = leb b'0' c && leb c b'9'

abbrev is_space : ℕ → Bool
is_space c = leb 9 c && leb c 13 || nat_beq c 32

-- the spaces of Unicode that are not ASCII
abbrev other_spaces : List ℕ
other_spaces =
    133 ∷ 160 ∷ 5760 ∷ 8192 ∷ 8193 ∷ 8194 ∷ 8195 ∷ 8196 ∷ 8197 ∷ 8198 ∷ 8199 ∷ 8200 ∷ 8201 ∷ 8202
    ∷ 8232 ∷ 8233 ∷ 8239 ∷ 8287 ∷ 12288 ∷ []

-- The zeros of Unicode's decimal digits that are not ASCII; the nine digits after a zero follow it.
abbrev other_zeros : List ℕ
other_zeros =
    1632 ∷ 1776 ∷ 1984 ∷ 2406 ∷ 2534 ∷ 2662 ∷ 2790 ∷ 2918 ∷ 3046 ∷ 3174 ∷ 3302 ∷ 3430 ∷ 3558 ∷ 3664
    ∷ 3792 ∷ 3872 ∷ 4160 ∷ 4240 ∷ 6112 ∷ 6160 ∷ 6470 ∷ 6608 ∷ 6784 ∷ 6800 ∷ 6992 ∷ 7088 ∷ 7232
    ∷ 7248 ∷ 42528 ∷ 43216 ∷ 43264 ∷ 43472 ∷ 43504 ∷ 43600 ∷ 44016 ∷ 65296 ∷ 66720 ∷ 68912 ∷ 69734
    ∷ 69872 ∷ 69942 ∷ 70096 ∷ 70384 ∷ 70736 ∷ 70864 ∷ 71248 ∷ 71360 ∷ 71472 ∷ 71904 ∷ 72016 ∷ 72784
    ∷ 73040 ∷ 73120 ∷ 92768 ∷ 92864 ∷ 93008 ∷ 120782 ∷ 120792 ∷ 120802 ∷ 120812 ∷ 120822 ∷ 123200
    ∷ 123632 ∷ 125264 ∷ 130032 ∷ []

abbrev digit_from : List ℕ → ℕ → Option ℕ
digit_from [] c = none
digit_from (z ∷ zs) c =
    let further = digit_from zs c in if leb z c && leb c (z + 9) then some (c - z) else further

abbrev ascii_of : Option ℕ → ℕ → ℕ
ascii_of none c = c
ascii_of (some digit) c = b'0' + digit

-- A space or a digit of any alphabet becomes its like in ASCII.
abbrev to_ascii : ℕ → ℕ
to_ascii c =
    if ltb c 128
    then c
    else if any (λ space. nat_beq space c) other_spaces
    then 32
    else ascii_of (digit_from other_zeros c) c

drop_spaces : List ℕ → List ℕ
drop_spaces [] = []
drop_spaces (c ∷ cs) = let rest = drop_spaces cs in if is_space c then rest else c ∷ cs

-- Digits, with single underscores between them, and spaces after them; `open_end` says that a digit
-- must come next.
digits_value : Bool → ℕ → List ℕ → Option ℕ
digits_value open_end acc [] = if open_end then none else some acc
digits_value open_end acc (c ∷ cs) =
    let digit = digits_value false (acc * 10 + (c - b'0')) cs in
    let underscore = digits_value true acc cs in
    if is_digit c
    then digit
    else if nat_beq c b'_' && not open_end
    then underscore
    else if all is_space (c ∷ cs) && not open_end
    then some acc
    else none

signed_value : List ℕ → Option ℤ
unfolding digits_value
signed_value [] = none
signed_value (c ∷ cs) =
    if nat_beq c b'-'
    then Option.map negate (digits_value true 0 cs)
    else if nat_beq c b'+'
    then Option.map pos (digits_value true 0 cs)
    else Option.map pos (digits_value true 0 (c ∷ cs))

-- `int(text)`; `none` is the ValueError. The interpreter's limit of 4300 digits is left out.
unfoldable pub int_of_codes : List ℕ → Option ℤ
unfolding drop_spaces signed_value
int_of_codes text = signed_value (drop_spaces (map to_ascii text))
