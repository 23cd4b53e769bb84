-- ===== src/Prelude/Texts.antt =====
-- Texts: a number in decimal, as an f-string writes it, and the order of texts.
use Prim.Native.Char.{Char}
use Prim.Native.String.{String, ◌∷◌, compare, ◌++◌}
use Prim.Native.Nat.{ℕ, zero, suc, ◌+◌, ◌/◌, ◌%◌, Ordering}
use mathlib.Core.Path.{◌≡◌, refl}
use mathlib.Core.Bool.{Bool, true, false}
use strategy_adapter.Prelude.Tests.{ltb}

digit : ℕ → Char
digit zero = "0"
digit (suc zero) = "1"
digit (suc (suc zero)) = "2"
digit (suc (suc (suc zero))) = "3"
digit (suc (suc (suc (suc zero)))) = "4"
digit (suc (suc (suc (suc (suc zero))))) = "5"
digit (suc (suc (suc (suc (suc (suc zero)))))) = "6"
digit (suc (suc (suc (suc (suc (suc (suc zero))))))) = "7"
digit (suc (suc (suc (suc (suc (suc (suc (suc zero)))))))) = "8"
digit _ = "9"

-- The digits of `n` before the text `rest`; the fuel is more than the number of digits.
show_before : ℕ → ℕ → String → String
show_before zero n rest = rest
show_before (suc f) n rest = elim (ltb n 10) [
  | true ↦ digit n ∷ rest
  | false ↦ show_before f (n / 10) (digit (n % 10) ∷ rest)
]

-- `str(n)`
unfoldable pub show : ℕ → String
unfolding show_before digit
show n = show_before (n + 1) n ""

-- `f"{label}:{n}"`
unfoldable pub labelled : String → ℕ → String
unfolding show
labelled label n = label ++ (":" ++ show n)

-- `s <= t`
abbrev pub text_leb : String → String → Bool
text_leb s t = elim (compare s t) [ Ordering.gt ↦ false | _ ↦ true ]

labelled_example : labelled "order" 120 ≡ "order:120"
unfolding labelled
labelled_example = refl
