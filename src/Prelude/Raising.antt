-- ===== src/Prelude/Raising.antt =====
-- A call that returns or raises: the monad of every model of fallible code, with its inversion.
use mathlib.Core.Path.{◌≡◌, refl}
use mathlib.Core.Bool.{Bool, true, false}
use strategy_adapter.Prelude.Tests.{if◌then◌else◌}
use mathlib.Core.Logic.{◌⊎◌, inl, inr}

-- `E` is the type of what can be raised.
pub data Result (E A : Type 0) : Type 0 where
  ok : A → Result E A
  raised : E → Result E A

infixl 5 ◌>>=◌ ◌>>◌
abbrev pub ◌>>=◌ : {E A B : Type 0} → Result E A → (A → Result E B) → Result E B
ok a >>= f = f a
raised e >>= f = raised e

abbrev pub ◌>>◌ : {E B : Type 0} → Result E (Unit {0}) → Result E B → Result E B
m >> k = m >>= λ _. k

-- `if test: raise e`
abbrev pub raise_if : {E : Type 0} → Bool → E → Result E (Unit {0})
raise_if true e = raised e
raise_if false e = ok tt

-- What a returned bind says of its two halves.
pub >>=-eq-ok :
    {E A B : Type 0} (call : Result E A) (rest : A → Result E B) {out : B}
    → (call >>= rest) ≡ ok out
    → (x : A) × (call ≡ ok x) × (rest x ≡ ok out)
>>=-eq-ok (ok x) rest same = (x, refl, same)
>>=-eq-ok (raised e) rest same = cc

pub raise_if-eq-ok : {E : Type 0} (c : Bool) (e : E) → raise_if c e ≡ ok tt → c ≡ false
raise_if-eq-ok true e h = cc
raise_if-eq-ok false e h = refl

pub ok-injective : {E A : Type 0} {a b : A} → ◌≡◌ {A = Result E A} (ok a) (ok b) → a ≡ b
ok-injective h = cc

pub Result-cases :
    {E A : Type 0} (m : Result E A) → ((a : A) × (m ≡ ok a)) ⊎ ((e : E) × (m ≡ raised e))
Result-cases (ok a) = inl (a, refl)
Result-cases (raised e) = inr (e, refl)

pub raised-injective : {E A : Type 0} {d e : E} → ◌≡◌ {A = Result E A} (raised d) (raised e) → d ≡ e
raised-injective h = cc

pub unless_raised :
    {E A : Type 0} (c : Bool) (e : E) {a t : A} → (if c then raised e else ok a) ≡ ok t → a ≡ t
unless_raised true e h = cc
unless_raised false e h = cc
