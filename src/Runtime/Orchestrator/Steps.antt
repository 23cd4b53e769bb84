-- ===== src/Runtime/Orchestrator/Steps.antt =====
-- Actions on a lifecycle: a call that may raise, with the lifecycle that it leaves either way.
use strategy_adapter.Prelude.{List, ok, raised, ◌≡◌, refl, ap, ◌∙◌}
use strategy_adapter.Contract.Errors.{Raised, Call, violation, python}
use strategy_adapter.Runtime.Lifecycle.Endings.{fail_total}
use strategy_adapter.Runtime.Lifecycle.{LifecycleState, Lifecycle, transition, fail}

abbrev pub Action : Type 0 → Type 0
Action A = Lifecycle → Call A × Lifecycle

abbrev pub pure : {A : Type 0} → A → Action A
pure a l = (ok a, l)

-- a call that does not know the lifecycle
abbrev pub lift : {A : Type 0} → Call A → Action A
lift r l = (r, l)

infixl 5 ◌>>=◌ ◌>>◌
abbrev pub ◌>>=◌ : {A B : Type 0} → Action A → (A → Action B) → Action B
◌>>=◌ m f l = let (r, m') = m l in elim r [ ok a ↦ f a m' | raised e ↦ (raised e, m') ]

abbrev pub ◌>>◌ : {B : Type 0} → Action (Unit {0}) → Action B → Action B
m >> k = m >>= λ _. k

-- `lifecycle.transition(state)`
abbrev pub advance : LifecycleState → Action (Unit {0})
advance state l = elim (transition state l) [ ok m ↦ (ok tt, m) | raised e ↦ (raised e, l) ]

-- `lifecycle.history`
abbrev pub history : Action (List LifecycleState)
history l = (ok l.history, l)

-- what the two `except` clauses raise: a violation as it is, another exception by the state
abbrev pub reported : (LifecycleState → Raised) → LifecycleState → Raised → Raised
reported other state (violation e) = violation e
reported other state (python e) = other state

-- `except ContractViolation: fail, raise`, `except Exception: fail, raise ContractViolation(...)`
unfoldable pub caught : {A : Type 0} → (LifecycleState → Raised) → Call A → Lifecycle → Call A
caught other (ok a) l = ok a
caught other (raised e) l = elim (fail l) [
  | ok _ ↦ raised (reported other l.state e)
  | raised f ↦ raised f
]

unfoldable pub catch_all : {A : Type 0} → (LifecycleState → Raised) → Action A → Lifecycle → Call A
unfolding caught
catch_all other body l = caught other (body l).0 (body l).1

pub catch_all-ok :
    {A : Type 0} (other : LifecycleState → Raised) (body : Action A) (l m : Lifecycle) (a : A)
    → body l ≡ (ok a, m)
    → catch_all other body l ≡ ok a
unfolding catch_all caught
catch_all-ok other body l m a e = ap (λ b. caught other b.0 b.1) e

caught-raised :
    {A : Type 0} (other : LifecycleState → Raised) (e : Raised) (m : Lifecycle)
    → caught {A = A} other (raised e) m ≡ raised (reported other m.state e)
unfolding caught
caught-raised other e m = let (_, done, _) = fail_total m in rw (done, caught) refl

pub catch_all-raised :
    {A : Type 0} (other : LifecycleState → Raised) (body : Action A) (l m : Lifecycle) (e : Raised)
    → body l ≡ (raised e, m)
    → catch_all other body l ≡ raised (reported other m.state e)
unfolding catch_all
catch_all-raised other body l m e r = ap (λ b. caught other b.0 b.1) r ∙ caught-raised other e m
