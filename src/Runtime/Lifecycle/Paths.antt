-- ===== src/Runtime/Lifecycle/Paths.antt =====
-- Which histories a lifecycle can have.
use strategy_adapter.Prelude.{
  String, ap, ℕ, ◌+◌, ◌≤◌, ◌≡◌, refl, true, List, [], ◌∷◌, ◌++◌, arith, contains, length, ok,
}
use strategy_adapter.Runtime.Lifecycle.{
  LifecycleState, discovered, validated, capabilities_negotiated, initialized, training,
  artifact_saved, artifact_loaded, inference_backtest, finalized, failed, lifecycle_state_eq,
  Lifecycle, allowed, start, transition,
}

-- Transitions in a row, none refused.
pub data Reach : Lifecycle → Lifecycle → Type 0 where
  here : {l : Lifecycle} → Reach l l
  next : {l m n : Lifecycle} (t : LifecycleState) → Reach l m → transition t m ≡ ok n → Reach l n

-- A history, latest state last, in which each step is allowed.
abbrev pub IsChain : LifecycleState → List LifecycleState → Type 0
IsChain s [] = Unit
IsChain s (t ∷ ts) = (contains (allowed s) t ≡ true) × IsChain t ts

abbrev pub last : LifecycleState → List LifecycleState → LifecycleState
last s [] = s
last s (t ∷ ts) = last t ts

-- How far a state is from the start: each allowed step goes further.
abbrev rank : LifecycleState → ℕ
rank discovered = 0
rank validated = 1
rank capabilities_negotiated = 2
rank initialized = 3
rank training = 4
rank artifact_saved = 5
rank artifact_loaded = 6
rank inference_backtest = 7
rank finalized = 8
rank failed = 8

rank-lt : (s t : LifecycleState) → contains (allowed s) t ≡ true → rank s + 1 ≤ rank t
rank-lt s t h = ground arith

pub record IsRecorded (l : Lifecycle) : Type 0 where
  pub earlier : List LifecycleState
  pub from_discovered : l.history ≡ discovered ∷ earlier
  pub chain : IsChain discovered earlier
  pub ends : last discovered earlier ≡ l.state

IsChain-snoc :
    (s t : LifecycleState) (ts : List LifecycleState)
    → IsChain s ts
    → contains (allowed (last s ts)) t ≡ true
    → IsChain s (ts ++ t ∷ [])
IsChain-snoc s t [] c h = (h, tt)
IsChain-snoc s t (u ∷ ts) c h = (c.0, IsChain-snoc u t ts c.1 h)

last-snoc : (s t : LifecycleState) (ts : List LifecycleState) → last s (ts ++ t ∷ []) ≡ t
last-snoc s t [] = refl
last-snoc s t (u ∷ ts) = last-snoc u t ts

length-chain :
    (s : LifecycleState) (ts : List LifecycleState)
    → IsChain s ts
    → rank s + length ts ≤ rank (last s ts)
length-chain s [] c = omega arith
length-chain s (t ∷ ts) c = omega (arith, length-chain t ts c.1, rank-lt s t c.0)

pub transition-eq-ok :
    (t : LifecycleState) (l : Lifecycle) {m : Lifecycle}
    → transition t l ≡ ok m
    → (contains (allowed l.state) t ≡ true)
      × (m ≡ record l { state = t; history = l.history ++ t ∷ [] })
unfolding transition
transition-eq-ok t l e = ground arith

transition-IsRecorded :
    (t : LifecycleState) (l : Lifecycle) {m : Lifecycle}
    → transition t l ≡ ok m
    → IsRecorded l
    → IsRecorded m
transition-IsRecorded t l e r =
    let (allowed_step, same) = transition-eq-ok t l e in
    rw same (record {
      earlier = r.earlier ++ t ∷ [];
      from_discovered = ap (λ h. h ++ t ∷ []) r.from_discovered;
      chain = IsChain-snoc _ t r.earlier r.chain (rw r.ends allowed_step);
      ends = last-snoc _ t r.earlier;
    })

pub Reach-IsRecorded : {l m : Lifecycle} → IsRecorded l → Reach l m → IsRecorded m
Reach-IsRecorded r here = r
Reach-IsRecorded r (next {m = m} t reach e) = transition-IsRecorded t m e (Reach-IsRecorded r reach)

start-IsRecorded : (r s e : String) → IsRecorded (start r s e)
start-IsRecorded r s e = record { earlier = []; from_discovered = refl; chain = tt; ends = refl }

-- Whatever transitions succeed from a new lifecycle, its history starts at DISCOVERED, takes only
-- allowed steps and ends at the current state.
pub history-IsRecorded : (r s e : String) {l : Lifecycle} → Reach (start r s e) l → IsRecorded l
history-IsRecorded r s e reach = Reach-IsRecorded (start-IsRecorded r s e) reach

rank-le : (s : LifecycleState) → rank s ≤ 8
rank-le s = ground arith

-- No lifecycle makes more than eight transitions.
pub length-history-le :
    (r s e : String) {l : Lifecycle} → Reach (start r s e) l → length l.history ≤ 9
length-history-le r s e reach =
    let h = history-IsRecorded r s e reach in
    rw h.from_discovered
      (omega (arith, length-chain _ h.earlier h.chain, rank-le (last _ h.earlier)))
