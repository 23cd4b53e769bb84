-- ===== src/Strategies/Discipline.antt =====
-- What an engine may rely on of a strategy: it always answers, and only with actions that its
-- manifest permits (the action checks of src/psrc/adapters/reference.py).
use strategy_adapter.Prelude.{
  string_eq, String, true, false, List, [], ◌∷◌, All, contains, subset, ok, ◌≡◌, refl, Bool-cases,
  inl, inr, subst, both, ◌==◌, sym,
}
use strategy_adapter.Prelude.Dict.{Dict}
use strategy_adapter.Decimal.{Decimal, abs}
use strategy_adapter.Contract.Models.{StrategyManifest, ActionKind, action_kind_eq, ExecutionPlan}
use strategy_adapter.Domain.Market.{MarketEvent}
use strategy_adapter.Domain.Account.{AccountSnapshot}
use strategy_adapter.Domain.Actions.{
  Action, no_op, prediction, target_position, target_weight, submit_order, cancel_order,
  replace_order, validate_action,
}
use strategy_adapter.Runtime.Strategy.{RuntimeStrategy}
use strategy_adapter.Adapters.Reference.Commands.{
  exceeds, Book, handle_action, handle_actions, place_target, validate_target,
}

abbrev pub kind_of : Action → ActionKind
kind_of (no_op a) = ActionKind.no_op
kind_of (prediction a) = ActionKind.prediction
kind_of (target_position a) = ActionKind.target_position
kind_of (target_weight a) = ActionKind.target_weight
kind_of (submit_order a) = ActionKind.submit_order
kind_of (cancel_order a) = ActionKind.cancel_order
kind_of (replace_order a) = ActionKind.replace_order

-- an amount within the manifest's limits, on the event's instrument
abbrev pub IsWithin : StrategyManifest → MarketEvent → Action → Type 0
IsWithin m event (target_position a) =
    (a.instrument_id ≡ event.instrument_id)
    × (exceeds (abs a.quantity) m.action_requirements.max_abs_position ≡ false)
IsWithin m event (submit_order a) =
    (a.instrument_id ≡ event.instrument_id)
    × (exceeds a.quantity m.action_requirements.max_order_quantity ≡ false)
IsWithin m event _ = Unit

pub record IsPermitted (m : StrategyManifest) (event : MarketEvent) (a : Action) : Type 0 where
  pub kind_allowed : contains m.action_requirements.allowed (kind_of a) ≡ true
  pub constructible : validate_action a ≡ true
  pub within : IsWithin m event a

-- A strategy that answers every event, with permitted actions only, as long as its calls come in
-- the order that an engine makes them in: a start, then events.
pub record IsDisciplined (s : RuntimeStrategy) : Type 1 where
  pub Invariant : s.Memory → Type 0
  pub starts : (m : s.Memory) → (n : s.Memory) × (s.on_start m ≡ ok n) × Invariant n
  pub answers :
      (event : MarketEvent) (account : AccountSnapshot) (m : s.Memory)
      → Invariant m
      → (actions : List Action) × (n : s.Memory) × (s.on_event event account m ≡ ok (actions, n))
        × Invariant n
        × All (IsPermitted s.manifest event) actions
  pub finishes : (m : s.Memory) → Invariant m → (n : s.Memory) × (s.on_finish m ≡ ok n)

-- what a strategy of targets may do
abbrev pub target_kinds : List ActionKind
target_kinds = ActionKind.no_op ∷ ActionKind.target_position ∷ []

contains-subset :
    (xs ys : List ActionKind) (k : ActionKind)
    → contains xs k ≡ true
    → subset xs ys ≡ true
    → contains ys k ≡ true
contains-subset [] ys k h within = cc
contains-subset (x ∷ xs) ys k h within =
    let (first, rest) = both (contains ys x) (subset xs ys) within in
    elim (Bool-cases (k == x)) [
      | inl same ↦
          subst (λ j. contains ys j ≡ true) (sym ((action_kind_eq.beq_iff k x).0 same)) first
      | inr other ↦ contains-subset xs ys k (rw other at h) rest
    ]

module _ (plan : ExecutionPlan) (manifest : StrategyManifest) (universe : List String) where
  accepts_one :
      (event : MarketEvent) (snapshot : AccountSnapshot) (marks : Dict Decimal) (a : Action)
      (b : Book)
      → contains target_kinds (kind_of a) ≡ true
      → contains universe event.instrument_id ≡ true
      → IsPermitted manifest event a
      → (c : Book) × (handle_action plan manifest universe event snapshot marks a b ≡ ok c)
  unfolding handle_action place_target validate_target
  accepts_one event snapshot marks (no_op a) b kind known h = (_, refl)
  accepts_one event snapshot marks (prediction a) b kind known h = cc
  accepts_one event snapshot marks (target_position a) b kind known h =
      rw (h.within.0, known, h.within.1) (_, refl)
  accepts_one event snapshot marks (target_weight a) b kind known h = cc
  accepts_one event snapshot marks (submit_order a) b kind known h = cc
  accepts_one event snapshot marks (cancel_order a) b kind known h = cc
  accepts_one event snapshot marks (replace_order a) b kind known h = cc

  actions_accepted :
      (event : MarketEvent) (snapshot : AccountSnapshot) (marks : Dict Decimal)
      (actions : List Action) (b : Book)
      → subset manifest.action_requirements.allowed target_kinds ≡ true
      → contains universe event.instrument_id ≡ true
      → All (IsPermitted manifest event) actions
      → (c : Book) × (handle_actions plan manifest universe event snapshot marks actions b ≡ ok c)
  unfolding handle_actions
  actions_accepted event snapshot marks [] b kinds known h = (b, refl)
  actions_accepted event snapshot marks (a ∷ actions) b kinds known h =
      let permitted : IsPermitted manifest event a = h.0 in
      let (c, handled) =
        accepts_one event snapshot marks a b
          (contains-subset manifest.action_requirements.allowed target_kinds (kind_of a)
            permitted.kind_allowed kinds)
          known permitted in
      rw handled (actions_accepted event snapshot marks actions c kinds known h.1)

-- Let a disciplined strategy's manifest allow nothing but targets and no-ops, and let an event's
-- instrument be one of the run's. Then the strategy answers the event, and the reference engine
-- takes all of the answer: no action is refused, whatever the account and the book.
pub disciplined_targets_accepted :
    (s : RuntimeStrategy) (d : IsDisciplined s) (plan : ExecutionPlan) (universe : List String)
    (event : MarketEvent) (account : AccountSnapshot) (marks : Dict Decimal) (m : s.Memory)
    (b : Book)
    → subset s.manifest.action_requirements.allowed target_kinds ≡ true
    → contains universe event.instrument_id ≡ true
    → d.Invariant m
    → (actions : List Action) × (n : s.Memory) × (c : Book) × (s.on_event event account m
        ≡ ok (actions, n))
      × d.Invariant n
      × (handle_actions plan s.manifest universe event account marks actions b ≡ ok c)
disciplined_targets_accepted s d plan universe event account marks m b kinds known h =
    let (actions, n, answered, after, permitted) = d.answers event account m h in
    let (c, taken) =
      actions_accepted plan s.manifest universe event account marks actions b kinds known
        permitted in
    (actions, n, c, answered, after, taken)
