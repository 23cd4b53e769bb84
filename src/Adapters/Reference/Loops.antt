-- ===== src/Adapters/Reference/Loops.antt =====
-- Invariant rules for the three loops of the engine: over the pending orders, over the actions of
-- an event, over the events. Each speaks of calls that return.
use strategy_adapter.Prelude.{
  ℕ, ◌+◌, String, ◌≡◌, List, [], ◌∷◌, ok, >>=-eq-ok, ok-injective, arith, subst, All, length,
}
use strategy_adapter.Prelude.Dict.{Dict}
use strategy_adapter.Decimal.{Decimal}
use strategy_adapter.Contract.Models.{ExecutionPlan, StrategyManifest}
use strategy_adapter.Domain.Market.{MarketEvent}
use strategy_adapter.Domain.Actions.{Action}
use strategy_adapter.Domain.Account.{AccountSnapshot}
use strategy_adapter.Runtime.Strategy.{RuntimeStrategy}
use strategy_adapter.Adapters.Reference.Settlement.{
  ReferenceEngine, PendingOrder, Settlement, settle_order, settle_pending,
}
use strategy_adapter.Adapters.Reference.Commands.{Book, handle_action, handle_actions}
use strategy_adapter.Adapters.Reference.Run.{RunState, process_event, process_events}

module _ {ℓ κ} (engine : ReferenceEngine) (event : MarketEvent) (Q : PendingOrder → Type ℓ)
    (P : Settlement → Type κ)
    (step : (o : PendingOrder) (s t : Settlement)
      → Q o
      → settle_order engine event o s ≡ ok t
      → P s
      → P t) where
  pub settle_pending_inv :
      (pending : List PendingOrder) (s : Settlement) {t : Settlement}
      → All Q pending
      → settle_pending engine event pending s ≡ ok t
      → P s
      → P t
  unfolding settle_pending
  settle_pending_inv [] s q e p = subst P (ok-injective e) p
  settle_pending_inv (o ∷ pending) s q e p =
      let (u, first, rest) = >>=-eq-ok (settle_order engine event o s) _ e in
      settle_pending_inv pending u q.1 rest (step o s u q.0 first p)

module _ {ℓ κ} (plan : ExecutionPlan) (manifest : StrategyManifest) (universe : List String)
    (event : MarketEvent) (snapshot : AccountSnapshot) (marks : Dict Decimal) (Q : Action → Type ℓ)
    (P : Book → Type κ)
    (step : (a : Action) (b c : Book)
      → Q a
      → handle_action plan manifest universe event snapshot marks a b ≡ ok c
      → P b
      → P c) where
  pub handle_actions_inv :
      (actions : List Action) (b : Book) {c : Book}
      → All Q actions
      → handle_actions plan manifest universe event snapshot marks actions b ≡ ok c
      → P b
      → P c
  unfolding handle_actions
  handle_actions_inv [] b q e p = subst P (ok-injective e) p
  handle_actions_inv (a ∷ actions) b q e p =
      let (u, first, rest) =
        >>=-eq-ok (handle_action plan manifest universe event snapshot marks a b) _ e in
      handle_actions_inv actions u q.1 rest (step a b u q.0 first p)

module _ {ℓ κ} (engine : ReferenceEngine) (plan : ExecutionPlan) (strategy : RuntimeStrategy)
    (universe : List String) (Q : MarketEvent → Type ℓ) (P : ℕ → RunState → Type κ)
    (step : (index : ℕ) (event : MarketEvent) (s : RunState) (memory : strategy.Memory)
        (r : RunState × strategy.Memory)
      → Q event
      → process_event engine plan strategy universe index event s memory ≡ ok r
      → P index s
      → P (index + 1) r.0) where
  pub process_events_inv :
      (events : List MarketEvent) (index : ℕ) (s : RunState) (memory : strategy.Memory)
      {r : RunState × strategy.Memory}
      → All Q events
      → process_events engine plan strategy universe index events s memory ≡ ok r
      → P index s
      → (final : ℕ) × (final ≡ index + length events) × P final r.0
  unfolding process_events
  process_events_inv [] index s memory q e p = (
    index,
    omega arith,
    subst (λ (x : RunState × strategy.Memory). P index x.0) (ok-injective e) p,
  )
  process_events_inv (event ∷ events) index s memory q e p =
      let (u, first, rest) =
        >>=-eq-ok (process_event engine plan strategy universe index event s memory) _ e in
      let (final, same, holds) =
        process_events_inv events (index + 1) u.0 u.1 q.1 rest
          (step index event s memory u q.0 first p) in
      (final, omega arith, holds)
