-- ===== src/Adapters/Reference/Targets.antt =====
-- src/psrc/adapters/reference.py: the target orders that are open, against the manifest's limit.
use strategy_adapter.Prelude.{
  ◌≡◌, subst, inl, inr, Bool, false, Option, none, some, List, [], ◌∷◌, map, keep_if, find?, ok,
  >>=-eq-ok, ok-injective, unless_raised, Bool-cases, Option-cases, All, All-append, if◌then◌else◌,
}
use strategy_adapter.Decimal.{Decimal, abs}
use strategy_adapter.Contract.Models.{ExecutionPlan, StrategyManifest}
use strategy_adapter.Domain.Market.{MarketEvent}
use strategy_adapter.Domain.Actions.{CancelOrder, ReplaceOrder, TargetPosition}
use strategy_adapter.Domain.Account.{PendingType}
use strategy_adapter.Adapters.Reference.Settlement.{
  ReferenceEngine, PendingOrder, Settlement, Resolution, waiting, satisfied, filled, settle_filled,
  settle_resolved, settle_order,
}
use strategy_adapter.Adapters.Reference.Commands.{
  Book, cancel, cancel_matched, replace, replace_found, replace_matched, place_target,
  validate_target, exceeds, has_id, updated_order,
}
use strategy_adapter.Adapters.Reference.Steps.{settle_order-eq-ok}

some-injective : {A : Type 0} {a b : A} → some a ≡ some b → a ≡ b
some-injective e = cc

module _ (manifest : StrategyManifest) where
  -- a target, if there is one, is within `max_abs_position`
  abbrev pub IsAllowed : Option Decimal → Type 0
  IsAllowed none = Unit
  IsAllowed (some target) =
      exceeds (abs target) manifest.action_requirements.max_abs_position ≡ false

  abbrev pub AllAllowed : List PendingOrder → Type 0
  AllAllowed = All (λ (o : PendingOrder). IsAllowed o.target_quantity)

  All-keep_if :
      (p : PendingOrder → Bool) (os : List PendingOrder) → AllAllowed os → AllAllowed (keep_if p os)
  All-keep_if p [] h = tt
  All-keep_if p (o ∷ os) h = elim (Bool-cases (p o)) [
    | inl t ↦ rw t (h.0, All-keep_if p os h.1)
    | inr f ↦ rw f (All-keep_if p os h.1)
  ]

  settle_resolved-AllAllowed :
      (engine : ReferenceEngine) (event : MarketEvent) (o : PendingOrder) (r : Resolution)
      (s t : Settlement)
      → IsAllowed o.target_quantity
      → settle_resolved engine event o r s ≡ ok t
      → AllAllowed s.remaining
      → AllAllowed t.remaining
  unfolding settle_resolved settle_filled
  settle_resolved-AllAllowed engine event o waiting s t q e h =
      subst (λ (u : Settlement). AllAllowed u.remaining) (ok-injective e)
        (All-append (λ (o : PendingOrder). IsAllowed o.target_quantity) s.remaining (o ∷ []) h
          (q, tt))
  settle_resolved-AllAllowed engine event o satisfied s t q e h =
      subst (λ (u : Settlement). AllAllowed u.remaining) (ok-injective e) h
  settle_resolved-AllAllowed engine event o (filled side quantity price) s t q e h =
      subst (λ (u : Settlement). AllAllowed u.remaining) (unless_raised _ _ e) h

  pub settle_order-AllAllowed :
      (engine : ReferenceEngine) (event : MarketEvent) (o : PendingOrder) (s t : Settlement)
      → IsAllowed o.target_quantity
      → settle_order engine event o s ≡ ok t
      → AllAllowed s.remaining
      → AllAllowed t.remaining
  settle_order-AllAllowed engine event o s t q e h =
      let (r, _, settled) = settle_order-eq-ok engine event o s t e in
      settle_resolved-AllAllowed engine event o r s t q settled h

  updated-AllAllowed :
      (action : ReplaceOrder) (m : PendingOrder) (os : List PendingOrder)
      → IsAllowed m.target_quantity
      → AllAllowed os
      → AllAllowed
          (map (λ o. if has_id action.client_order_id o then updated_order action m else o) os)
  updated-AllAllowed action m [] q h = tt
  updated-AllAllowed action m (o ∷ os) q h = elim (Bool-cases (has_id action.client_order_id o)) [
    | inl t ↦ rw t (q, updated-AllAllowed action m os q h.1)
    | inr f ↦ rw f (h.0, updated-AllAllowed action m os q h.1)
  ]

  found-IsAllowed :
      (p : PendingOrder → Bool) (os : List PendingOrder) (m : PendingOrder)
      → find? p os ≡ some m
      → AllAllowed os
      → IsAllowed m.target_quantity
  found-IsAllowed p [] m e h = cc
  found-IsAllowed p (o ∷ os) m e h = elim (Bool-cases (p o)) [
    | inl t ↦
        subst (λ (x : PendingOrder). IsAllowed x.target_quantity) (some-injective (rw t at e)) h.0
    | inr f ↦ found-IsAllowed p os m (rw f at e) h.1
  ]

  pub cancel-AllAllowed :
      (plan : ExecutionPlan) (event : MarketEvent) (action : CancelOrder) (b c : Book)
      → cancel plan event action b ≡ ok c
      → AllAllowed b.pending
      → AllAllowed c.pending
  unfolding cancel cancel_matched
  cancel-AllAllowed plan event action b c e h =
      elim (Option-cases (find? (has_id action.client_order_id) b.pending)) [
        | inl absent ↦ let f = rw (absent, cancel, cancel_matched) at e in cc
        | inr (m, found) ↦
            subst (λ (d : Book). AllAllowed d.pending)
              (ok-injective (rw (found, cancel, cancel_matched) at e)) (All-keep_if _ b.pending h)
      ]

  replace_matched-AllAllowed :
      (plan : ExecutionPlan) (event : MarketEvent) (action : ReplaceOrder) (kind : PendingType)
      (m : PendingOrder) (b c : Book)
      → replace_matched plan event action kind m b ≡ ok c
      → IsAllowed m.target_quantity
      → AllAllowed b.pending
      → AllAllowed c.pending
  unfolding replace_matched
  replace_matched-AllAllowed plan event action PendingType.limit m b c e q h =
      subst (λ (d : Book). AllAllowed d.pending) (ok-injective e)
        (updated-AllAllowed action m b.pending q h)
  replace_matched-AllAllowed plan event action PendingType.market m b c e q h = cc
  replace_matched-AllAllowed plan event action PendingType.target m b c e q h = cc

  pub replace-AllAllowed :
      (plan : ExecutionPlan) (event : MarketEvent) (action : ReplaceOrder) (b c : Book)
      → replace plan event action b ≡ ok c
      → AllAllowed b.pending
      → AllAllowed c.pending
  unfolding replace replace_found
  replace-AllAllowed plan event action b c e h =
      elim (Option-cases (find? (has_id action.client_order_id) b.pending)) [
        | inl absent ↦ let f = rw (absent, replace, replace_found) at e in cc
        | inr (m, found) ↦
            replace_matched-AllAllowed plan event action m.order_type m b c
              (rw (found, replace, replace_found) at e) (found-IsAllowed _ b.pending m found h) h
      ]

  validate_target-IsAllowed :
      (plan : ExecutionPlan) (action : TargetPosition)
      → validate_target plan manifest action ≡ ok tt
      → IsAllowed (some action.quantity)
  unfolding validate_target
  validate_target-IsAllowed plan action e =
      elim (Bool-cases
        (exceeds (abs action.quantity) manifest.action_requirements.max_abs_position)) [
          | inl t ↦ let f = rw (t, validate_target) at e in cc
          | inr f ↦ f
        ]

  pub place_target-AllAllowed :
      (plan : ExecutionPlan) (event : MarketEvent) (action : TargetPosition) (b c : Book)
      → place_target plan manifest event action b ≡ ok c
      → AllAllowed b.pending
      → AllAllowed c.pending
  unfolding place_target
  place_target-AllAllowed plan event action b c e h =
      let (_, valid, placed) = >>=-eq-ok (validate_target plan manifest action) _ e in
      subst (λ (d : Book). AllAllowed d.pending) (ok-injective placed)
        (All-append (λ (o : PendingOrder). IsAllowed o.target_quantity) b.pending _ h
          (validate_target-IsAllowed plan action valid, tt))
