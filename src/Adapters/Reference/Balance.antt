-- ===== src/Adapters/Reference/Balance.antt =====
-- src/psrc/adapters/reference.py: the order records of a whole run against its counters and lists.
use strategy_adapter.Prelude.{
  ℕ, suc, ◌+◌, ◌≤◌, ◌≡◌, refl, subst, inl, inr, Bool, false, not, some, List, [], ◌∷◌, map, length,
  keep_if, length-keep_if-le, find?, ok, >>=-eq-ok, raise_if, raise_if-eq-ok, ok-injective, arith,
  Bool-cases, Option-cases, String, contains, any, string_eq,
}
use strategy_adapter.Prelude.Dict.{Dict, lookup}
use strategy_adapter.Decimal.{Decimal}
use strategy_adapter.Contract.Errors.{ErrorCode, Call}
use strategy_adapter.Contract.Models.{ExecutionPlan, StrategyManifest}
use strategy_adapter.Domain.Market.{MarketEvent}
use strategy_adapter.Domain.Actions.{
  Action, no_op, prediction, target_position, target_weight, submit_order, cancel_order,
  replace_order, CancelOrder, ReplaceOrder, TargetPosition, TargetWeight, SubmitOrder,
}
use strategy_adapter.Domain.Account.{PendingType, AccountSnapshot}
use strategy_adapter.Runtime.Report.{OrderStatus}
use strategy_adapter.Adapters.Reference.Settlement.{PendingOrder}
use strategy_adapter.Adapters.Reference.Commands.{
  Book, accept, cancel, cancel_matched, replace, replace_found, replace_matched, place_target,
  place_weight, place_order, in_universe, handle_action, direct_type, validate_target, has_id,
  resolve_mark, direct_order, exceeds, action_error,
}
use strategy_adapter.Adapters.Reference.Tally.{
  tally, ended, IsNumbered, note-IsNumbered, note-tally, length-snoc,
}

-- `fills` are filled, the accepted orders are counted, and no more of them are pending or ended.
pub record IsTallied (fills : ℕ) (b : Book) : Type 0 where
  pub numbered : IsNumbered b.order_events
  pub counted : tally OrderStatus.accepted b.order_events ≡ b.order_count
  pub none_expired : tally OrderStatus.expired b.order_events ≡ 0
  pub fills_counted : tally OrderStatus.filled b.order_events ≡ fills
  pub bounded : length b.pending + ended b.order_events ≤ b.order_count

accept-IsTallied :
    (event : MarketEvent) (o : PendingOrder) (fills : ℕ) (b : Book)
    → IsTallied fills b
    → IsTallied fills (accept event o b)
accept-IsTallied event o fills b h =
    let noted =
      note-tally o.client_order_id o.instrument_id event.available_time OrderStatus.accepted
        b.order_events in
    record {
      numbered = note-IsNumbered _ _ _ _ b.order_events h.numbered;
      counted = omega (arith, h.counted, noted OrderStatus.accepted);
      none_expired = omega (arith, h.none_expired, noted OrderStatus.expired);
      fills_counted = omega (arith, h.fills_counted, noted OrderStatus.filled);
      bounded = omega (
        arith,
        h.bounded,
        noted OrderStatus.filled,
        noted OrderStatus.satisfied,
        noted OrderStatus.canceled,
        length-snoc b.pending o,
      );
    }

-- A matched order is one that canceling takes away.
length-keep_if-lt :
    {A : Type 0} (p : A → Bool) (xs : List A) (x : A)
    → find? p xs ≡ some x
    → suc (length (keep_if (λ y. not (p y)) xs)) ≤ length xs
length-keep_if-lt p [] x h = cc
length-keep_if-lt p (y ∷ ys) x h = elim (Bool-cases (p y)) [
  | inl t ↦ rw t (omega (arith, length-keep_if-le (λ z. not (p z)) ys))
  | inr f ↦ rw f (omega (arith, length-keep_if-lt p ys x (rw f at h)))
]

cancel-IsTallied :
    (plan : ExecutionPlan) (event : MarketEvent) (action : CancelOrder) (fills : ℕ) (b c : Book)
    → cancel plan event action b ≡ ok c
    → IsTallied fills b
    → IsTallied fills c
unfolding cancel cancel_matched
cancel-IsTallied plan event action fills b c e h =
    elim (Option-cases (find? (has_id action.client_order_id) b.pending)) [
      | inl absent ↦ let f = rw (absent, cancel, cancel_matched) at e in cc
      | inr (m, found) ↦
          let noted =
            note-tally m.client_order_id m.instrument_id event.available_time OrderStatus.canceled
              b.order_events in
          subst (IsTallied fills) (ok-injective (rw (found, cancel, cancel_matched) at e)) (record {
            numbered = note-IsNumbered _ _ _ _ b.order_events h.numbered;
            counted = omega (arith, h.counted, noted OrderStatus.accepted);
            none_expired = omega (arith, h.none_expired, noted OrderStatus.expired);
            fills_counted = omega (arith, h.fills_counted, noted OrderStatus.filled);
            bounded = omega (
              arith,
              h.bounded,
              noted OrderStatus.filled,
              noted OrderStatus.satisfied,
              noted OrderStatus.canceled,
              length-keep_if-lt _ b.pending m found,
            );
          })
    ]

pub length-map : {A B : Type 0} (f : A → B) (xs : List A) → length (map f xs) ≡ length xs
length-map f [] = refl
length-map f (x ∷ xs) = omega (arith, length-map f xs)

replace_matched-IsTallied :
    (plan : ExecutionPlan) (event : MarketEvent) (action : ReplaceOrder) (kind : PendingType)
    (m : PendingOrder) (fills : ℕ) (b c : Book)
    → replace_matched plan event action kind m b ≡ ok c
    → IsTallied fills b
    → IsTallied fills c
unfolding replace_matched
replace_matched-IsTallied plan event action PendingType.limit m fills b c e h =
    let noted =
      note-tally m.client_order_id m.instrument_id event.available_time OrderStatus.replaced
        b.order_events in
    subst (IsTallied fills) (ok-injective e) (record {
      numbered = note-IsNumbered _ _ _ _ b.order_events h.numbered;
      counted = omega (arith, h.counted, noted OrderStatus.accepted);
      none_expired = omega (arith, h.none_expired, noted OrderStatus.expired);
      fills_counted = omega (arith, h.fills_counted, noted OrderStatus.filled);
      bounded = omega (
        arith,
        h.bounded,
        noted OrderStatus.filled,
        noted OrderStatus.satisfied,
        noted OrderStatus.canceled,
        length-map _ b.pending,
      );
    })
replace_matched-IsTallied plan event action PendingType.market m fills b c e h = cc
replace_matched-IsTallied plan event action PendingType.target m fills b c e h = cc

replace-IsTallied :
    (plan : ExecutionPlan) (event : MarketEvent) (action : ReplaceOrder) (fills : ℕ) (b c : Book)
    → replace plan event action b ≡ ok c
    → IsTallied fills b
    → IsTallied fills c
unfolding replace replace_found
replace-IsTallied plan event action fills b c e h =
    elim (Option-cases (find? (has_id action.client_order_id) b.pending)) [
      | inl absent ↦ let f = rw (absent, replace, replace_found) at e in cc
      | inr (m, found) ↦
          replace_matched-IsTallied plan event action m.order_type m fills b c
            (rw (found, replace, replace_found) at e) h
    ]

place_target-IsTallied :
    (plan : ExecutionPlan) (manifest : StrategyManifest) (event : MarketEvent)
    (action : TargetPosition) (fills : ℕ) (b c : Book)
    → place_target plan manifest event action b ≡ ok c
    → IsTallied fills b
    → IsTallied fills c
unfolding place_target
place_target-IsTallied plan manifest event action fills b c e h =
    let (_, _, placed) = >>=-eq-ok (validate_target plan manifest action) _ e in
    subst (IsTallied fills) (ok-injective placed) (accept-IsTallied event _ fills b h)

place_weight-IsTallied :
    (plan : ExecutionPlan) (manifest : StrategyManifest) (event : MarketEvent)
    (snapshot : AccountSnapshot) (marks : Dict Decimal) (action : TargetWeight) (fills : ℕ)
    (b c : Book)
    → place_weight plan manifest event snapshot marks action b ≡ ok c
    → IsTallied fills b
    → IsTallied fills c
unfolding place_weight
place_weight-IsTallied plan manifest event snapshot marks action fills b c e h =
    let (_, _, placed) =
      >>=-eq-ok (resolve_mark plan (lookup action.instrument_id marks) action snapshot.equity) _
        e in
    place_target-IsTallied plan manifest event _ fills b c placed h

pub place_order-eq-ok :
    (plan : ExecutionPlan) (manifest : StrategyManifest) (event : MarketEvent)
    (action : SubmitOrder) (b : Book) {c : Book}
    → place_order plan manifest event action b ≡ ok c
    → (kind : PendingType) × (any (has_id action.client_order_id) b.pending ≡ false)
      × (exceeds action.quantity manifest.action_requirements.max_order_quantity ≡ false)
      × (accept event (direct_order event action kind) b ≡ c)
unfolding place_order
place_order-eq-ok plan manifest event action b e =
    let rejected = action_error plan ErrorCode.order_rejected in
    let known = any (has_id action.client_order_id) b.pending in
    let above = exceeds action.quantity manifest.action_requirements.max_order_quantity in
    let (kind, _, e1) = >>=-eq-ok (direct_type plan action.order_type) _ e in
    let (_, fresh, e2) = >>=-eq-ok (raise_if known rejected) _ e1 in
    let (_, within, e3) = >>=-eq-ok (raise_if above rejected) _ e2 in
    (
      kind,
      raise_if-eq-ok known rejected fresh,
      raise_if-eq-ok above rejected within,
      ok-injective e3,
    )

pub in_universe-eq-ok :
    (plan : ExecutionPlan) (universe : List String) (instrument_id : String) (rest : Call Book)
    {c : Book}
    → in_universe plan universe instrument_id rest ≡ ok c
    → rest ≡ ok c
in_universe-eq-ok plan universe instrument_id rest e =
    elim (Bool-cases (contains universe instrument_id)) [
      | inl t ↦ rw t at e
      | inr f ↦ let g = rw f at e in cc
    ]

pub handle_action-IsTallied :
    (plan : ExecutionPlan) (manifest : StrategyManifest) (universe : List String)
    (event : MarketEvent) (snapshot : AccountSnapshot) (marks : Dict Decimal) (fills : ℕ)
    (a : Action) (b c : Book)
    → Unit {0}
    → handle_action plan manifest universe event snapshot marks a b ≡ ok c
    → IsTallied fills b
    → IsTallied fills c
unfolding handle_action
handle_action-IsTallied plan manifest universe event snapshot marks fills (no_op a) b c _ e h =
    subst (IsTallied fills) (ok-injective e) (record {
      numbered = h.numbered;
      counted = h.counted;
      none_expired = h.none_expired;
      fills_counted = h.fills_counted;
      bounded = h.bounded;
    })
handle_action-IsTallied plan manifest universe event snapshot marks fills (prediction a) b c _ e h =
    subst (IsTallied fills) (ok-injective e) h
handle_action-IsTallied plan manifest universe event snapshot marks fills (cancel_order a) b c _ e
      h =
    cancel-IsTallied plan event a fills b c e h
handle_action-IsTallied plan manifest universe event snapshot marks fills (replace_order a) b c _ e
      h =
    replace-IsTallied plan event a fills b c e h
handle_action-IsTallied plan manifest universe event snapshot marks fills (target_weight a) b c _ e
      h =
    place_weight-IsTallied plan manifest event snapshot marks a fills b c
      (in_universe-eq-ok plan universe a.instrument_id _ e) h
handle_action-IsTallied plan manifest universe event snapshot marks fills (target_position a) b c _
      e h =
    place_target-IsTallied plan manifest event a fills b c
      (in_universe-eq-ok plan universe a.instrument_id _ e) h
handle_action-IsTallied plan manifest universe event snapshot marks fills (submit_order a) b c _ e
      h =
    let (kind, _, _, same) =
      place_order-eq-ok plan manifest event a b
        (in_universe-eq-ok plan universe a.instrument_id _ e) in
    subst (IsTallied fills) same (accept-IsTallied event (direct_order event a kind) fills b h)
