-- ===== src/Adapters/Reference/Commands.antt =====
-- src/psrc/adapters/reference.py: what the engine does with each action of a strategy (the loop
-- over `actions` in `run`, `_cancel`, `_replace`, `_validate_target`, `_fail_action`).
use strategy_adapter.Prelude.{
  ℕ, ◌+◌, String, Bool, false, not, Option, none, some, List, [], ◌∷◌, ◌++◌, map, find?, keep_if,
  any, contains, ok, raised, ◌>>=◌, ◌>>◌, raise_if, labelled, ◌==◌, string_eq, if◌then◌else◌,
}
use strategy_adapter.Prelude.Dict.{Dict, lookup}
use strategy_adapter.Decimal.{Decimal, of_nat, ◌*ᵈ◌, abs, quotient, is_zero, lt?, quantize_6?}
use strategy_adapter.Contract.Errors.{
  ErrorCode, ErrorStage, Raised, Call, violation, python, arithmetic_error,
}
use strategy_adapter.Contract.Models.{ExecutionPlan, StrategyManifest}
use strategy_adapter.Domain.Market.{MarketEvent}
use strategy_adapter.Domain.Actions.{
  Action, no_op, prediction, target_position, target_weight, submit_order, cancel_order,
  replace_order, TargetPosition, TargetWeight, SubmitOrder, CancelOrder, ReplaceOrder, OrderType,
}
use strategy_adapter.Domain.Account.{PendingType, AccountSnapshot}
use strategy_adapter.Runtime.Report.{OrderEventRecord, OrderStatus}
use strategy_adapter.Adapters.Reference.Settlement.{PendingOrder, note}

-- the error that `_fail_action` raises
abbrev pub action_error : ExecutionPlan → ErrorCode → Raised
action_error plan code = violation (record {
  run_id = plan.run_id;
  stage = ErrorStage.action_validation;
  code = code;
  strategy_id = some plan.strategy_id;
  engine_id = some plan.engine_id;
})

-- `_fail_action`
abbrev pub fail_action : {A : Type 0} → ExecutionPlan → ErrorCode → Call A
fail_action plan code = raised (action_error plan code)

-- What the actions of an event change: nothing of the accounts, no fill.
pub record Book : Type 0 where
  pub pending : List PendingOrder
  pub order_events : List OrderEventRecord
  pub order_count : ℕ
  pub no_op_count : ℕ

abbrev pub has_id : String → PendingOrder → Bool
has_id client_order_id order = order.client_order_id == client_order_id

unfoldable pub cancel_matched :
    ExecutionPlan → MarketEvent → CancelOrder → Option PendingOrder → Book → Call Book
cancel_matched plan event action none b = fail_action plan ErrorCode.action_invalid
cancel_matched plan event action (some matched) b = ok (record b {
  pending = keep_if (λ order. not (has_id action.client_order_id order)) b.pending;
  order_events =
      note matched.client_order_id matched.instrument_id event.available_time OrderStatus.canceled
        b.order_events;
})

-- `_cancel`
unfoldable pub cancel : ExecutionPlan → MarketEvent → CancelOrder → Book → Call Book
unfolding cancel_matched
cancel plan event action b =
    cancel_matched plan event action (find? (has_id action.client_order_id) b.pending) b

-- `new or old`: a new value counts unless it is absent or zero
abbrev pub given_or : Option Decimal → Option Decimal → Option Decimal
given_or none old = old
given_or (some d) old = if is_zero d then old else some d

abbrev pub updated_order : ReplaceOrder → PendingOrder → PendingOrder
updated_order action matched = record matched {
  quantity = given_or action.new_quantity matched.quantity;
  limit_price = given_or action.new_limit_price matched.limit_price;
}

unfoldable pub replace_matched :
    ExecutionPlan → MarketEvent → ReplaceOrder → PendingType → PendingOrder → Book → Call Book
replace_matched plan event action PendingType.limit matched b = ok (record b {
  pending =
      map
        (λ order.
          if has_id action.client_order_id order then updated_order action matched else order)
        b.pending;
  order_events =
      note matched.client_order_id matched.instrument_id event.available_time OrderStatus.replaced
        b.order_events;
})
replace_matched plan event action _ matched b = fail_action plan ErrorCode.action_invalid

unfoldable pub replace_found :
    ExecutionPlan → MarketEvent → ReplaceOrder → Option PendingOrder → Book → Call Book
unfolding replace_matched
replace_found plan event action none b = fail_action plan ErrorCode.action_invalid
replace_found plan event action (some matched) b =
    replace_matched plan event action matched.order_type matched b

-- `_replace`
unfoldable pub replace : ExecutionPlan → MarketEvent → ReplaceOrder → Book → Call Book
unfolding replace_found
replace plan event action b =
    replace_found plan event action (find? (has_id action.client_order_id) b.pending) b

-- `maximum is not None and value > maximum`
abbrev pub exceeds : Decimal → Option Decimal → Bool
exceeds value none = false
exceeds value (some maximum) = lt? maximum value

-- `_validate_target`
unfoldable pub validate_target : ExecutionPlan → StrategyManifest → TargetPosition → Call (Unit {0})
validate_target plan manifest action =
    if exceeds (abs action.quantity) manifest.action_requirements.max_abs_position
    then fail_action plan ErrorCode.action_invalid
    else ok tt

-- The order joins the pending ones, and its acceptance is recorded.
abbrev pub accept : MarketEvent → PendingOrder → Book → Book
accept event order b = record b {
  pending = b.pending ++ order ∷ [];
  order_events =
      note order.client_order_id order.instrument_id event.available_time OrderStatus.accepted
        b.order_events;
  order_count = b.order_count + 1;
}

-- the order that a target becomes
abbrev pub target_order : MarketEvent → TargetPosition → ℕ → PendingOrder
target_order event action order_count = record {
  client_order_id = labelled "order" order_count;
  instrument_id = action.instrument_id;
  order_type = PendingType.target;
  submitted_at = event.available_time;
  side = none;
  quantity = none;
  target_quantity = some action.quantity;
  limit_price = none;
}

-- the branch of a `TargetPosition`
unfoldable pub place_target :
    ExecutionPlan → StrategyManifest → MarketEvent → TargetPosition → Book → Call Book
place_target plan manifest event action b =
    validate_target plan manifest action
    >> ok (accept event (target_order event action (b.order_count + 1)) b)

-- `(weight * equity / mark).quantize(...)`
pub weight_target : Option Decimal → Call Decimal
weight_target none = raised (python arithmetic_error)
weight_target (some target) = ok target

pub resolve_mark : ExecutionPlan → Option Decimal → TargetWeight → Decimal → Call Decimal
unfolding weight_target
resolve_mark plan none action equity = fail_action plan ErrorCode.action_invalid
resolve_mark plan (some mark) action equity =
    if not (lt? (of_nat 0) mark)
    then fail_action plan ErrorCode.action_invalid
    else weight_target (quantize_6? (quotient (action.weight *ᵈ equity) mark))

-- the branch of a `TargetWeight`, which goes on as a target
unfoldable pub place_weight :
    ExecutionPlan
    → StrategyManifest
    → MarketEvent
    → AccountSnapshot
    → Dict Decimal
    → TargetWeight
    → Book
    → Call Book
unfolding resolve_mark
place_weight plan manifest event snapshot marks action b = do
  target ← resolve_mark plan (lookup action.instrument_id marks) action snapshot.equity
  let position : TargetPosition = record {
    instrument_id = action.instrument_id;
    quantity = target;
    reason_code = action.reason_code;
  }
  place_target plan manifest event position b

-- the order types that the engine takes directly
abbrev pub direct_type : ExecutionPlan → OrderType → Call PendingType
direct_type plan OrderType.market = ok PendingType.market
direct_type plan OrderType.limit = ok PendingType.limit
direct_type plan _ = fail_action plan ErrorCode.order_rejected

abbrev pub direct_order : MarketEvent → SubmitOrder → PendingType → PendingOrder
direct_order event action order_type = record {
  client_order_id = action.client_order_id;
  instrument_id = action.instrument_id;
  order_type = order_type;
  submitted_at = event.available_time;
  side = some action.side;
  quantity = some action.quantity;
  target_quantity = none;
  limit_price = action.limit_price;
}

-- the branch of a `SubmitOrder`
unfoldable pub place_order :
    ExecutionPlan → StrategyManifest → MarketEvent → SubmitOrder → Book → Call Book
place_order plan manifest event action b = do
  order_type ← direct_type plan action.order_type
  raise_if (any (has_id action.client_order_id) b.pending)
      (action_error plan ErrorCode.order_rejected)
  raise_if (exceeds action.quantity manifest.action_requirements.max_order_quantity)
      (action_error plan ErrorCode.order_rejected)
  ok (accept event (direct_order event action order_type) b)

-- `instrument_id not in universe` raises
abbrev pub in_universe : ExecutionPlan → List String → String → Call Book → Call Book
in_universe plan universe instrument_id rest =
    if not (contains universe instrument_id)
    then fail_action plan ErrorCode.action_invalid
    else rest

-- The body of the loop over the actions of an event.
module _ (plan : ExecutionPlan) (manifest : StrategyManifest) (universe : List String) where
  unfoldable pub handle_action :
      MarketEvent → AccountSnapshot → Dict Decimal → Action → Book → Call Book
  handle_action event snapshot marks (no_op a) b = ok (record b { no_op_count = b.no_op_count + 1 })
  handle_action event snapshot marks (prediction a) b = ok b
  handle_action event snapshot marks (cancel_order a) b = cancel plan event a b
  handle_action event snapshot marks (replace_order a) b = replace plan event a b
  handle_action event snapshot marks (target_weight a) b =
      in_universe plan universe a.instrument_id
        (place_weight plan manifest event snapshot marks a b)
  handle_action event snapshot marks (target_position a) b =
      in_universe plan universe a.instrument_id (place_target plan manifest event a b)
  handle_action event snapshot marks (submit_order a) b =
      in_universe plan universe a.instrument_id (place_order plan manifest event a b)

  unfoldable pub handle_actions :
      MarketEvent → AccountSnapshot → Dict Decimal → List Action → Book → Call Book
  handle_actions event snapshot marks [] b = ok b
  handle_actions event snapshot marks (a ∷ actions) b =
      handle_action event snapshot marks a b >>= λ c. handle_actions event snapshot marks actions c
