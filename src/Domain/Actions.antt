-- ===== src/Domain/Actions.antt =====
-- src/psrc/domain/actions.py: what a strategy may ask for.
use strategy_adapter.Prelude.{String, Bool, true, false, not, ◌&&◌, Option, none, some}
use strategy_adapter.Decimal.{Decimal, of_nat, abs, lt?}
use strategy_adapter.Domain.Market.{positive}

pub data Side : Type 0 where
  buy sell : Side

pub data OrderType : Type 0 where
  market limit stop stop_limit : OrderType

pub data TimeInForce : Type 0 where
  day gtc ioc fok : TimeInForce

pub record NoOp : Type 0 where
  pub reason_code : String
  pub explanation : String

pub record Prediction : Type 0 where
  pub instrument_id : String
  pub value : Decimal
  pub horizon : String
  pub model_artifact_id : String
  pub reason_code : String

pub record TargetPosition : Type 0 where
  pub instrument_id : String
  pub quantity : Decimal
  pub reason_code : String

pub record TargetWeight : Type 0 where
  pub instrument_id : String
  pub weight : Decimal
  pub reason_code : String

unfoldable pub validate_weight : TargetWeight → Bool
validate_weight a = not (lt? (of_nat 1) (abs a.weight))

pub record SubmitOrder : Type 0 where
  pub client_order_id : String
  pub instrument_id : String
  pub side : Side
  pub order_type : OrderType
  pub quantity : Decimal
  pub limit_price : Option Decimal
  pub stop_price : Option Decimal
  pub time_in_force : TimeInForce
  pub reason_code : String

-- `Field(default=None, gt=0)`
abbrev pub positive_or_none : Option Decimal → Bool
positive_or_none none = true
positive_or_none (some d) = positive d

abbrev is_given : Option Decimal → Bool
is_given none = false
is_given (some d) = true

-- which prices an order of this type must state
abbrev pub prices_given : OrderType → Option Decimal → Option Decimal → Bool
prices_given OrderType.market limit_price stop_price = true
prices_given OrderType.limit limit_price stop_price = is_given limit_price
prices_given OrderType.stop limit_price stop_price = is_given stop_price
prices_given OrderType.stop_limit limit_price stop_price =
    is_given limit_price && is_given stop_price

unfoldable pub validate_prices : SubmitOrder → Bool
validate_prices a =
    positive a.quantity
    && positive_or_none a.limit_price
    && positive_or_none a.stop_price
    && prices_given a.order_type a.limit_price a.stop_price

pub record CancelOrder : Type 0 where
  pub client_order_id : String
  pub reason_code : String

pub record ReplaceOrder : Type 0 where
  pub client_order_id : String
  pub new_quantity : Option Decimal
  pub new_limit_price : Option Decimal
  pub reason_code : String

unfoldable pub validate_replace : ReplaceOrder → Bool
validate_replace a = positive_or_none a.new_quantity && positive_or_none a.new_limit_price

pub data Action : Type 0 where
  no_op : NoOp → Action
  prediction : Prediction → Action
  target_position : TargetPosition → Action
  target_weight : TargetWeight → Action
  submit_order : SubmitOrder → Action
  cancel_order : CancelOrder → Action
  replace_order : ReplaceOrder → Action

-- An action that a strategy could construct at all.
unfoldable pub validate_action : Action → Bool
validate_action (no_op a) = true
validate_action (prediction a) = true
validate_action (target_position a) = true
validate_action (target_weight a) = validate_weight a
validate_action (submit_order a) = validate_prices a
validate_action (cancel_order a) = true
validate_action (replace_order a) = validate_replace a
