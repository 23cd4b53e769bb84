-- ===== src/Domain/Account.antt =====
-- src/psrc/domain/account.py: positions, open orders, the snapshot of an account, and fills.
use strategy_adapter.Prelude.{String, Bool, ◌&&◌, Option, List}
use strategy_adapter.Decimal.{Decimal}
use strategy_adapter.Domain.Market.{Timestamp, positive, nonnegative}
use strategy_adapter.Domain.Actions.{Side, positive_or_none}

pub record Position : Type 0 where
  pub instrument_id : String
  pub quantity : Decimal
  pub average_price : Decimal
  pub realized_pnl : Decimal
  pub unrealized_pnl : Decimal

unfoldable pub validate_position : Position → Bool
validate_position p = nonnegative p.average_price

pub data PendingType : Type 0 where
  target market limit : PendingType

pub record OpenOrder : Type 0 where
  pub client_order_id : String
  pub instrument_id : String
  pub order_type : PendingType
  pub side : Option Side
  pub quantity : Option Decimal
  pub target_quantity : Option Decimal
  pub limit_price : Option Decimal

unfoldable pub validate_open_order : OpenOrder → Bool
validate_open_order o = positive_or_none o.quantity && positive_or_none o.limit_price

pub record AccountSnapshot : Type 0 where
  pub timestamp : Timestamp
  pub base_currency : String
  pub cash : Decimal
  pub equity : Decimal
  pub positions : List Position
  pub open_orders : List OpenOrder

pub record Fill : Type 0 where
  pub fill_id : String
  pub client_order_id : String
  pub instrument_id : String
  pub timestamp : Timestamp
  pub side : Side
  pub quantity : Decimal
  pub price : Decimal
  pub fee : Decimal

unfoldable pub validate_fill : Fill → Bool
validate_fill f = positive f.quantity && positive f.price && nonnegative f.fee
