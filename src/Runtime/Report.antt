-- ===== src/Runtime/Report.antt =====
-- src/psrc/runtime/report.py: the records of a run and its report. The free-form fields of a log
-- record, the assumptions and the errors, which are text for a reader, are left out.
pub mod Bundle
use strategy_adapter.Prelude.{ℕ, String, List}
use strategy_adapter.Decimal.{Decimal}
use strategy_adapter.Contract.Models.{ExecutionPlan, SandboxMode}
use strategy_adapter.Domain.Market.{Timestamp}
use strategy_adapter.Domain.Actions.{Action}
use strategy_adapter.Domain.Account.{AccountSnapshot, Fill}
use strategy_adapter.Runtime.Lifecycle.{LifecycleState}
use strategy_adapter.Runtime.Artifacts.{ArtifactManifest}

pub record DecisionRecord : Type 0 where
  pub sequence : ℕ
  pub event_id : String
  pub event_time : Timestamp
  pub actions : List Action

pub data OrderStatus : Type 0 where
  accepted replaced canceled filled satisfied expired : OrderStatus

pub record OrderEventRecord : Type 0 where
  pub sequence : ℕ
  pub client_order_id : String
  pub instrument_id : String
  pub event_time : Timestamp
  pub status : OrderStatus

pub data LogLevel : Type 0 where
  debug info warning error : LogLevel

pub record RuntimeLogRecord : Type 0 where
  pub sequence : ℕ
  pub timestamp : Timestamp
  pub level : LogLevel
  pub stage : String
  pub message : String

pub record RunMetrics : Type 0 where
  pub initial_cash : Decimal
  pub final_cash : Decimal
  pub final_equity : Decimal
  pub total_return : Decimal
  pub decisions : ℕ
  pub orders : ℕ
  pub fills : ℕ
  pub no_ops : ℕ

pub record RunReport : Type 0 where
  pub run_id : String
  pub execution_plan : ExecutionPlan
  pub sandbox_mode : SandboxMode
  pub started_at : Timestamp
  pub finished_at : Timestamp
  pub metrics : RunMetrics
  pub decisions : List DecisionRecord
  pub orders : List OrderEventRecord
  pub fills : List Fill
  pub account_snapshots : List AccountSnapshot
  pub logs : List RuntimeLogRecord
  pub lifecycle : List LifecycleState
  pub artifacts : List ArtifactManifest
