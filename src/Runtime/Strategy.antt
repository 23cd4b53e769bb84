-- ===== src/Runtime/Strategy.antt =====
-- src/psrc/runtime/strategy.py: the protocol that a strategy implements. A strategy is an object
-- with a state of its own; a call may raise, and then the run is over.
use strategy_adapter.Prelude.{List}
use strategy_adapter.Contract.Errors.{Call}
use strategy_adapter.Contract.Models.{StrategyManifest}
use strategy_adapter.Domain.Market.{MarketEvent}
use strategy_adapter.Domain.Actions.{Action}
use strategy_adapter.Domain.Account.{AccountSnapshot}

pub record RuntimeStrategy : Type 1 where
  pub Memory : Type 0
  pub manifest : StrategyManifest
  pub on_start : Memory → Call Memory
  pub on_event : MarketEvent → AccountSnapshot → Memory → Call (List Action × Memory)
  pub on_finish : Memory → Call Memory
