-- ===== src/Strategies/Donchian.antt =====
-- src/psrc/strategies/rule.py: `DonchianBreakoutStrategy`.
pub mod Channels
use strategy_adapter.Prelude.{
  ℕ, ◌≡◌, refl, Bool, true, false, List, [], ◌∷◌, length, Option, none, some, ok, raised, ◌>>=◌,
  ltb, if◌then◌else◌,
}
use strategy_adapter.Decimal.{Decimal, of_nat, of_neg, lt?, max_of, min_of}
use strategy_adapter.Contract.Errors.{Call, python, value_error}
use strategy_adapter.Contract.Models.{StrategyManifest, StrategyKind, TrainingMode, ActionKind}
use strategy_adapter.Domain.Market.{
  MarketEvent, MarketPayload, bar, trade, quote_l1, book_snapshot_l2, BarPayload,
}
use strategy_adapter.Domain.Account.{AccountSnapshot}
use strategy_adapter.Domain.Actions.{Action}
use strategy_adapter.Runtime.Strategy.{RuntimeStrategy}
use strategy_adapter.Strategies.Common.{make_manifest, bar_requirement, wait}
use strategy_adapter.Strategies.Window.{append}
use strategy_adapter.Strategies.SmaCross.{target_to}

unfoldable pub donchian_manifest : StrategyManifest
donchian_manifest =
    make_manifest "rule.donchian_breakout" StrategyKind.rule
      "psrc.strategies.rule:DonchianBreakoutStrategy" ("core.bar.v1" ∷ "execution.basic.v1" ∷ [])
      (bar_requirement "P1D" ("SYNTH.DAILY" ∷ []) 5 ∷ [])
      (ActionKind.no_op ∷ ActionKind.target_position ∷ []) TrainingMode.not_required
      (some (of_nat 2)) (some (of_nat 10))

abbrev fold : (Decimal → Decimal → Decimal) → Decimal → List Decimal → Decimal
fold f acc [] = acc
fold f acc (x ∷ xs) = fold f (f acc x) xs

-- `max(xs)` and `min(xs)`: an empty window raises
abbrev pub extreme : (Decimal → Decimal → Decimal) → List Decimal → Call Decimal
extreme f [] = raised (python value_error)
extreme f (x ∷ xs) = ok (fold f x xs)

pub record Channel : Type 0 where
  pub highs : List Decimal
  pub lows : List Decimal

-- `self.lookback`
module _ (lookback : ℕ) where
  abbrev pub widen : BarPayload → Channel → Channel
  widen p c = record { highs = append lookback c.highs p.high; lows = append lookback c.lows p.low }

  -- the answer to a bar that closes here, when the channel is complete
  unfoldable pub breakout : MarketEvent → Decimal → Decimal → Decimal → List Action
  breakout event close upper lower =
      if lt? upper close
      then target_to event (of_nat 2) "signal.donchian_breakout"
      else if lt? close lower
      then target_to event (of_neg 2) "signal.donchian_breakout"
      else wait "signal.inside_channel" "no breakout"

  unfoldable pub donchian_bar : MarketEvent → BarPayload → Channel → Call (List Action × Channel)
  donchian_bar event p c =
      if ltb (length c.highs) lookback
      then ok (wait "warmup.donchian" "channel is incomplete", widen p c)
      else (extreme max_of c.highs >>= λ upper.
          extreme min_of c.lows >>= λ lower. ok (breakout event p.close upper lower, widen p c))

  unfoldable pub donchian_payload :
      MarketPayload → MarketEvent → Channel → Call (List Action × Channel)
  donchian_payload (bar p) event c = donchian_bar event p c
  donchian_payload _ event c = ok (wait "event.not_bar" "requires daily bars", c)

  abbrev pub donchian_breakout : RuntimeStrategy
  donchian_breakout = record {
    Memory = Channel;
    manifest = donchian_manifest;
    on_start = λ c. ok (record { highs = []; lows = [] });
    on_event = λ event account c. donchian_payload event.payload event c;
    on_finish = λ c. ok c;
  }
