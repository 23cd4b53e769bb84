-- ===== src/Strategies/SmaCross.antt =====
-- src/psrc/examples/sma_cross.py: `SmaCrossStrategy`.
pub mod Windows
use Prim.Native.String.{◌++◌ as ◌+++◌}
use strategy_adapter.Prelude.{
  ℕ, suc, ◌+◌, ◌-◌, ◌≤◌, ◌<◌, ◌≡◌, refl, String, Bool, true, false, not, ◌||◌, List, [], ◌∷◌,
  length, Option, none, some, ok, raised, ◌>>=◌, leb, ltb, show, if◌then◌else◌,
}
use strategy_adapter.Decimal.{Decimal, of_nat, of_neg, quotient, sum, lt?}
use strategy_adapter.Contract.Errors.{Call, python, value_error}
use strategy_adapter.Contract.Models.{StrategyManifest, StrategyKind, TrainingMode, ActionKind}
use strategy_adapter.Domain.Market.{
  MarketEvent, MarketPayload, bar, trade, quote_l1, book_snapshot_l2, BarPayload,
}
use strategy_adapter.Domain.Account.{AccountSnapshot}
use strategy_adapter.Domain.Actions.{Action, target_position}
use strategy_adapter.Runtime.Strategy.{RuntimeStrategy}
use strategy_adapter.Strategies.Common.{make_manifest, bar_requirement, wait}
use strategy_adapter.Strategies.Window.{append, take_last}

-- `manifest()`, whose parts are those of `make_manifest` but for the seed and the order's limit
unfoldable pub sma_manifest : StrategyManifest
sma_manifest =
    record (make_manifest "rule.sma_cross" StrategyKind.rule
      "psrc.examples.sma_cross:SmaCrossStrategy" ("core.bar.v1" ∷ "execution.basic.v1" ∷ [])
      (bar_requirement "PT1M" ("SYNTH.TEST" ∷ []) 5 ∷ [])
      (ActionKind.no_op ∷ ActionKind.target_position ∷ []) TrainingMode.not_required
      (some (of_nat 1)) none) { seed = 0 }

abbrev pub target_to : MarketEvent → Decimal → String → List Action
target_to event quantity reason_code =
    target_position (record {
      instrument_id = event.instrument_id;
      quantity = quantity;
      reason_code = reason_code;
    })
    ∷ []

-- the attributes that `__init__` sets once
module _ (short_window long_window : ℕ) where
  -- the test that `__init__` makes
  unfoldable pub valid_windows : Bool
  valid_windows = not (ltb short_window 1 || leb long_window short_window)

  -- the mean of a window, by its own length
  abbrev pub mean : List Decimal → ℕ → Decimal
  mean closes n = quotient (sum closes) (of_nat n)

  -- `short_mean > long_mean`; both windows have passed the test above
  abbrev pub crosses : List Decimal → Bool
  crosses closes = lt? (mean closes long_window) (mean (take_last short_window closes) short_window)

  abbrev pub cross : List Decimal → Decimal
  cross closes = if crosses closes then of_nat 1 else of_neg 1

  -- `on_event`, of a bar whose close is appended
  unfoldable pub cross_or_wait : MarketEvent → List Decimal → List Action
  cross_or_wait event closes =
      if ltb (length closes) long_window
      then wait "warmup.incomplete"
          ("requires " +++ (show long_window +++ (" closes; has " +++ show (length closes))))
      else target_to event (cross closes) "signal.sma_cross"

  unfoldable pub sma_payload :
      MarketPayload → MarketEvent → List Decimal → Call (List Action × List Decimal)
  sma_payload (bar p) event closes =
      let after = append long_window closes p.close in ok (cross_or_wait event after, after)
  sma_payload _ event closes =
      ok (wait "unsupported.event" "SMA strategy accepts bar events only", closes)

  -- The memory is `_closes`.
  abbrev pub sma_cross : RuntimeStrategy
  sma_cross = record {
    Memory = List Decimal;
    manifest = sma_manifest;
    on_start = λ closes. ok [];
    on_event = λ event account closes. sma_payload event.payload event closes;
    on_finish = λ closes. ok closes;
  }
