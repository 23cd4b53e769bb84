-- ===== src/Runtime/Orchestrator.antt =====
-- src/psrc/runtime/orchestrator.py: a run from its plan to its report, for rule strategies and for
-- trainable ones. The lifecycle is a mutable object, so a step is an action on it, which keeps its
-- changes when it raises. `clock` gives the readings of the clock, in order.
pub mod Steps
pub mod Outcomes
pub mod Trained
use strategy_adapter.Prelude.{
  ℕ, ◌+◌, String, Option, some, List, [], ◌∷◌, ◌++◌, ok, raised, if◌then◌else◌, Bool, true, false,
}
use strategy_adapter.Contract.Errors.{
  ContractError, ErrorCode, ErrorStage, Raised, Call, violation, python,
}
use strategy_adapter.Contract.Models.{ExecutionPlan, SandboxMode}
use strategy_adapter.Contract.Compatibility.{apply_compatibility_plan}
use strategy_adapter.Domain.Market.{Timestamp, MarketEvent}
use strategy_adapter.Runtime.Artifacts.{ArtifactManifest}
use strategy_adapter.Runtime.Lifecycle.{
  LifecycleState, validated, capabilities_negotiated, initialized, training, artifact_saved,
  artifact_loaded, inference_backtest, finalized, Lifecycle, start, transition,
}
use strategy_adapter.Runtime.Strategy.{RuntimeStrategy}
use strategy_adapter.Runtime.Training.{TrainingRequest, TrainableRuntimeStrategy}
use strategy_adapter.Runtime.Report.{RuntimeLogRecord, LogLevel, RunReport}
use Steps.{Action, pure, lift, advance, history, ◌>>=◌, ◌>>◌, catch_all}

-- src/psrc/adapters/base.py: an engine behind the execution boundary
pub record BacktestAdapter : Type 1 where
  pub run_backtest :
      ExecutionPlan
      → (strategy : RuntimeStrategy) → List MarketEvent
      → SandboxMode
      → strategy.Memory
      → Call RunReport

-- an error of the run, by a plan and a strategy's name
abbrev pub run_error : ExecutionPlan → String → ErrorStage → ErrorCode → Raised
run_error plan strategy_id stage code = violation (record {
  run_id = plan.run_id;
  stage = stage;
  code = code;
  strategy_id = some strategy_id;
  engine_id = some plan.engine_id;
})

-- `_log`
abbrev log : Timestamp → String → String → RuntimeLogRecord
log time stage message = record {
  sequence = 0;
  timestamp = time;
  level = LogLevel.info;
  stage = stage;
  message = message;
}

-- whatever a transformation raises becomes COMPATIBILITY_TRANSFORM_FAILED
unfoldable pub transformed_or_fail :
    ExecutionPlan → Call (List MarketEvent) → Call (List MarketEvent)
transformed_or_fail plan (ok events) = ok events
transformed_or_fail plan (raised e) =
    raised (
      run_error plan plan.strategy_id ErrorStage.validation
        ErrorCode.compatibility_transform_failed)

-- `_effective_events`
unfoldable pub effective_events :
    ExecutionPlan → List MarketEvent → Timestamp → Call (List MarketEvent × RuntimeLogRecord)
unfolding transformed_or_fail
effective_events plan events time =
    elim (transformed_or_fail plan (apply_compatibility_plan events plan)) [
      | ok effective ↦
          ok (effective, log time "compatibility" "Compiled compatibility plan applied")
      | raised e ↦ raised e
    ]

-- the records with their sequence numbers
unfoldable pub numbered : ℕ → List RuntimeLogRecord → List RuntimeLogRecord
numbered n [] = []
numbered n (r ∷ rs) = record r { sequence = n } ∷ numbered (n + 1) rs

-- `_finalize_report`
unfoldable pub finalize_report :
    Timestamp → List LifecycleState → List RuntimeLogRecord → RunReport → RunReport
unfolding numbered
finalize_report time states prefix_logs report =
    let final = log time "finalization" "Run report finalized" in
    record report {
      lifecycle = states;
      logs = numbered 0 (prefix_logs ++ (report.logs ++ final ∷ []));
    }

-- the error that an exception other than a violation becomes in `run_rule`
abbrev pub rule_failure : ExecutionPlan → String → LifecycleState → Raised
rule_failure plan strategy_id state =
    run_error plan strategy_id ErrorStage.backtest ErrorCode.backtest_failed

-- and in `run_trainable`, by the state that it was raised in
abbrev pub trainable_failure : ExecutionPlan → String → LifecycleState → Raised
trainable_failure plan strategy_id training =
    run_error plan strategy_id ErrorStage.training ErrorCode.training_failed
trainable_failure plan strategy_id inference_backtest =
    run_error plan strategy_id ErrorStage.backtest ErrorCode.backtest_failed
trainable_failure plan strategy_id _ =
    run_error plan strategy_id ErrorStage.inference ErrorCode.inference_failed

module _ (clock : ℕ → Timestamp) (plan : ExecutionPlan) (engine : BacktestAdapter)
    (mode : SandboxMode) where
  -- the body of the `try` of `run_rule`
  unfoldable pub rule_body :
      (strategy : RuntimeStrategy) → List MarketEvent → strategy.Memory → Action RunReport
  rule_body strategy events memory = do
    effective ← lift (effective_events plan events (clock 0))
    advance validated
    advance capabilities_negotiated
    advance initialized
    advance inference_backtest
    let prefix_logs =
        log (clock 1) "initialization" "Strategy initialized"
        ∷ effective.1
        ∷ log (clock 2) "inference" "Inference event loop started"
        ∷ []
    report ← lift (engine.run_backtest plan strategy effective.0 mode memory)
    advance finalized
    states ← history
    pure (finalize_report (clock 3) states prefix_logs report)

  -- `run_rule`
  unfoldable pub run_rule :
      (strategy : RuntimeStrategy) → List MarketEvent → strategy.Memory → Call RunReport
  run_rule strategy events memory =
      let id = strategy.manifest.strategy_id in
      catch_all (rule_failure plan id) (rule_body strategy events memory)
        (start plan.run_id id plan.engine_id)

  module _ {Float Store : Type 0} (trainable : TrainableRuntimeStrategy Float Store) where
    open trainable use {strategy, train, load}

    -- the body of the `try` of `run_trainable`
    unfoldable pub trainable_body :
        TrainingRequest Float → List MarketEvent → Store → strategy.Memory → Action RunReport
    trainable_body request events store memory = do
      effective ← lift (effective_events plan events (clock 0))
      advance training
      trained ← lift (train request store memory)
      advance artifact_saved
      loaded ← lift (load trained.0 trained.1 plan.run_id trained.2)
      advance artifact_loaded
      advance inference_backtest
      let prefix_logs =
          log (clock 1) "initialization" "Strategy initialized"
          ∷ effective.1
          ∷ log (clock 2) "training" "Model or policy training started"
          ∷ log (clock 3) "training" "Model or policy training completed"
          ∷ log (clock 4) "artifact" "Training artifact saved"
          ∷ log (clock 5) "artifact" "Training artifact integrity-checked and loaded"
          ∷ log (clock 6) "inference" "Inference event loop started"
          ∷ []
      report ← lift (engine.run_backtest plan strategy effective.0 mode loaded)
      advance finalized
      states ← history
      pure (
          finalize_report (clock 7) states prefix_logs
            (record report { artifacts = trained.0 ∷ [] }))

    -- `run_trainable`: three transitions stand before its `try`
    unfoldable pub run_trainable :
        TrainingRequest Float → List MarketEvent → Store → strategy.Memory → Call RunReport
    run_trainable request events store memory =
        let id = strategy.manifest.strategy_id in
        let (prepared, l) =
          (do advance validated; advance capabilities_negotiated; advance initialized)
            (start plan.run_id id plan.engine_id) in
        elim prepared [
          | ok _ ↦
              catch_all (trainable_failure plan id) (trainable_body request events store memory) l
          | raised e ↦ raised e
        ]
