-- ===== src/Tests/Runs.antt =====
-- The theorems on the lifecycle and on the orchestrator at runs with the reference engine.
use strategy_adapter.Prelude.{
  ℕ, suc, ◌+◌, ◌≤◌, ◌≡◌, inl, refl, List, [], ◌∷◌, length, none, some, ok, raised,
}
use strategy_adapter.Contract.Errors.{Call, ErrorCode, ErrorStage, python, value_error, violation}
use strategy_adapter.Contract.Models.{development}
use strategy_adapter.Contract.Compatibility.{apply_compatibility_plan, apply_records}
use strategy_adapter.Domain.Market.{MarketEvent}
use strategy_adapter.Runtime.Artifacts.{ArtifactManifest, ArtifactKind}
use strategy_adapter.Runtime.Report.{RunReport}
use strategy_adapter.Runtime.Training.{TrainingRequest, TrainableRuntimeStrategy}
use strategy_adapter.Runtime.Lifecycle.{
  LifecycleState, discovered, validated, capabilities_negotiated, initialized, inference_backtest,
  finalized, Lifecycle, start, transition, fail, illegal_transition,
}
use strategy_adapter.Runtime.Lifecycle.Paths.{
  Reach, here, next, IsRecorded, history-IsRecorded, length-history-le,
}
use strategy_adapter.Runtime.Lifecycle.Endings.{
  IsFinishing, finalized_histories, ended_is_final, Failed, fail_total,
}
use strategy_adapter.Runtime.Orchestrator.{
  BacktestAdapter, run_rule, rule_body, run_trainable, trainable_body, run_error, effective_events,
  transformed_or_fail,
}
use strategy_adapter.Runtime.Orchestrator.Steps.{catch_all, caught}
use strategy_adapter.Runtime.Orchestrator.Outcomes
use strategy_adapter.Runtime.Orchestrator.Trained
use strategy_adapter.Adapters.Reference.Run.{run}
use strategy_adapter.Tests.Data.{plan, events, reference, clock, crossing}
use strategy_adapter.Tests.Engine.{returns}

-- the reference engine behind the boundary
abbrev engine : BacktestAdapter
engine = record {
  run_backtest =
      λ plan strategy events mode memory. run reference plan strategy events mode clock memory;
}

-- an engine that always raises
abbrev broken : BacktestAdapter
broken = record { run_backtest = λ plan strategy events mode memory. raised (python value_error) }

abbrev ticks : ℕ → ℕ
ticks n = 20 + n

untouched : apply_compatibility_plan events plan ≡ ok events
unfolding apply_compatibility_plan apply_records
untouched = refl

rule_completes_example :
    (report : RunReport) × (run_rule ticks plan engine development crossing events 0 ≡ ok report)
    × Outcomes.IsCompleted returns.0 report
rule_completes_example =
    Outcomes.rule_completes ticks plan engine development crossing events 0 events returns.0
      untouched returns.1

broken_run :
    run_rule ticks plan broken development crossing events 0
    ≡ raised (run_error plan "crossing" ErrorStage.backtest ErrorCode.backtest_failed)
unfolding run_rule rule_body catch_all caught effective_events transformed_or_fail
    apply_compatibility_plan apply_records transition fail
broken_run = refl

abbrev broken_call : List MarketEvent → Call RunReport
broken_call effective = broken.run_backtest plan crossing effective development 0

rule_failure_causes_example :
    Outcomes.Cause plan "crossing"
      (apply_compatibility_plan events plan)
      broken_call
      (run_error plan "crossing" ErrorStage.backtest ErrorCode.backtest_failed)
rule_failure_causes_example =
    Outcomes.rule_failure_causes ticks plan broken development crossing events 0
      (run_error plan "crossing" ErrorStage.backtest ErrorCode.backtest_failed) broken_run

abbrev stored : ArtifactManifest
stored = record {
  contract_version = "1.1.0";
  artifact_id = "weights";
  strategy_id = "crossing";
  strategy_version = "1.0.0";
  artifact_kind = ArtifactKind.model;
  framework = "none";
  created_at = 0;
  training_dataset_id = none;
  seed = some 7;
  files = [];
  metadata = [];
}

-- a trainable strategy that trains to nothing and loads it again; its store counts the writes
abbrev learner : TrainableRuntimeStrategy ℕ ℕ
learner = record {
  strategy = crossing;
  train = λ request store memory. ok (stored, suc store, memory);
  load = λ manifest store run_id memory. ok 0;
}

-- one whose stored artifact cannot be read back
abbrev forgetful : TrainableRuntimeStrategy ℕ ℕ
forgetful = record {
  strategy = crossing;
  train = λ request store memory. ok (stored, suc store, memory);
  load = λ manifest store run_id memory. raised (python value_error);
}

abbrev request : TrainingRequest ℕ
request = record {
  run_id = "run";
  dataset_id = "synthetic";
  seed = 7;
  features = [];
  labels = [];
  transitions = [];
  metadata = [];
}

training_completes_example :
    (report : RunReport) × (run_trainable ticks plan engine development learner request events 0 0
      ≡ ok report)
    × Trained.IsTrained returns.0 stored report
training_completes_example =
    Trained.training_completes ticks plan engine development learner request events 0 0 events
      (stored, 1, 0) 0 returns.0 untouched refl refl returns.1

forgetful_run :
    run_trainable ticks plan engine development forgetful request events 0 0
    ≡ raised (run_error plan "crossing" ErrorStage.inference ErrorCode.inference_failed)
unfolding run_trainable trainable_body catch_all caught effective_events transformed_or_fail
    apply_compatibility_plan apply_records transition fail
forgetful_run = refl

trained_failure_causes_example :
    Trained.Cause ticks plan engine development forgetful request events 0 0
      (run_error plan "crossing" ErrorStage.inference ErrorCode.inference_failed)
trained_failure_causes_example =
    Trained.trained_failure_causes ticks plan engine development forgetful request events 0 0
      (run_error plan "crossing" ErrorStage.inference ErrorCode.inference_failed) forgetful_run

abbrev at_end : List LifecycleState → LifecycleState → Lifecycle
at_end history state = record {
  run_id = "run";
  strategy_id = "crossing";
  engine_id = "reference";
  state = state;
  history = history;
}

abbrev straight : List LifecycleState
straight =
    discovered ∷ validated ∷ capabilities_negotiated ∷ initialized ∷ inference_backtest ∷ finalized
    ∷ []

reached : Reach (start "run" "crossing" "reference") (at_end straight finalized)
unfolding transition
reached =
    next finalized
      (next inference_backtest
        (next initialized (next capabilities_negotiated (next validated here refl) refl) refl) refl)
      refl

history-IsRecorded_example : IsRecorded (at_end straight finalized)
history-IsRecorded_example = history-IsRecorded "run" "crossing" "reference" reached

length-history-le_example : length straight ≤ 9
length-history-le_example = length-history-le "run" "crossing" "reference" reached

finalized_histories_example :
    (path : List LifecycleState) × (straight
      ≡ discovered ∷ validated ∷ capabilities_negotiated ∷ initialized ∷ path)
    × IsFinishing path
finalized_histories_example = finalized_histories "run" "crossing" "reference" reached refl

ended_is_final_example :
    ((t : LifecycleState)
      → transition t (at_end straight finalized)
        ≡ raised (violation (illegal_transition (at_end straight finalized))))
    × (fail (at_end straight finalized) ≡ ok (at_end straight finalized))
ended_is_final_example = ended_is_final (at_end straight finalized) (inl refl)

fail_total_example :
    (m : Lifecycle) × (fail (start "run" "crossing" "reference") ≡ ok m)
    × Failed (start "run" "crossing" "reference") m
fail_total_example = fail_total (start "run" "crossing" "reference")
