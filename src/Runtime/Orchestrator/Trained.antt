-- ===== src/Runtime/Orchestrator/Trained.antt =====
-- src/psrc/runtime/orchestrator.py: what a run of a trainable strategy returns when it returns, and
-- what it raises when it raises, whatever the engine and the strategy do.
use strategy_adapter.Prelude.{
  ℕ, ◌+◌, ◌≡◌, refl, ap, ◌∙◌, sym, subst, Result-cases, raised-injective, inl, inr, suc, List, [],
  ◌∷◌, ◌++◌, length, count_from, ok, raised, arith,
}
use strategy_adapter.Contract.Errors.{ErrorCode, ErrorStage, Raised, Call, violation, python}
use strategy_adapter.Contract.Models.{SandboxMode, ExecutionPlan}
use strategy_adapter.Contract.Compatibility.{apply_compatibility_plan}
use strategy_adapter.Domain.Market.{Timestamp, MarketEvent}
use strategy_adapter.Runtime.Artifacts.{ArtifactManifest}
use strategy_adapter.Runtime.Lifecycle.{
  LifecycleState, discovered, validated, capabilities_negotiated, initialized, training,
  artifact_saved, artifact_loaded, inference_backtest, finalized, Lifecycle, transition,
}
use strategy_adapter.Runtime.Training.{TrainingRequest, TrainableRuntimeStrategy}
use strategy_adapter.Runtime.Report.{RuntimeLogRecord, RunReport}
use strategy_adapter.Runtime.Orchestrator
use strategy_adapter.Runtime.Orchestrator.Steps
use strategy_adapter.Runtime.Orchestrator.Outcomes.{
  sequences, sequences-numbered, length-snoc, effective_events-ok, effective_events-raised,
}

-- What `run_trainable` makes of the report of the engine and the manifest of the stored artifact.
pub record IsTrained (engine_report : RunReport) (manifest : ArtifactManifest) (report : RunReport)
    : Type 0 where
  pub path :
      report.lifecycle
      ≡ discovered ∷ validated ∷ capabilities_negotiated ∷ initialized ∷ training ∷ artifact_saved
        ∷ artifact_loaded ∷ inference_backtest ∷ finalized ∷ []
  pub log_numbers : sequences report.logs ≡ count_from 0 (length engine_report.logs + 8)
  pub stored : report.artifacts ≡ manifest ∷ []
  pub rest : report ≡ record engine_report {
    lifecycle = report.lifecycle;
    logs = report.logs;
    artifacts = report.artifacts;
  }

total_logs :
    (rs : List RuntimeLogRecord) (r : RuntimeLogRecord)
    → suc (suc (suc (suc (suc (suc (suc (length (rs ++ r ∷ [])))))))) ≡ length rs + 8
total_logs rs r = omega (arith, length-snoc rs r)

module _ {Float Store : Type 0} (clock : ℕ → Timestamp) (plan : ExecutionPlan)
    (engine : Orchestrator.BacktestAdapter) (mode : SandboxMode)
    (trainable : TrainableRuntimeStrategy Float Store) (request : TrainingRequest Float)
    (events : List MarketEvent) (store : Store) (memory : trainable.strategy.Memory) where
  open trainable use {strategy, train, load}

  abbrev run : Call RunReport
  run = Orchestrator.run_trainable clock plan engine mode trainable request events store memory

  abbrev train_call : Call (ArtifactManifest × Store × strategy.Memory)
  train_call = train request store memory

  abbrev load_call : ArtifactManifest × Store × strategy.Memory → Call strategy.Memory
  load_call trained = load trained.0 trained.1 plan.run_id trained.2

  abbrev engine_call : List MarketEvent → strategy.Memory → Call RunReport
  engine_call effective loaded = engine.run_backtest plan strategy effective mode loaded

  abbrev body : Steps.Action RunReport
  body = Orchestrator.trainable_body clock plan engine mode trainable request events store memory

  -- a lifecycle of this run
  abbrev at_state : LifecycleState → List LifecycleState → Lifecycle
  at_state state later = record {
    run_id = plan.run_id;
    strategy_id = strategy.manifest.strategy_id;
    engine_id = plan.engine_id;
    state = state;
    history = discovered ∷ validated ∷ capabilities_negotiated ∷ initialized ∷ later;
  }

  abbrev begun : Lifecycle
  begun = at_state initialized []

  abbrev other : LifecycleState → Raised
  other = Orchestrator.trainable_failure plan strategy.manifest.strategy_id

  run-caught : run ≡ Steps.catch_all other body begun
  unfolding Orchestrator.run_trainable transition
  run-caught = refl

  body-completes :
      (effective : List MarketEvent) (trained : ArtifactManifest × Store × strategy.Memory)
      (loaded : strategy.Memory) (engine_report : RunReport)
      → apply_compatibility_plan events plan ≡ ok effective
      → train_call ≡ ok trained
      → load_call trained ≡ ok loaded
      → engine_call effective loaded ≡ ok engine_report
      → (report : RunReport) × (m : Lifecycle) × (body begun ≡ (ok report, m))
        × IsTrained engine_report trained.0 report
  unfolding Orchestrator.trainable_body transition Orchestrator.finalize_report
  body-completes effective trained loaded engine_report t tr ld e =
      let log_0 = Orchestrator.log (clock 1) "initialization" "Strategy initialized" in
      let log_1 =
        Orchestrator.log (clock 0) "compatibility" "Compiled compatibility plan applied" in
      let log_2 = Orchestrator.log (clock 2) "training" "Model or policy training started" in
      let log_3 = Orchestrator.log (clock 3) "training" "Model or policy training completed" in
      let log_4 = Orchestrator.log (clock 4) "artifact" "Training artifact saved" in
      let log_5 =
        Orchestrator.log (clock 5) "artifact" "Training artifact integrity-checked and loaded" in
      let log_6 = Orchestrator.log (clock 6) "inference" "Inference event loop started" in
      let log_7 = Orchestrator.log (clock 7) "finalization" "Run report finalized" in
      rw (effective_events-ok plan events (clock 0) effective t) (
        rw tr (
          rw ld (
            rw e (
              _,
              _,
              refl,
              record {
                path = refl;
                log_numbers =
                    sequences-numbered 0 (
                      log_0 ∷ log_1 ∷ log_2 ∷ log_3 ∷ log_4 ∷ log_5 ∷ log_6 ∷ engine_report.logs
                      ++ log_7 ∷ [])
                    ∙ ap (λ n. count_from 0 n) (total_logs engine_report.logs log_7);
                stored = refl;
                rest = refl;
              },
            ))))

  -- When the planned transformations, training, loading and the engine return, the run returns the
  -- report of the engine with the full training lifecycle, the stored artifact and its logs
  -- numbered from 0.
  pub training_completes :
      (effective : List MarketEvent) (trained : ArtifactManifest × Store × strategy.Memory)
      (loaded : strategy.Memory) (engine_report : RunReport)
      → apply_compatibility_plan events plan ≡ ok effective
      → train_call ≡ ok trained
      → load_call trained ≡ ok loaded
      → engine_call effective loaded ≡ ok engine_report
      → (report : RunReport) × (run ≡ ok report) × IsTrained engine_report trained.0 report
  training_completes effective trained loaded engine_report t tr ld e =
      let (report, _, returned, done) =
        body-completes effective trained loaded engine_report t tr ld e in
      (report, run-caught ∙ Steps.catch_all-ok other body begun _ report returned, done)

  -- a violation is passed on, another exception becomes an error with this stage and code
  abbrev passed_or : ErrorStage → ErrorCode → Raised → Raised
  passed_or stage code (violation c) = violation c
  passed_or stage code (python p) =
      Orchestrator.run_error plan strategy.manifest.strategy_id stage code

  -- Why a run of a trainable strategy raises, and what the cause is reported as.
  pub data Cause : Raised → Type 0 where
    transformation :
        (e : Raised)
        → apply_compatibility_plan events plan ≡ raised e
        → Cause (
            Orchestrator.run_error plan plan.strategy_id ErrorStage.validation
              ErrorCode.compatibility_transform_failed)
    train_raised :
        (e : Raised) (effective : List MarketEvent)
        → apply_compatibility_plan events plan ≡ ok effective
        → train_call ≡ raised e
        → Cause (passed_or ErrorStage.training ErrorCode.training_failed e)
    load_raised :
        (e : Raised) (effective : List MarketEvent)
        (trained : ArtifactManifest × Store × strategy.Memory)
        → apply_compatibility_plan events plan ≡ ok effective
        → train_call ≡ ok trained
        → load_call trained ≡ raised e
        → Cause (passed_or ErrorStage.inference ErrorCode.inference_failed e)
    engine_raised :
        (e : Raised) (effective : List MarketEvent)
        (trained : ArtifactManifest × Store × strategy.Memory) (loaded : strategy.Memory)
        → apply_compatibility_plan events plan ≡ ok effective
        → train_call ≡ ok trained
        → load_call trained ≡ ok loaded
        → engine_call effective loaded ≡ raised e
        → Cause (passed_or ErrorStage.backtest ErrorCode.backtest_failed e)

  trained_as :
      (e : Raised)
      → Steps.reported other training e ≡ passed_or ErrorStage.training ErrorCode.training_failed e
  trained_as (violation c) = refl
  trained_as (python p) = refl

  loaded_as :
      (e : Raised)
      → Steps.reported other artifact_saved e
        ≡ passed_or ErrorStage.inference ErrorCode.inference_failed e
  loaded_as (violation c) = refl
  loaded_as (python p) = refl

  ran_as :
      (e : Raised)
      → Steps.reported other inference_backtest e
        ≡ passed_or ErrorStage.backtest ErrorCode.backtest_failed e
  ran_as (violation c) = refl
  ran_as (python p) = refl

  transformation_fails :
      (e : Raised)
      → apply_compatibility_plan events plan ≡ raised e
      → run
        ≡ raised (
            Orchestrator.run_error plan plan.strategy_id ErrorStage.validation
              ErrorCode.compatibility_transform_failed)
  unfolding Orchestrator.trainable_body
  transformation_fails e t =
      run-caught
      ∙ Steps.catch_all-raised other body begun begun
          (Orchestrator.run_error plan plan.strategy_id ErrorStage.validation
            ErrorCode.compatibility_transform_failed)
          (rw (effective_events-raised plan events (clock 0) e t) refl)

  module _ (effective : List MarketEvent)
      (t : apply_compatibility_plan events plan ≡ ok effective) where
    effective-ok :
        Orchestrator.effective_events plan events (clock 0)
        ≡ ok (
          effective,
          Orchestrator.log (clock 0) "compatibility" "Compiled compatibility plan applied",
        )
    effective-ok = effective_events-ok plan events (clock 0) effective t

    train_fails :
        (e : Raised)
        → train_call ≡ raised e
        → run ≡ raised (passed_or ErrorStage.training ErrorCode.training_failed e)
    unfolding Orchestrator.trainable_body transition
    train_fails e tr =
        run-caught
        ∙ Steps.catch_all-raised other body begun (at_state training (training ∷ [])) e
            (rw effective-ok (rw tr refl))
        ∙ ap raised (trained_as e)

    load_fails :
        (e : Raised) (trained : ArtifactManifest × Store × strategy.Memory)
        → train_call ≡ ok trained
        → load_call trained ≡ raised e
        → run ≡ raised (passed_or ErrorStage.inference ErrorCode.inference_failed e)
    unfolding Orchestrator.trainable_body transition
    load_fails e trained tr ld =
        run-caught
        ∙ Steps.catch_all-raised other body begun
            (at_state artifact_saved (training ∷ artifact_saved ∷ [])) e
            (rw effective-ok (rw tr (rw ld refl)))
        ∙ ap raised (loaded_as e)

    engine_fails :
        (e : Raised) (trained : ArtifactManifest × Store × strategy.Memory)
        (loaded : strategy.Memory)
        → train_call ≡ ok trained
        → load_call trained ≡ ok loaded
        → engine_call effective loaded ≡ raised e
        → run ≡ raised (passed_or ErrorStage.backtest ErrorCode.backtest_failed e)
    unfolding Orchestrator.trainable_body transition
    engine_fails e trained loaded tr ld r =
        run-caught
        ∙ Steps.catch_all-raised other body begun
            (at_state inference_backtest
              (training ∷ artifact_saved ∷ artifact_loaded ∷ inference_backtest ∷ []))
            e (rw effective-ok (rw tr (rw ld (rw r refl))))
        ∙ ap raised (ran_as e)

  -- Whatever a run of a trainable strategy raises has one of these causes: a planned transformation
  -- raised (COMPATIBILITY_TRANSFORM_FAILED), or training, loading or the engine raised, what comes
  -- before it having returned, a violation (passed on) or another exception (TRAINING_FAILED,
  -- INFERENCE_FAILED, BACKTEST_FAILED).
  pub trained_failure_causes : (e : Raised) → run ≡ raised e → Cause e
  trained_failure_causes e h = elim (Result-cases (apply_compatibility_plan events plan)) [
    | inr (f, t) ↦
        subst Cause (raised-injective (sym (transformation_fails f t) ∙ h)) (transformation f t)
    | inl (effective, t) ↦ elim (Result-cases train_call) [
      | inr (f, tr) ↦
          subst Cause (raised-injective (sym (train_fails effective t f tr) ∙ h))
            (train_raised f effective t tr)
      | inl (trained, tr) ↦ elim (Result-cases (load_call trained)) [
        | inr (f, ld) ↦
            subst Cause (raised-injective (sym (load_fails effective t f trained tr ld) ∙ h))
              (load_raised f effective trained t tr ld)
        | inl (loaded, ld) ↦ elim (Result-cases (engine_call effective loaded)) [
          | inr (f, r) ↦
              subst Cause
                (raised-injective (sym (engine_fails effective t f trained loaded tr ld r) ∙ h))
                (engine_raised f effective trained loaded t tr ld r)
          | inl (engine_report, r) ↦
              let (_, returned, _) =
                training_completes effective trained loaded engine_report t tr ld r in
              cc
        ]
      ]
    ]
  ]
