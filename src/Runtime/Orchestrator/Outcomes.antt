-- ===== src/Runtime/Orchestrator/Outcomes.antt =====
-- src/psrc/runtime/orchestrator.py: what a rule run returns when it returns, and what it raises when
-- it raises, whatever the engine and the strategy do.
use strategy_adapter.Prelude.{
  ℕ, suc, count_from, ◌+◌, ◌≡◌, refl, ap, ◌∙◌, sym, subst, Result-cases, raised-injective, inl, inr,
  List, [], ◌∷◌, ◌++◌, map, length, String, ok, raised, arith,
}
use strategy_adapter.Contract.Errors.{
  ContractError, ErrorCode, ErrorStage, Raised, Call, violation, python, PythonError,
}
use strategy_adapter.Contract.Models.{ExecutionPlan, SandboxMode}
use strategy_adapter.Contract.Compatibility.{apply_compatibility_plan}
use strategy_adapter.Domain.Market.{Timestamp, MarketEvent}
use strategy_adapter.Runtime.Lifecycle.{
  LifecycleState, discovered, validated, capabilities_negotiated, initialized, inference_backtest,
  finalized, Lifecycle, start, transition,
}
use strategy_adapter.Runtime.Strategy.{RuntimeStrategy}
use strategy_adapter.Runtime.Report.{RuntimeLogRecord, RunReport}
use strategy_adapter.Runtime.Orchestrator
use strategy_adapter.Runtime.Orchestrator.Steps

abbrev pub sequences : List RuntimeLogRecord → List ℕ
sequences = map (λ r. r.sequence)

pub sequences-numbered :
    (n : ℕ) (rs : List RuntimeLogRecord)
    → sequences (Orchestrator.numbered n rs) ≡ count_from n (length rs)
unfolding Orchestrator.numbered
sequences-numbered n [] = refl
sequences-numbered n (r ∷ rs) = ap (λ ms. n ∷ ms) (sequences-numbered (n + 1) rs)

pub length-snoc :
    (rs : List RuntimeLogRecord) (r : RuntimeLogRecord) → length (rs ++ r ∷ []) ≡ length rs + 1
length-snoc [] r = refl
length-snoc (x ∷ rs) r = omega (arith, length-snoc rs r)

total_logs :
    (rs : List RuntimeLogRecord) (r : RuntimeLogRecord)
    → suc (suc (suc (length (rs ++ r ∷ [])))) ≡ length rs + 4
total_logs rs r = omega (arith, length-snoc rs r)

pub effective_events-ok :
    (plan : ExecutionPlan) (events : List MarketEvent) (time : Timestamp)
    (effective : List MarketEvent)
    → apply_compatibility_plan events plan ≡ ok effective
    → Orchestrator.effective_events plan events time
      ≡ ok (effective, Orchestrator.log time "compatibility" "Compiled compatibility plan applied")
unfolding Orchestrator.effective_events Orchestrator.transformed_or_fail
effective_events-ok plan events time effective t =
    rw (t, Orchestrator.effective_events, Orchestrator.transformed_or_fail) refl

pub effective_events-raised :
    (plan : ExecutionPlan) (events : List MarketEvent) (time : Timestamp) (e : Raised)
    → apply_compatibility_plan events plan ≡ raised e
    → Orchestrator.effective_events plan events time
      ≡ raised (
          Orchestrator.run_error plan plan.strategy_id ErrorStage.validation
            ErrorCode.compatibility_transform_failed)
unfolding Orchestrator.effective_events Orchestrator.transformed_or_fail
effective_events-raised plan events time e t =
    rw (t, Orchestrator.effective_events, Orchestrator.transformed_or_fail) refl

-- What `run_rule` makes of the report of the engine.
pub record IsCompleted (engine_report report : RunReport) : Type 0 where
  pub path :
      report.lifecycle
      ≡ discovered ∷ validated ∷ capabilities_negotiated ∷ initialized ∷ inference_backtest
        ∷ finalized ∷ []
  pub log_numbers : sequences report.logs ≡ count_from 0 (length engine_report.logs + 4)
  pub rest : report ≡ record engine_report { lifecycle = report.lifecycle; logs = report.logs }

-- Why a rule run raises `e`: a planned transformation raised, or the engine did.
pub data Cause (plan : ExecutionPlan) (strategy_id : String) (transformed : Call (List MarketEvent))
    (engine_call : List MarketEvent → Call RunReport) : Raised → Type 0 where
  transformation :
      (e : Raised)
      → transformed ≡ raised e
      → Cause plan strategy_id transformed engine_call (
          Orchestrator.run_error plan plan.strategy_id ErrorStage.validation
            ErrorCode.compatibility_transform_failed)
  engine_violation :
      (events : List MarketEvent) (c : ContractError)
      → transformed ≡ ok events
      → engine_call events ≡ raised (violation c)
      → Cause plan strategy_id transformed engine_call (violation c)
  engine_exception :
      (events : List MarketEvent) (e : PythonError)
      → transformed ≡ ok events
      → engine_call events ≡ raised (python e)
      → Cause plan strategy_id transformed engine_call
          (Orchestrator.run_error plan strategy_id ErrorStage.backtest ErrorCode.backtest_failed)

module _ (clock : ℕ → Timestamp) (plan : ExecutionPlan) (engine : Orchestrator.BacktestAdapter)
    (mode : SandboxMode) (strategy : RuntimeStrategy) (events : List MarketEvent)
    (memory : strategy.Memory) where
  abbrev run : Call RunReport
  run = Orchestrator.run_rule clock plan engine mode strategy events memory

  abbrev engine_call : List MarketEvent → Call RunReport
  engine_call effective = engine.run_backtest plan strategy effective mode memory

  abbrev body : Steps.Action RunReport
  body = Orchestrator.rule_body clock plan engine mode strategy events memory

  abbrev begun : Lifecycle
  begun = start plan.run_id strategy.manifest.strategy_id plan.engine_id

  abbrev other : LifecycleState → Raised
  other = Orchestrator.rule_failure plan strategy.manifest.strategy_id

  -- the lifecycle that the engine's call finds
  abbrev at_backtest : Lifecycle → Lifecycle
  at_backtest l = record l {
    state = inference_backtest;
    history =
        discovered ∷ validated ∷ capabilities_negotiated ∷ initialized ∷ inference_backtest ∷ [];
  }

  body-completes :
      (effective : List MarketEvent) (engine_report : RunReport)
      → apply_compatibility_plan events plan ≡ ok effective
      → engine_call effective ≡ ok engine_report
      → (report : RunReport) × (m : Lifecycle) × (body begun ≡ (ok report, m))
        × IsCompleted engine_report report
  unfolding Orchestrator.rule_body transition Orchestrator.finalize_report
  body-completes effective engine_report t e =
      let log_0 = Orchestrator.log (clock 1) "initialization" "Strategy initialized" in
      let log_1 =
        Orchestrator.log (clock 0) "compatibility" "Compiled compatibility plan applied" in
      let log_2 = Orchestrator.log (clock 2) "inference" "Inference event loop started" in
      let log_3 = Orchestrator.log (clock 3) "finalization" "Run report finalized" in
      rw (effective_events-ok plan events (clock 0) effective t) (
        rw e (
          _,
          _,
          refl,
          record {
            path = refl;
            log_numbers =
                sequences-numbered 0 (log_0 ∷ log_1 ∷ log_2 ∷ engine_report.logs ++ log_3 ∷ [])
                ∙ ap (λ n. count_from 0 n) (total_logs engine_report.logs log_3);
            rest = refl;
          },
        ))

  -- When the planned transformations and the engine return, the rule run returns: the report of the
  -- engine, with the history of an untrained run that was finalized as its lifecycle and its log
  -- records, four more than the engine's, numbered from 0.
  pub rule_completes :
      (effective : List MarketEvent) (engine_report : RunReport)
      → apply_compatibility_plan events plan ≡ ok effective
      → engine_call effective ≡ ok engine_report
      → (report : RunReport) × (run ≡ ok report) × IsCompleted engine_report report
  unfolding Orchestrator.run_rule
  rule_completes effective engine_report t e =
      let (report, _, returned, done) = body-completes effective engine_report t e in
      (report, Steps.catch_all-ok other body begun _ report returned, done)

  transformation_fails :
      (e : Raised)
      → apply_compatibility_plan events plan ≡ raised e
      → run
        ≡ raised (
            Orchestrator.run_error plan plan.strategy_id ErrorStage.validation
              ErrorCode.compatibility_transform_failed)
  unfolding Orchestrator.run_rule Orchestrator.rule_body
  transformation_fails e t =
      Steps.catch_all-raised other body begun begun
        (Orchestrator.run_error plan plan.strategy_id ErrorStage.validation
          ErrorCode.compatibility_transform_failed)
        (rw (effective_events-raised plan events (clock 0) e t) refl)

  engine_fails :
      (effective : List MarketEvent) (e : Raised)
      → apply_compatibility_plan events plan ≡ ok effective
      → engine_call effective ≡ raised e
      → run ≡ raised (Steps.reported other inference_backtest e)
  unfolding Orchestrator.run_rule Orchestrator.rule_body transition
  engine_fails effective e t r =
      Steps.catch_all-raised other body begun (at_backtest begun) e
        (rw (effective_events-ok plan events (clock 0) effective t) (rw r refl))

  abbrev Why : Raised → Type 0
  Why = Cause plan strategy.manifest.strategy_id (apply_compatibility_plan events plan) engine_call

  engine_cause :
      (effective : List MarketEvent) (f e : Raised)
      → apply_compatibility_plan events plan ≡ ok effective
      → engine_call effective ≡ raised f
      → run ≡ raised e
      → Why e
  engine_cause effective (violation c) e t r h =
      subst Why (raised-injective (sym (engine_fails effective (violation c) t r) ∙ h))
        (engine_violation effective c t r)
  engine_cause effective (python p) e t r h =
      subst Why (raised-injective (sym (engine_fails effective (python p) t r) ∙ h))
        (engine_exception effective p t r)

  -- Whatever a rule run raises has one of these causes: a planned transformation raised (reported
  -- as COMPATIBILITY_TRANSFORM_FAILED), the engine raised a violation (passed on as it is), or the
  -- engine raised another exception (reported as BACKTEST_FAILED).
  pub rule_failure_causes : (e : Raised) → run ≡ raised e → Why e
  rule_failure_causes e h = elim (Result-cases (apply_compatibility_plan events plan)) [
    | inr (f, t) ↦
        subst Why (raised-injective (sym (transformation_fails f t) ∙ h)) (transformation f t)
    | inl (effective, t) ↦ elim (Result-cases (engine_call effective)) [
      | inr (f, r) ↦ engine_cause effective f e t r h
      | inl (engine_report, r) ↦
          let (report, returned, done) = rule_completes effective engine_report t r in cc
    ]
  ]
