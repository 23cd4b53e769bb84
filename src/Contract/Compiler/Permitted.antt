-- ===== src/Contract/Compiler/Permitted.antt =====
-- src/psrc/contract/compiler.py: the transformations of a plan against the policy.
use strategy_adapter.Prelude.{
  String, ◌≡◌, ◌⊎◌, inl, inr, refl, Bool, true, not, ◌&&◌, Option, none, some, List, [], ◌∷◌, ◌++◌,
  All, All-append, contains, difference, nonempty, ok, >>=-eq-ok, raise_if, ok-injective, arith,
  string_eq, ◌==◌, ◌!=◌, Bool-cases, Option-cases, subst,
}
use strategy_adapter.Contract.Models.{
  StrategyManifest, EngineCapabilities, DatasetManifest, DatasetStream, DataRequirement, RunPolicy,
  data_kind_eq, ExecutionPlan, CompatibilityRecord, CompatibilityResult, timeframe_eq,
  sandbox_mode_eq,
}
use strategy_adapter.Domain.Market.{Timestamp}
use strategy_adapter.Contract.Compiler.Timeframes.{can_resample}
use strategy_adapter.Contract.Compiler.Symbols.{Mapping, symbol_mapping}
use strategy_adapter.Contract.Compiler.Requirement.{
  Context, find_stream, compile_symbols, compile_timeframe, compile_stream, compile_requirement,
  compile_requirements, or_exact,
}
use strategy_adapter.Contract.Models.Identifiers.{is_identifier, is_code_digest}
use strategy_adapter.Contract.Compiler.Plan.{
  Digests, check_versions, check_capabilities, compile_run, context_of,
}
use strategy_adapter.Contract.Compiler.Fitting.{refused}

-- A record is exact, or a lossless mapping that the policy allows, or a lossy resampling that it
-- allows twice, by its name and by `allow_lossy`.
abbrev pub IsPermitted : RunPolicy → CompatibilityRecord → Type 0
IsPermitted policy r =
    ((r.result ≡ CompatibilityResult.exact) × (r.transformation_id ≡ none))
    ⊎ ((r.result ≡ CompatibilityResult.transformed_lossless)
        × (r.transformation_id ≡ some "symbol.map.v1")
        × (contains policy.allowed_transformations "symbol.map.v1" ≡ true))
    ⊎ ((r.result ≡ CompatibilityResult.transformed_lossy)
        × (r.transformation_id ≡ some "bar.resample.v1")
        × (contains policy.allowed_transformations "bar.resample.v1" ≡ true)
        × (policy.allow_lossy ≡ true))

symbol_mapping_allowed :
    (stream : DatasetStream) (required : List String) (policy : RunPolicy) {m : Mapping}
    → symbol_mapping stream required policy ≡ some m
    → contains policy.allowed_transformations "symbol.map.v1" ≡ true
unfolding symbol_mapping
symbol_mapping_allowed stream required policy e = ground arith

and_true : (a b d : Bool) → (a && b && d) ≡ true → (a ≡ true) × (b ≡ true)
and_true a b d h = (ground arith, ground arith)

module _ (c : Context) (policy : RunPolicy) where
  compile_symbols-IsPermitted :
      (stream : DatasetStream) (requirement : DataRequirement) (rs : List CompatibilityRecord)
      → compile_symbols c policy stream requirement ≡ ok rs
      → All (IsPermitted policy) rs
  unfolding compile_symbols
  compile_symbols-IsPermitted stream requirement rs e =
      elim (Bool-cases (nonempty (difference requirement.symbols stream.symbols))) [
        | inl missing ↦ elim (Option-cases (symbol_mapping stream requirement.symbols policy)) [
          | inl unmapped ↦ absurd (refused (rw (missing, unmapped) at e))
          | inr (m, mapped) ↦
              subst (All (IsPermitted policy)) (ok-injective (rw (missing, mapped) at e)) (
                inr (
                    inl (
                      refl,
                      refl,
                      symbol_mapping_allowed stream requirement.symbols policy mapped,
                    )),
                tt,
              )
        ]
        | inr covered ↦ subst (All (IsPermitted policy)) (ok-injective (rw covered at e)) tt
      ]

  compile_timeframe-IsPermitted :
      (stream : DatasetStream) (requirement : DataRequirement) (rs : List CompatibilityRecord)
      → compile_timeframe c policy stream requirement ≡ ok rs
      → All (IsPermitted policy) rs
  unfolding compile_timeframe
  compile_timeframe-IsPermitted stream requirement rs e =
      elim (Bool-cases (stream.timeframe == requirement.timeframe)) [
        | inl same ↦ subst (All (IsPermitted policy)) (ok-injective (rw same at e)) tt
        | inr differs ↦
            elim (Bool-cases (
              contains policy.allowed_transformations "bar.resample.v1"
              && policy.allow_lossy
              && can_resample stream requirement.timeframe)) [
                | inl possible ↦
                    subst (All (IsPermitted policy)) (ok-injective (rw (differs, possible) at e)) (
                      let (a, b) =
                            and_true (contains policy.allowed_transformations "bar.resample.v1")
                              policy.allow_lossy (can_resample stream requirement.timeframe)
                              possible in
                          inr (inr (refl, refl, a, b)),
                      tt,
                    )
                | inr refuses ↦ absurd (refused (rw (differs, refuses) at e))
              ]
      ]

  or_exact-IsPermitted :
      (stream : DatasetStream) (rs : List CompatibilityRecord)
      → All (IsPermitted policy) rs
      → All (IsPermitted policy) (or_exact c policy stream rs)
  or_exact-IsPermitted stream [] h = (inl (refl, refl), tt)
  or_exact-IsPermitted stream (r ∷ rs) h = h

  compile_stream-IsPermitted :
      (engine : EngineCapabilities) (stream : DatasetStream) (requirement : DataRequirement)
      (rs : List CompatibilityRecord)
      → compile_stream c policy engine stream requirement ≡ ok rs
      → All (IsPermitted policy) rs
  unfolding compile_stream
  compile_stream-IsPermitted engine stream requirement rs e =
      let (_, _, e1) =
        >>=-eq-ok (raise_if (not (contains engine.data_kinds requirement.kind)) _) _ e in
      let (_, _, e2) = >>=-eq-ok (raise_if (stream.kind != requirement.kind) _) _ e1 in
      let (_, _, e3) =
        >>=-eq-ok (raise_if (nonempty (difference requirement.required_fields stream.fields)) _) _
          e2 in
      let (mapped, symbols, e4) = >>=-eq-ok (compile_symbols c policy stream requirement) _ e3 in
      let (resampled, timeframe, e5) =
        >>=-eq-ok (compile_timeframe c policy stream requirement) _ e4 in
      subst (All (IsPermitted policy)) (ok-injective e5) (
        or_exact-IsPermitted stream (mapped ++ resampled) (
          All-append (IsPermitted policy) mapped resampled
            (compile_symbols-IsPermitted stream requirement mapped symbols)
            (compile_timeframe-IsPermitted stream requirement resampled timeframe)))

  compile_requirement-IsPermitted :
      (dataset : DatasetManifest) (engine : EngineCapabilities) (requirement : DataRequirement)
      (rs : List CompatibilityRecord)
      → compile_requirement c policy dataset engine requirement ≡ ok rs
      → All (IsPermitted policy) rs
  unfolding compile_requirement
  compile_requirement-IsPermitted dataset engine requirement rs e =
      elim (Option-cases (find_stream dataset requirement.stream_id)) [
        | inl absent ↦ absurd (refused (rw absent at e))
        | inr (stream, found) ↦
            compile_stream-IsPermitted engine stream requirement rs (rw found at e)
      ]

  compile_requirements-IsPermitted :
      (dataset : DatasetManifest) (engine : EngineCapabilities)
      (requirements : List DataRequirement) (rs : List CompatibilityRecord)
      → compile_requirements c policy dataset engine requirements ≡ ok rs
      → All (IsPermitted policy) rs
  unfolding compile_requirements
  compile_requirements-IsPermitted dataset engine [] rs e =
      subst (All (IsPermitted policy)) (ok-injective e) tt
  compile_requirements-IsPermitted dataset engine (r ∷ requirements) rs e =
      let (first, e1, e2) = >>=-eq-ok (compile_requirement c policy dataset engine r) _ e in
      let (rest, e3, e4) =
        >>=-eq-ok (compile_requirements c policy dataset engine requirements) _ e2 in
      subst (All (IsPermitted policy)) (ok-injective e4) (
        All-append (IsPermitted policy) first rest
          (compile_requirement-IsPermitted dataset engine r first e1)
          (compile_requirements-IsPermitted dataset engine requirements rest e3))

-- Every record of a compiled plan is exact, or a mapping that the policy allows by name, or a
-- resampling that it allows by name and by `allow_lossy`.
pub plan_transforms_only_as_allowed :
    (digests : Digests) (now : Timestamp) (run_id : String) (strategy : StrategyManifest)
    (dataset : DatasetManifest) (engine : EngineCapabilities) (policy : RunPolicy)
    (code_evidence : Option String) (plan : ExecutionPlan)
    → compile_run digests now run_id strategy dataset engine policy code_evidence ≡ ok plan
    → All (IsPermitted policy) plan.compatibility
unfolding compile_run
plan_transforms_only_as_allowed digests now run_id strategy dataset engine policy evidence plan e =
    let c = context_of run_id strategy engine in
    let (_, _, e1) = >>=-eq-ok (check_versions c strategy dataset engine) _ e in
    let (_, _, e2) = >>=-eq-ok (check_capabilities c strategy engine policy) _ e1 in
    let (rs, requirements, e3) =
      >>=-eq-ok (compile_requirements c policy dataset engine strategy.data_requirements) _ e2 in
    let (_, _, e4) =
      >>=-eq-ok (raise_if (not (contains engine.sandbox_modes policy.required_sandbox)) _) _ e3 in
    let (_, _, e5) =
      >>=-eq-ok (raise_if (not (is_identifier run_id && is_code_digest evidence)) _) _ e4 in
    subst (λ (p : ExecutionPlan). All (IsPermitted policy) p.compatibility) (ok-injective e5)
      (compile_requirements-IsPermitted c policy dataset engine strategy.data_requirements rs
        requirements)
