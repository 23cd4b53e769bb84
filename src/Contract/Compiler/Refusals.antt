-- ===== src/Contract/Compiler/Refusals.antt =====
-- src/psrc/contract/compiler.py: what `compile_run` raises.
use strategy_adapter.Prelude.{
  ◌≡◌, refl, sym, ◌∙◌, arith, Bool-cases, raised-injective, ◌⊎◌, inl, inr, String, Bool, true,
  false, not, ◌&&◌, Option, none, some, List, [], ◌∷◌, ok, raised, ◌>>=◌, ◌>>◌, raise_if, ltb,
  contains, difference, nonempty, if◌then◌else◌, string_eq, ◌==◌, ◌!=◌,
}
use strategy_adapter.Contract.Errors.{Raised, Call, ErrorCode, python, value_error}
use strategy_adapter.Contract.Models.{
  StrategyManifest, EngineCapabilities, DatasetManifest, DatasetStream, DataRequirement, RunPolicy,
  timeframe_eq, data_kind_eq, action_kind_eq,
}
use strategy_adapter.Contract.Models.Identifiers.{is_identifier, is_code_digest}
use strategy_adapter.Domain.Market.{Timestamp}
use strategy_adapter.Contract.Compiler.Timeframes.{major, can_resample}
use strategy_adapter.Contract.Compiler.Symbols.{Mapping, symbol_mapping}
use strategy_adapter.Contract.Compiler.Requirement.{
  Context, negotiation_error, negotiation_violation, resampled_record, find_stream, compile_found,
  mapped_or_fail, compile_symbols, compile_timeframe, compile_stream, compile_requirement,
  compile_requirements,
}
use strategy_adapter.Contract.Compiler.Plan.{
  Digests, context_of, sandbox_rank, support_rank, check_versions, check_capabilities, compile_run,
}

-- what one of the checks raises
abbrev IsCheckError : Context → Raised → Type 0
IsCheckError c e = (code : ErrorCode) × (e ≡ negotiation_error c code)

-- Whatever the call raises meets `P`.
abbrev Raises : {A : Type 0} → (Raised → Type 0) → Call A → Type 0
Raises P m = (e : Raised) → m ≡ raised e → P e

module _ {P : Raised → Type 0} where
  >>=-Raises :
      {A B : Type 0} (m : Call A) (f : A → Call B)
      → Raises P m
      → ((a : A) → Raises P (f a))
      → Raises P (m >>= f)
  >>=-Raises (ok a) f h g e same = g a e same
  >>=-Raises (raised d) f h g e same = h e cc

  if-Raises :
      {A : Type 0} (test : Bool) (m n : Call A)
      → Raises P m
      → Raises P n
      → Raises P (if test then m else n)
  if-Raises true m n h g = h
  if-Raises false m n h g = g

ok-Raises : (P : Raised → Type 0) {A : Type 0} (a : A) → Raises P (ok a)
ok-Raises P a e same = cc

failure-Raises :
    {A : Type 0} (c : Context) (code : ErrorCode)
    → Raises {A = A} (IsCheckError c) (raised (negotiation_error c code))
failure-Raises c code e same = (code, sym (raised-injective same))

raise_if-Raises :
    (test : Bool) (c : Context) (code : ErrorCode)
    → Raises (IsCheckError c) (raise_if test (negotiation_error c code))
raise_if-Raises true c code e same = failure-Raises c code e same
raise_if-Raises false c code e same = cc

-- a check that `_fail`s, and what follows it
checked-Raises :
    {B : Type 0} (c : Context) (test : Bool) (code : ErrorCode) (rest : Call B)
    → Raises (IsCheckError c) rest
    → Raises (IsCheckError c) (raise_if test (negotiation_error c code) >> rest)
checked-Raises c true code rest h e same = failure-Raises c code e same
checked-Raises c false code rest h e same = h e same

one_fails : (a b : Bool) → not (a && b) ≡ true → (a ≡ false) ⊎ (b ≡ false)
one_fails a b h = ground arith

raised_if : (test : Bool) {r e : Raised} → raise_if test r ≡ raised e → (test ≡ true) × (e ≡ r)
raised_if true same = (refl, sym (raised-injective same))
raised_if false same = cc

-- a version whose first part is not a number
abbrev pub IsUnreadable : StrategyManifest → DatasetManifest → EngineCapabilities → Raised → Type 0
IsUnreadable strategy dataset engine e =
    (major strategy.contract_version ≡ raised e)
    ⊎ ((major dataset.contract_version ≡ raised e) ⊎ (major engine.contract_version ≡ raised e))

module _ (c : Context) (policy : RunPolicy) where
  mapped_or_fail-Raises :
      (stream : DatasetStream) (mapping : Option Mapping)
      → Raises (IsCheckError c) (mapped_or_fail c policy stream mapping)
  unfolding mapped_or_fail
  mapped_or_fail-Raises stream none e same = failure-Raises c _ e same
  mapped_or_fail-Raises stream (some mapping) e same = cc

  compile_symbols-Raises :
      (stream : DatasetStream) (requirement : DataRequirement)
      → Raises (IsCheckError c) (compile_symbols c policy stream requirement)
  unfolding compile_symbols
  compile_symbols-Raises stream requirement =
      if-Raises (nonempty (difference requirement.symbols stream.symbols)) _ (ok [])
        (mapped_or_fail-Raises stream (symbol_mapping stream requirement.symbols policy))
        (ok-Raises (IsCheckError c) _)

  compile_timeframe-Raises :
      (stream : DatasetStream) (requirement : DataRequirement)
      → Raises (IsCheckError c) (compile_timeframe c policy stream requirement)
  unfolding compile_timeframe
  compile_timeframe-Raises stream requirement =
      if-Raises (stream.timeframe == requirement.timeframe) (ok []) _
        (ok-Raises (IsCheckError c) [])
        (if-Raises
          (contains policy.allowed_transformations "bar.resample.v1"
            && policy.allow_lossy
            && can_resample stream requirement.timeframe)
          (ok (resampled_record stream requirement ∷ [])) _ (ok-Raises (IsCheckError c) _)
          (failure-Raises c ErrorCode.data_timeframe_mismatch))

  module _ (engine : EngineCapabilities) where
    compile_stream-Raises :
        (stream : DatasetStream) (requirement : DataRequirement)
        → Raises (IsCheckError c) (compile_stream c policy engine stream requirement)
    unfolding compile_stream
    compile_stream-Raises stream requirement =
        checked-Raises c (not (contains engine.data_kinds requirement.kind))
          ErrorCode.engine_capability_unsupported _
          (checked-Raises c (stream.kind != requirement.kind) ErrorCode.data_stream_missing _ (
            checked-Raises c (nonempty (difference requirement.required_fields stream.fields))
              ErrorCode.data_field_missing _
              (>>=-Raises (compile_symbols c policy stream requirement) _
                (compile_symbols-Raises stream requirement)
                (λ mapped.
                  >>=-Raises (compile_timeframe c policy stream requirement) _
                    (compile_timeframe-Raises stream requirement)
                    (λ resampled. ok-Raises (IsCheckError c) _)))))

    compile_found-Raises :
        (requirement : DataRequirement) (stream : Option DatasetStream)
        → Raises (IsCheckError c) (compile_found c policy engine requirement stream)
    unfolding compile_found
    compile_found-Raises requirement none = failure-Raises c _
    compile_found-Raises requirement (some stream) = compile_stream-Raises stream requirement

    compile_requirements-Raises :
        (dataset : DatasetManifest) (requirements : List DataRequirement)
        → Raises (IsCheckError c) (compile_requirements c policy dataset engine requirements)
    unfolding compile_requirements compile_requirement
    compile_requirements-Raises dataset [] = ok-Raises (IsCheckError c) []
    compile_requirements-Raises dataset (r ∷ rs) =
        >>=-Raises (compile_requirement c policy dataset engine r) _
          (compile_found-Raises r (find_stream dataset r.stream_id))
          (λ first.
            >>=-Raises (compile_requirements c policy dataset engine rs) _
              (compile_requirements-Raises dataset rs) (λ rest. ok-Raises (IsCheckError c) _))

    check_capabilities-Raises :
        (strategy : StrategyManifest)
        → Raises (IsCheckError c) (check_capabilities c strategy engine policy)
    unfolding check_capabilities
    check_capabilities-Raises strategy =
        checked-Raises c
          (ltb (sandbox_rank policy.required_sandbox) (sandbox_rank strategy.resources.sandbox))
          ErrorCode.sandbox_policy_downgrade _
          (checked-Raises c
            (ltb (support_rank engine.support_level) (support_rank policy.minimum_engine_support))
            ErrorCode.engine_capability_unsupported _
            (checked-Raises c (nonempty (difference strategy.required_profiles engine.profiles))
              ErrorCode.engine_capability_unsupported _
              (raise_if-Raises
                (nonempty (difference strategy.action_requirements.allowed engine.action_kinds)) c
                _)))

module _ (strategy : StrategyManifest) (dataset : DatasetManifest) (engine : EngineCapabilities)
    (run_id : String) (code_evidence : Option String) where
  -- a `ContractViolation` of the negotiation, which names the run
  abbrev pub IsNegotiation : Raised → Type 0
  IsNegotiation e =
      (is_identifier run_id ≡ true)
      × ((code : ErrorCode) × (e ≡ negotiation_violation (context_of run_id strategy engine) code))

  -- the validation error of a model that is made with an ill-formed identifier or digest
  abbrev pub IsIllFormed : Raised → Type 0
  IsIllFormed e =
      ((is_identifier run_id ≡ false) ⊎ (is_code_digest code_evidence ≡ false))
      × (e ≡ python value_error)

  abbrev pub IsRefusal : Raised → Type 0
  IsRefusal e = IsNegotiation e ⊎ IsIllFormed e ⊎ IsUnreadable strategy dataset engine e

  failure-IsRefusal :
      (e : Raised) → IsCheckError (context_of run_id strategy engine) e → IsRefusal e
  failure-IsRefusal e (code, same) = elim (Bool-cases (is_identifier run_id)) [
    | inl named ↦ inl (named, (code, same ∙ rw named refl))
    | inr unnamed ↦ inr (inl (inl unnamed, same ∙ rw unnamed refl))
  ]

  failed-Raises :
      {A : Type 0} (m : Call A)
      → Raises (IsCheckError (context_of run_id strategy engine)) m
      → Raises IsRefusal m
  failed-Raises m h e same = failure-IsRefusal e (h e same)

  ill_formed-Raises :
      Raises IsRefusal
        (raise_if (not (is_identifier run_id && is_code_digest code_evidence)) (python value_error))
  ill_formed-Raises e same =
      let (unfit, is_error) =
        raised_if (not (is_identifier run_id && is_code_digest code_evidence)) same in
      inr (inl (one_fails (is_identifier run_id) (is_code_digest code_evidence) unfit, is_error))

  check_versions-Raises :
      Raises IsRefusal (check_versions (context_of run_id strategy engine) strategy dataset engine)
  unfolding check_versions
  check_versions-Raises =
      >>=-Raises (major strategy.contract_version) _ (λ e same. inr (inr (inl same)))
        (λ s.
          >>=-Raises (major dataset.contract_version) _ (λ e same. inr (inr (inr (inl same))))
            (λ d.
              >>=-Raises (major engine.contract_version) _ (λ e same. inr (inr (inr (inr same))))
                (λ g. failed-Raises _ (raise_if-Raises _ _ _))))

  -- Whatever `compile_run` raises is a `ContractViolation` of the negotiation under the run's
  -- well-formed identifier; or, when the run's identifier or the digest of the code is ill-formed,
  -- the validation error of the model that should hold it; or the error of a contract version that
  -- is not a number before its first dot.
  pub compile_run-IsRefusal :
      (digests : Digests) (now : Timestamp) (policy : RunPolicy) (e : Raised)
      → compile_run digests now run_id strategy dataset engine policy code_evidence ≡ raised e
      → IsRefusal e
  unfolding compile_run
  compile_run-IsRefusal digests now policy =
      let c = context_of run_id strategy engine in
      >>=-Raises (check_versions c strategy dataset engine) _ check_versions-Raises (λ _.
        >>=-Raises (check_capabilities c strategy engine policy) _
          (failed-Raises _ (check_capabilities-Raises c policy engine strategy))
          (λ _.
            >>=-Raises (compile_requirements c policy dataset engine strategy.data_requirements) _
              (failed-Raises _
                (compile_requirements-Raises c policy engine dataset strategy.data_requirements))
              (λ records.
                >>=-Raises (raise_if _ _) _ (failed-Raises _ (raise_if-Raises _ _ _)) (λ _.
                  >>=-Raises (raise_if _ _) _ ill_formed-Raises (λ _. ok-Raises IsRefusal _)))))
