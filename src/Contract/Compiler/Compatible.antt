-- ===== src/Contract/Compiler/Compatible.antt =====
-- src/psrc/contract/compiler.py: `compile_run` against the specification.
use strategy_adapter.Prelude.{
  ℕ, ◌≤◌, String, ◌≡◌, ◌↔◌, inl, inr, refl, ◌∙◌, ap, true, false, not, ◌&&◌, both, Option, List, [],
  ◌∷◌, ◌++◌, All, contains, difference, nonempty, ok, raise_if, >>=-eq-ok, raise_if-eq-ok, arith,
  string_eq, Option-cases, ltb, ◌||◌,
}
use strategy_adapter.Prelude.Int.{ℤ, pos}
use strategy_adapter.Contract.Models.{
  StrategyManifest, EngineCapabilities, DatasetManifest, DataRequirement, RunPolicy, ExecutionPlan,
  CompatibilityRecord, action_kind_eq, sandbox_mode_eq,
}
use strategy_adapter.Contract.Models.Identifiers.{is_identifier, is_code_digest}
use strategy_adapter.Domain.Market.{Timestamp}
use strategy_adapter.Contract.Compiler.Timeframes.{major}
use strategy_adapter.Contract.Compiler.Requirement.{
  Context, find_stream, compile_requirement, compile_requirements,
}
use strategy_adapter.Contract.Compiler.Plan.{
  Digests, check_versions, check_capabilities, is_other_major, compile_run, plan_of, context_of,
  sandbox_rank, support_rank,
}
use strategy_adapter.Contract.Compiler.Specification.{
  Included, difference_empty, Included-difference, IsMet, IsCompatible,
}
use strategy_adapter.Contract.Compiler.Fitting.{
  Fits, compile_stream-Fits, Fits-compile_stream, refused, not-false,
}

module _ (c : Context) (policy : RunPolicy) (dataset : DatasetManifest)
    (engine : EngineCapabilities) where
  compile_requirement-IsMet :
      (requirement : DataRequirement) (rs : List CompatibilityRecord)
      → compile_requirement c policy dataset engine requirement ≡ ok rs
      → IsMet policy dataset engine requirement
  unfolding compile_requirement
  compile_requirement-IsMet requirement rs e =
      elim (Option-cases (find_stream dataset requirement.stream_id)) [
        | inl absent ↦ absurd (refused (rw absent at e))
        | inr (stream, found) ↦
            let f = compile_stream-Fits c policy engine stream requirement rs (rw found at e) in
            record {
              stream = stream;
              found = found;
              consumable = f.consumable;
              same_kind = f.same_kind;
              fields = f.fields;
              symbols = f.symbols;
              timeframe = f.timeframe;
            }
      ]

  IsMet-compile_requirement :
      (requirement : DataRequirement)
      → IsMet policy dataset engine requirement
      → (rs : List CompatibilityRecord) × (compile_requirement c policy dataset engine requirement
          ≡ ok rs)
  unfolding compile_requirement
  IsMet-compile_requirement requirement m =
      let fits : Fits policy engine m.stream requirement = record {
        consumable = m.consumable;
        same_kind = m.same_kind;
        fields = m.fields;
        symbols = m.symbols;
        timeframe = m.timeframe;
      } in
      let (rs, e) = Fits-compile_stream c policy engine m.stream requirement fits in
      (rs, rw m.found e)

  compile_requirements-IsMet :
      (requirements : List DataRequirement) (rs : List CompatibilityRecord)
      → compile_requirements c policy dataset engine requirements ≡ ok rs
      → All (IsMet policy dataset engine) requirements
  unfolding compile_requirements
  compile_requirements-IsMet [] rs e = tt
  compile_requirements-IsMet (r ∷ requirements) rs e =
      let (first, e1, e2) = >>=-eq-ok (compile_requirement c policy dataset engine r) _ e in
      let (rest, e3, _) =
        >>=-eq-ok (compile_requirements c policy dataset engine requirements) _ e2 in
      (compile_requirement-IsMet r first e1, compile_requirements-IsMet requirements rest e3)

  IsMet-compile_requirements :
      (requirements : List DataRequirement)
      → All (IsMet policy dataset engine) requirements
      → (rs : List CompatibilityRecord) × (compile_requirements c policy dataset engine requirements
          ≡ ok rs)
  unfolding compile_requirements
  IsMet-compile_requirements [] m = ([], refl)
  IsMet-compile_requirements (r ∷ requirements) m =
      let (first, e1) = IsMet-compile_requirement r m.0 in
      let (rest, e2) = IsMet-compile_requirements requirements m.1 in (first ++ rest, rw (e1, e2))

first_majors :
    (s d g : ℤ)
    → (is_other_major s || is_other_major d || is_other_major g) ≡ false
    → (s ≡ pos 1) × (d ≡ pos 1) × (g ≡ pos 1)
first_majors s d g h = ground arith

not-ltb→le : (a b : ℕ) → ltb a b ≡ false → b ≤ a
not-ltb→le a b h = ground arith

le→not-ltb : (a b : ℕ) → b ≤ a → ltb a b ≡ false
le→not-ltb a b h = ground arith

module _ (c : Context) (strategy : StrategyManifest) (dataset : DatasetManifest)
    (engine : EngineCapabilities) (policy : RunPolicy) where
  check_versions-eq-ok :
      check_versions c strategy dataset engine ≡ ok tt
      → (major strategy.contract_version ≡ ok (pos 1))
        × (major dataset.contract_version ≡ ok (pos 1))
        × (major engine.contract_version ≡ ok (pos 1))
  unfolding check_versions
  check_versions-eq-ok versions =
      let (s, strategy_major, v1) = >>=-eq-ok (major strategy.contract_version) _ versions in
      let (d, dataset_major, v2) = >>=-eq-ok (major dataset.contract_version) _ v1 in
      let (g, engine_major, v3) = >>=-eq-ok (major engine.contract_version) _ v2 in
      let firsts =
        first_majors s d g
          (raise_if-eq-ok (is_other_major s || is_other_major d || is_other_major g) _ v3) in
      (
        strategy_major ∙ ap ok firsts.0,
        dataset_major ∙ ap ok firsts.1,
        engine_major ∙ ap ok firsts.2,
      )

  -- what `check_capabilities` has let through
  record IsCapable : Type 0 where
    sandbox_kept : sandbox_rank strategy.resources.sandbox ≤ sandbox_rank policy.required_sandbox
    supported : support_rank policy.minimum_engine_support ≤ support_rank engine.support_level
    profiles : Included strategy.required_profiles engine.profiles
    actions : Included strategy.action_requirements.allowed engine.action_kinds

  check_capabilities-IsCapable : check_capabilities c strategy engine policy ≡ ok tt → IsCapable
  unfolding check_capabilities
  check_capabilities-IsCapable e =
      let (_, kept, e1) =
        >>=-eq-ok
          (raise_if
            (ltb (sandbox_rank policy.required_sandbox) (sandbox_rank strategy.resources.sandbox))
            _)
          _ e in
      let (_, supported, e2) =
        >>=-eq-ok
          (raise_if
            (ltb (support_rank engine.support_level) (support_rank policy.minimum_engine_support))
            _)
          _ e1 in
      let (_, profiles, e3) =
        >>=-eq-ok (raise_if (nonempty (difference strategy.required_profiles engine.profiles)) _) _
          e2 in
      record {
        sandbox_kept = not-ltb→le _ _ (raise_if-eq-ok _ _ kept);
        supported = not-ltb→le _ _ (raise_if-eq-ok _ _ supported);
        profiles = difference_empty _ _ (raise_if-eq-ok _ _ profiles);
        actions = difference_empty _ _ (raise_if-eq-ok _ _ e3);
      }

  IsCapable-check_capabilities : IsCapable → check_capabilities c strategy engine policy ≡ ok tt
  unfolding check_capabilities
  IsCapable-check_capabilities h = rw (
    le→not-ltb _ _ h.sandbox_kept,
    le→not-ltb _ _ h.supported,
    Included-difference _ _ h.profiles,
    Included-difference _ _ h.actions,
  )

-- What a plan can be made under: a well-formed run identifier and, if there is one, digest of code.
abbrev pub IsNamed : String → Option String → Type 0
IsNamed run_id code_evidence = (is_identifier run_id ≡ true) × (is_code_digest code_evidence ≡ true)

module _ (digests : Digests) (now : Timestamp) (run_id : String) (strategy : StrategyManifest)
    (dataset : DatasetManifest) (engine : EngineCapabilities) (policy : RunPolicy)
    (code_evidence : Option String) where
  compile_run-IsCompatible :
      (plan : ExecutionPlan)
      → compile_run digests now run_id strategy dataset engine policy code_evidence ≡ ok plan
      → IsCompatible policy dataset engine strategy × IsNamed run_id code_evidence
  unfolding compile_run
  compile_run-IsCompatible plan e =
      let c = context_of run_id strategy engine in
      let (_, versions, e1) = >>=-eq-ok (check_versions c strategy dataset engine) _ e in
      let (_, capabilities, e2) = >>=-eq-ok (check_capabilities c strategy engine policy) _ e1 in
      let (rs, requirements, e3) =
        >>=-eq-ok (compile_requirements c policy dataset engine strategy.data_requirements) _ e2 in
      let (_, sandboxed, e4) =
        >>=-eq-ok (raise_if (not (contains engine.sandbox_modes policy.required_sandbox)) _) _ e3 in
      let (_, named, _) =
        >>=-eq-ok (raise_if (not (is_identifier run_id && is_code_digest code_evidence)) _) _ e4 in
      let majors = check_versions-eq-ok c strategy dataset engine policy versions in
      let capable = check_capabilities-IsCapable c strategy dataset engine policy capabilities in
      (
        record {
          strategy_major = majors.0;
          dataset_major = majors.1;
          engine_major = majors.2;
          sandbox_kept = capable.sandbox_kept;
          supported = capable.supported;
          profiles = capable.profiles;
          actions = capable.actions;
          requirements =
              compile_requirements-IsMet c policy dataset engine strategy.data_requirements rs
                requirements;
          sandboxed = not-false (raise_if-eq-ok _ _ sandboxed);
        },
        both (is_identifier run_id) (is_code_digest code_evidence)
            (not-false (raise_if-eq-ok _ _ named)),
      )

  IsCompatible-compile_run :
      IsCompatible policy dataset engine strategy × IsNamed run_id code_evidence
      → (plan : ExecutionPlan) × (compile_run digests now run_id strategy dataset engine policy
            code_evidence
          ≡ ok plan)
  unfolding compile_run check_versions
  IsCompatible-compile_run (h, named) =
      let c = context_of run_id strategy engine in
      let capable = IsCapable-check_capabilities c strategy dataset engine policy (record {
        sandbox_kept = h.sandbox_kept;
        supported = h.supported;
        profiles = h.profiles;
        actions = h.actions;
      }) in
      let (rs, requirements) =
        IsMet-compile_requirements c policy dataset engine strategy.data_requirements
          h.requirements in
      (
        plan_of digests now run_id strategy dataset engine policy code_evidence rs,
        rw (
          h.strategy_major, h.dataset_major, h.engine_major, capable, requirements, h.sandboxed,
          named.0, named.1,
        ),
      )

  -- `compile_run` returns a plan exactly when the declarations are compatible, the run's identifier
  -- is well-formed, and the digest of the strategy's code is absent or 64 hexadecimal digits.
  pub compile_run_iff :
      ((plan : ExecutionPlan) × (compile_run digests now run_id strategy dataset engine policy
            code_evidence
          ≡ ok plan))
      ↔ (IsCompatible policy dataset engine strategy × IsNamed run_id code_evidence)
  compile_run_iff = (λ (plan, e). compile_run-IsCompatible plan e, IsCompatible-compile_run)
