-- ===== src/Authoring/Approval.antt =====
-- src/psrc/authoring/audit.py: when a manifest is approved.
use strategy_adapter.Prelude.{
  Bool, true, false, not, ◌&&◌, ◌||◌, List, [], ◌∷◌, any, All, ◌≡◌, ◌≢◌, ◌↔◌, refl, sym, ap, ◌∙◌,
  subset, ◌==◌, ◌!=◌, not-eq-false, Bool-cases, inl, inr, eq_self, not-eq-true, arith,
}
use strategy_adapter.Contract.Models.{
  StrategyKind, strategy_kind_eq, TrainingMode, training_mode_eq, action_kind_eq, StrategyManifest,
}
use strategy_adapter.Authoring.{
  PaperStrategySpec, PaperAmbiguity, is_error, is_absent, unresolved, ambiguity_issues,
  audit_issues, audit_manifest, training_mismatch, same_requirements,
}

-- What the audit wants of a manifest that stands for a paper.
pub record IsFaithful (spec : PaperStrategySpec) (manifest : StrategyManifest) : Type 0 where
  pub same_kind : spec.strategy_kind ≡ manifest.kind
  pub same_data : same_requirements spec.data_requirements manifest.data_requirements ≡ true
  pub no_more_actions : subset manifest.action_requirements.allowed spec.output_actions ≡ true
  pub trained_iff_learned :
      (manifest.kind ≢ StrategyKind.rule) ↔ (manifest.lifecycle.training ≡ TrainingMode.required)
  pub labelled : manifest.kind ≡ StrategyKind.supervised → is_absent spec.label_definition ≡ false
  pub rewarded :
      manifest.kind ≡ StrategyKind.reinforcement_learning → is_absent spec.reward_definition ≡ false
  pub resolved : All (λ a. unresolved a ≡ false) spec.ambiguities

ambiguities_iff :
    (ambiguities : List PaperAmbiguity)
    → any is_error (ambiguity_issues ambiguities) ≡ any unresolved ambiguities
unfolding ambiguity_issues
ambiguities_iff [] = refl
ambiguities_iff (a ∷ ambiguities) = ground (arith, ambiguities_iff ambiguities)

none_unresolved :
    (ambiguities : List PaperAmbiguity)
    → (any unresolved ambiguities ≡ false) ↔ All (λ a. unresolved a ≡ false) ambiguities
none_unresolved [] = (λ h. tt, λ h. refl)
none_unresolved (a ∷ ambiguities) = (
  λ h. ground (arith, (none_unresolved ambiguities).0),
  λ h. ground (arith, (none_unresolved ambiguities).1),
)

audit_issues-any :
    (spec : PaperStrategySpec) (manifest : StrategyManifest)
    → any is_error (audit_issues spec manifest) ≡ (
        spec.strategy_kind != manifest.kind
        || (not (same_requirements spec.data_requirements manifest.data_requirements)
            || (not (subset manifest.action_requirements.allowed spec.output_actions)
                || (training_mismatch manifest.kind manifest.lifecycle.training
                    || (manifest.kind == StrategyKind.supervised && is_absent spec.label_definition
                        || (manifest.kind == StrategyKind.reinforcement_learning
                              && is_absent spec.reward_definition
                            || any unresolved spec.ambiguities))))))
unfolding audit_issues
audit_issues-any spec manifest = ground (arith, ambiguities_iff spec.ambiguities)

neither : (a b : Bool) → (a || b) ≡ false → (a ≡ false) × (b ≡ false)
neither true b h = cc
neither false b h = (refl, h)

-- What a kind wants is not absent.
wants :
    (kind wanted : StrategyKind) (absent : Bool)
    → ((kind == wanted && absent) ≡ false) ↔ (kind ≡ wanted → absent ≡ false)
wants kind wanted true = (
  λ h same. ground (arith, h, strategy_kind_eq.beq_iff kind wanted, same),
  λ h. elim (Bool-cases (kind == wanted)) [
    | inl same ↦ absurd (let e = h ((strategy_kind_eq.beq_iff kind wanted).0 same) in cc)
    | inr other ↦ rw other refl
  ],
)
wants kind wanted false = (λ h same. refl, λ h. ground arith)

-- A kind is trained exactly if it learns.
abbrev IsTrainedRight : StrategyKind → TrainingMode → Type 0
IsTrainedRight kind training = (kind ≢ StrategyKind.rule) ↔ (training ≡ TrainingMode.required)

training_mismatch_iff :
    (kind : StrategyKind) (training : TrainingMode)
    → (training_mismatch kind training ≡ false) ↔ IsTrainedRight kind training
unfolding training_mismatch
training_mismatch_iff StrategyKind.rule TrainingMode.required =
    (λ h. cc, λ h. absurd (h.1 refl refl))
training_mismatch_iff StrategyKind.rule TrainingMode.not_required =
    (λ h. (λ k. absurd (k refl), λ k. cc), λ h. refl)
training_mismatch_iff StrategyKind.supervised TrainingMode.required =
    (λ h. (λ k. refl, λ k l. cc), λ h. refl)
training_mismatch_iff StrategyKind.supervised TrainingMode.not_required =
    (λ h. cc, λ h. absurd (learns h.0))
  where
    learns :
        (StrategyKind.supervised ≢ StrategyKind.rule
          → TrainingMode.not_required ≡ TrainingMode.required)
        → ⊥
    learns k = let e = k (λ l. cc) in cc
training_mismatch_iff StrategyKind.reinforcement_learning TrainingMode.required =
    (λ h. (λ k. refl, λ k l. cc), λ h. refl)
training_mismatch_iff StrategyKind.reinforcement_learning TrainingMode.not_required =
    (λ h. cc, λ h. let e = h.0 (λ l. cc) in cc)

-- The audit approves a manifest exactly when it is faithful to the paper's specification: the same
-- kind and data requirements, no action beyond the specification's, training exactly for the kinds
-- that learn, a label for a supervised and a reward for a reinforcement strategy, and no blocking
-- ambiguity without a resolution.
pub audit_approves_iff :
    (spec : PaperStrategySpec) (manifest : StrategyManifest)
    → ((audit_manifest spec manifest).approved_for_compilation ≡ true) ↔ IsFaithful spec manifest
unfolding audit_manifest
audit_approves_iff spec manifest = (
  λ h.
      let (kind, h1) = neither _ _ (sym (audit_issues-any spec manifest) ∙ not-eq-true _ h) in
      let (requirements, h2) = neither _ _ h1 in
      let (actions, h3) = neither _ _ h2 in
      let (training, h4) = neither _ _ h3 in
      let (label, h5) = neither _ _ h4 in
      let (reward, ambiguities) = neither _ _ h5 in
      record {
        same_kind =
            (strategy_kind_eq.beq_iff spec.strategy_kind manifest.kind).0 (not-eq-false _ kind);
        same_data = not-eq-false _ requirements;
        no_more_actions = not-eq-false _ actions;
        trained_iff_learned =
            (training_mismatch_iff manifest.kind manifest.lifecycle.training).0 training;
        labelled = (wants manifest.kind StrategyKind.supervised _).0 label;
        rewarded = (wants manifest.kind StrategyKind.reinforcement_learning _).0 reward;
        resolved = (none_unresolved spec.ambiguities).0 ambiguities;
      },
  λ f.
      let none_found : any is_error (audit_issues spec manifest) ≡ false =
        audit_issues-any spec manifest
        ∙ rw
            (
              f.same_kind,
              eq_self manifest.kind,
              f.same_data,
              f.no_more_actions,
              (training_mismatch_iff manifest.kind manifest.lifecycle.training).1
                  (f.trained_iff_learned),
              (wants manifest.kind StrategyKind.supervised (is_absent spec.label_definition)).1
                  (f.labelled),
              (wants manifest.kind StrategyKind.reinforcement_learning
                    (is_absent spec.reward_definition)).1
                  (f.rewarded),
              (none_unresolved spec.ambiguities).1 (f.resolved),
            )
            refl in
      ap not none_found,
)
