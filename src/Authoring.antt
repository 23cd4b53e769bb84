-- ===== src/Authoring.antt =====
-- src/psrc/authoring: the specification that an agent draws from a paper, and the audit of the
-- manifest that is written from it. The texts of a specification that nothing reads are kept, the
-- enumerated words are data types.
pub mod Approval
use Prim.Native.String.{◌++◌ as ◌+++◌}
use strategy_adapter.Prelude.{
  ℕ, String, Bool, true, false, not, ◌&&◌, ◌||◌, List, [], ◌∷◌, ◌++◌, Option, none, some, any, all,
  nat_beq, ◌==◌, ◌!=◌, string_eq, option_eq, nat_eq, subset, if◌then◌else◌,
}
use strategy_adapter.Contract.Models.{
  StrategyKind, strategy_kind_eq, TrainingMode, training_mode_eq, ActionKind, action_kind_eq,
  DataKind, data_kind_eq, DataRequirement, StrategyManifest, timeframe_eq,
}

pub record PaperReference : Type 0 where
  pub title : String
  pub locator : String
  pub citation : String

pub data AmbiguitySeverity : Type 0 where
  info warning blocking : AmbiguitySeverity

pub data Resolver : Type 0 where
  paper operator experiment : Resolver

pub record PaperAmbiguity : Type 0 where
  pub ambiguity_id : String
  pub severity : AmbiguitySeverity
  pub statement : String
  pub source_excerpt_locator : Option String
  pub resolution : Option String
  pub resolved_by : Option Resolver

pub record PaperStrategySpec : Type 0 where
  pub contract_version : String
  pub spec_id : String
  pub reference : PaperReference
  pub strategy_kind : StrategyKind
  pub hypothesis : String
  pub data_requirements : List DataRequirement
  pub output_actions : List ActionKind
  pub feature_definitions : List String
  pub label_definition : Option String
  pub reward_definition : Option String
  pub execution_assumptions : List String
  pub ambiguities : List PaperAmbiguity

pub data IssueSeverity : Type 0 where
  warning error : IssueSeverity

pub record AgentAuditIssue : Type 0 where
  pub code : String
  pub severity : IssueSeverity
  pub path : String
  pub message : String

pub record AgentAuditReport : Type 0 where
  pub contract_version : String
  pub spec_id : String
  pub strategy_id : String
  pub approved_for_compilation : Bool
  pub issues : List AgentAuditIssue
  pub human_review_required : Bool
  pub runtime_authority_granted : Bool
  pub checked_fields : List String

-- `==` of two sets, and of two requirements, field by field
abbrev same_set : List String → List String → Bool
same_set xs ys = subset xs ys && subset ys xs

abbrev same_list : List String → List String → Bool
same_list [] [] = true
same_list (x ∷ xs) (y ∷ ys) = x == y && same_list xs ys
same_list _ _ = false

abbrev same_requirement : DataRequirement → DataRequirement → Bool
same_requirement a b =
    a.stream_id == b.stream_id
    && a.kind == b.kind
    && a.timeframe == b.timeframe
    && same_list a.symbols b.symbols
    && same_set a.required_fields b.required_fields
    && same_set a.optional_fields b.optional_fields
    && nat_beq a.lookback b.lookback
    && a.depth == b.depth
    && a.max_staleness_ns == b.max_staleness_ns

unfoldable pub same_requirements : List DataRequirement → List DataRequirement → Bool
same_requirements [] [] = true
same_requirements (a ∷ rest) (b ∷ others) = same_requirement a b && same_requirements rest others
same_requirements _ _ = false

-- an issue of severity `error`, if the test holds
abbrev pub issue_if : Bool → String → String → String → List AgentAuditIssue
issue_if test code path message =
    if test
    then (record { code = code; severity = IssueSeverity.error; path = path; message = message })
      ∷ []
    else []

abbrev pub is_absent : Option String → Bool
is_absent none = true
is_absent (some _) = false

abbrev pub is_blocking : AmbiguitySeverity → Bool
is_blocking AmbiguitySeverity.blocking = true
is_blocking _ = false

abbrev pub unresolved : PaperAmbiguity → Bool
unresolved a = is_blocking a.severity && is_absent a.resolution

-- the loop over `spec.ambiguities`
unfoldable pub ambiguity_issues : List PaperAmbiguity → List AgentAuditIssue
ambiguity_issues [] = []
ambiguity_issues (a ∷ ambiguities) =
    issue_if (unresolved a) "AUTHORING_AMBIGUITY_UNRESOLVED" ("ambiguities." +++ a.ambiguity_id)
      a.statement
    ++ ambiguity_issues ambiguities

-- `trainable != training_required`
unfoldable pub training_mismatch : StrategyKind → TrainingMode → Bool
training_mismatch kind training =
    let required = training == TrainingMode.required in
    if kind != StrategyKind.rule then not required else required

-- the issues, in the order in which they are found
unfoldable pub audit_issues : PaperStrategySpec → StrategyManifest → List AgentAuditIssue
audit_issues spec manifest =
    issue_if (spec.strategy_kind != manifest.kind) "AUTHORING_KIND_MISMATCH" "kind"
      "Paper spec and strategy manifest declare different strategy kinds"
    ++ issue_if (not (same_requirements spec.data_requirements manifest.data_requirements))
        "AUTHORING_DATA_CONTRACT_MISMATCH" "data_requirements"
        "Paper-derived data contract changed before compilation"
    ++ issue_if (not (subset manifest.action_requirements.allowed spec.output_actions))
        "AUTHORING_ACTION_EXPANSION" "action_requirements.allowed"
        "Manifest requests actions not justified by the paper spec"
    ++ issue_if (training_mismatch manifest.kind manifest.lifecycle.training)
        "AUTHORING_TRAINING_MISMATCH" "lifecycle.training"
        "Strategy kind and training lifecycle are inconsistent"
    ++ issue_if (manifest.kind == StrategyKind.supervised && is_absent spec.label_definition)
        "AUTHORING_LABEL_UNSPECIFIED" "label_definition"
        "A supervised paper spec must define its training label"
    ++ issue_if
        (manifest.kind == StrategyKind.reinforcement_learning && is_absent spec.reward_definition)
        "AUTHORING_REWARD_UNSPECIFIED" "reward_definition" "An RL paper spec must define its reward"
    ++ ambiguity_issues spec.ambiguities

abbrev pub is_error : AgentAuditIssue → Bool
is_error issue = elim issue.severity [ IssueSeverity.error ↦ true | IssueSeverity.warning ↦ false ]

unfoldable pub audit_manifest : PaperStrategySpec → StrategyManifest → AgentAuditReport
audit_manifest spec manifest =
    let issues = audit_issues spec manifest in
    record {
      contract_version = "1.1.0";
      spec_id = spec.spec_id;
      strategy_id = manifest.strategy_id;
      approved_for_compilation = not (any is_error issues);
      issues = issues;
      human_review_required = true;
      runtime_authority_granted = false;
      checked_fields =
          "strategy_kind" ∷ "data_requirements" ∷ "output_actions" ∷ "training_semantics"
          ∷ "paper_ambiguities" ∷ [];
    }
