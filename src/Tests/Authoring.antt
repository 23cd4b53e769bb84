-- ===== src/Tests/Authoring.antt =====
-- The theorem on the audit, at a manifest and the specification that it is written from.
use strategy_adapter.Prelude.{◌≡◌, ◌↔◌, true, none, [], ◌∷◌}
use strategy_adapter.Contract.Models.{StrategyKind, ActionKind}
use strategy_adapter.Authoring.{PaperStrategySpec, audit_manifest}
use strategy_adapter.Authoring.Approval.{IsFaithful, audit_approves_iff}
use strategy_adapter.Tests.Data.{manifest}

abbrev spec : PaperStrategySpec
spec = record {
  contract_version = "1.1.0";
  spec_id = "paper";
  reference = record { title = "A paper"; locator = "p. 1"; citation = "none" };
  strategy_kind = StrategyKind.rule;
  hypothesis = "prices return";
  data_requirements = manifest.data_requirements;
  output_actions = ActionKind.target_position ∷ ActionKind.submit_order ∷ ActionKind.no_op ∷ [];
  feature_definitions = [];
  label_definition = none;
  reward_definition = none;
  execution_assumptions = [];
  ambiguities = [];
}

audit_approves_iff_example :
    ((audit_manifest spec manifest).approved_for_compilation ≡ true) ↔ IsFaithful spec manifest
audit_approves_iff_example = audit_approves_iff spec manifest
