-- ===== src/Tests/Packages.antt =====
-- The theorem on loaded strategies, at a package with one clean source.
use strategy_adapter.Prelude.{◌≡◌, refl, true, some, [], ◌∷◌, ok}
use strategy_adapter.Contract.Models.{StrategyManifest, SandboxMode}
use strategy_adapter.Contract.Models.Evidence.{StrategyCodeEvidence}
use strategy_adapter.Runtime.Artifacts.Components.{parts, is_absolute}
use strategy_adapter.Sandbox.Static.{
  tree, node, done, import_names, scan, visit, check_node, check_imports, check_import, import_root,
}
use strategy_adapter.Runtime.Package.{
  StrategyPackage, Loader, split_entrypoint, ends_with_py, source_findings, enforce_source_policy,
  local_entrypoint, import_entrypoint, instantiate, manifest_differs, load_strategy,
}
use strategy_adapter.Runtime.Package.Checked.{IsChecked, load_strategy-IsChecked}
use strategy_adapter.Tests.Data.{manifest}

abbrev local : StrategyManifest
local = record manifest {
  entrypoint = "strategy.py:Strategy";
  resources = record (manifest.resources) { allowed_imports = "math" ∷ [] };
}

abbrev evidence : StrategyCodeEvidence
evidence = record {
  entrypoint = "strategy.py:Strategy";
  package_files = [];
  package_sha256 = "package";
  runtime_distribution = "paper-strategy-runtime-contract";
  runtime_version = "1.1.0";
  runtime_file_count = 1;
  runtime_source_sha256 = "runtime";
}

abbrev discovered : StrategyPackage
discovered = record {
  root = "/strategies/crossing";
  manifest = local;
  manifest_sha256 = "manifest";
  code_evidence = evidence;
}

-- An instance is just the manifest that it declares.
abbrev loader : Loader StrategyManifest
loader = record {
  attested = true;
  build_evidence = λ root entrypoint. ok evidence;
  sources = tree (node (import_names ("math" ∷ "psrc.domain" ∷ [])) 1 0 done done) ∷ [];
  is_file_within = λ name. true;
  import_file = λ path name. ok local;
  import_module = λ path name. ok manifest;
  manifest_of = λ instance_. some instance_;
  same_evidence = λ a b. true;
  same_manifest = λ a b. true;
}

loads : load_strategy loader discovered SandboxMode.strict_container ≡ ok local
unfolding load_strategy instantiate split_entrypoint ends_with_py import_entrypoint local_entrypoint
    enforce_source_policy source_findings scan visit check_node check_imports check_import
    import_root manifest_differs parts is_absolute
loads = refl

load_strategy-IsChecked_example : IsChecked loader discovered SandboxMode.strict_container local
load_strategy-IsChecked_example =
    load_strategy-IsChecked loader discovered SandboxMode.strict_container local loads
