-- ===== src/Runtime/Package.antt =====
-- src/psrc/runtime/package.py: `load_strategy`. Parameters are what the file system, the import
-- system and pydantic answer: the sources as they are parsed, the instances that are made, and
-- `==` of two models.
pub mod Checked
use Prim.Native.Char.{code}
use Prim.Native.String.{String}
use strategy_adapter.Prelude.{
  ℕ, Bool, true, false, not, ◌&&◌, ◌||◌, List, [], ◌∷◌, ◌++◌, Option, none, some, contains,
  nonempty, nat_beq, ok, raised, ◌>>=◌, ◌>>◌, raise_if, ◌==◌, string_eq, if◌then◌else◌,
}
use strategy_adapter.Prelude.Int.{codes}
use strategy_adapter.Contract.Errors.{
  Call, ErrorCode, ErrorStage, Raised, python, violation, value_error, os_error,
}
use strategy_adapter.Contract.Models.{StrategyManifest, SandboxMode, sandbox_mode_eq}
use strategy_adapter.Contract.Models.Evidence.{StrategyCodeEvidence}
use strategy_adapter.Runtime.Artifacts.Components.{parts, is_absolute}
use strategy_adapter.Sandbox.Static.{Parsed, PolicyFinding, scan}

pub record StrategyPackage : Type 0 where
  pub root : String
  pub manifest : StrategyManifest
  pub manifest_sha256 : String
  pub code_evidence : StrategyCodeEvidence

-- the surroundings of a load; `Instance` is the type of the objects that an entrypoint makes
pub record Loader (Instance : Type 0) : Type 0 where
  pub attested : Bool
  pub build_evidence : String → String → Call StrategyCodeEvidence
  pub sources : List Parsed
  pub is_file_within : String → Bool
  pub import_file : String → String → Call Instance
  pub import_module : String → String → Call Instance
  pub manifest_of : Instance → Option StrategyManifest
  pub same_evidence : StrategyCodeEvidence → StrategyCodeEvidence → Bool
  pub same_manifest : StrategyManifest → StrategyManifest → Bool

abbrev pub package_error : ErrorStage → ErrorCode → StrategyManifest → Raised
package_error stage error_code manifest = violation (record {
  run_id = "package.load";
  stage = stage;
  code = error_code;
  strategy_id = some manifest.strategy_id;
  engine_id = none;
})

-- `entrypoint.split(":", maxsplit=1)`, unpacked into two names
unfoldable pub split_entrypoint : String → Call (String × String)
split_entrypoint String.[] = raised (python value_error)
split_entrypoint (String.◌∷◌ c s) =
    let rest = split_entrypoint s in
    if nat_beq (code c) b':'
    then ok ("", s)
    else (rest >>= λ names. ok (String.◌∷◌ c names.0, names.1))

-- `module_name.endswith(".py")`
unfoldable pub ends_with_py : List ℕ → Bool
ends_with_py (c ∷ d ∷ e ∷ []) = nat_beq c b'.' && nat_beq d b'p' && nat_beq e b'y'
ends_with_py (c ∷ cs) = ends_with_py cs
ends_with_py [] = false

-- `module_name.startswith("psrc.")`
unfoldable pub is_trusted : List ℕ → Bool
is_trusted (a ∷ b ∷ c ∷ d ∷ e ∷ cs) =
    nat_beq a b'p' && nat_beq b b's' && nat_beq c b'r' && nat_beq d b'c' && nat_beq e b'.'
is_trusted _ = false

-- a `ContractViolation` is passed on, another exception becomes one
unfoldable pub as_invalid : StrategyManifest → Raised → Raised
as_invalid manifest (violation e) = violation e
as_invalid manifest (python e) =
    package_error ErrorStage.initialization ErrorCode.manifest_invalid manifest

abbrev pub caught : {A : Type 0} → StrategyManifest → Call A → Call A
caught manifest (ok a) = ok a
caught manifest (raised e) = raised (as_invalid manifest e)

module _ {Instance : Type 0} (loader : Loader Instance) (bundle : StrategyPackage) where
  -- the findings of `_enforce_source_policy`
  unfoldable pub source_findings : List Parsed → List PolicyFinding
  source_findings [] = []
  source_findings (source ∷ sources) =
      scan (bundle.manifest.resources.allowed_imports ++ "psrc" ∷ []) source
      ++ source_findings sources

  unfoldable pub enforce_source_policy : Call (Unit {0})
  enforce_source_policy =
      raise_if (nonempty (source_findings loader.sources))
        (package_error ErrorStage.sandbox ErrorCode.sandbox_policy_denied bundle.manifest)

  -- `_local_entrypoint`, of a name that ends in `.py`
  unfoldable pub local_entrypoint : String → Call String
  local_entrypoint name =
      raise_if (is_absolute name || contains (parts name) "..") (python value_error)
      >> raise_if (not (loader.is_file_within name)) (python os_error)
      >> ok name

  -- the import of the module that the entrypoint names
  unfoldable pub import_entrypoint : SandboxMode → String → String → Bool → Call Instance
  import_entrypoint mode module_name class_name true = local_entrypoint module_name >>= λ path.
      (enforce_source_policy >> loader.import_file path class_name)
  import_entrypoint mode module_name class_name false =
      raise_if (mode == SandboxMode.strict_container && not (is_trusted (codes module_name)))
        (python os_error)
      >> loader.import_module module_name class_name

  -- the `try` of `load_strategy`
  unfoldable pub instantiate : SandboxMode → Call Instance
  instantiate mode = split_entrypoint bundle.manifest.entrypoint >>= λ names.
      import_entrypoint mode names.0 names.1 (ends_with_py (codes names.0))

  -- `loaded_manifest != package.manifest`
  unfoldable pub manifest_differs : Option StrategyManifest → Bool
  manifest_differs none = true
  manifest_differs (some loaded) = not (loader.same_manifest loaded bundle.manifest)

  unfoldable pub load_strategy : SandboxMode → Call Instance
  load_strategy mode = do
    raise_if (mode == SandboxMode.strict_container && not loader.attested)
        (package_error ErrorStage.sandbox ErrorCode.sandbox_unavailable bundle.manifest)
    observed ← loader.build_evidence bundle.root bundle.manifest.entrypoint
    raise_if (not (loader.same_evidence observed bundle.code_evidence))
        (package_error ErrorStage.validation ErrorCode.source_hash_mismatch bundle.manifest)
    strategy ← caught bundle.manifest (instantiate mode)
    raise_if (manifest_differs (loader.manifest_of strategy))
        (package_error ErrorStage.validation ErrorCode.manifest_invalid bundle.manifest)
    ok strategy
