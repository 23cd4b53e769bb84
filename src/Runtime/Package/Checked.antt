-- ===== src/Runtime/Package/Checked.antt =====
-- src/psrc/runtime/package.py: what a strategy that `load_strategy` returns has passed.
use strategy_adapter.Prelude.{
  String, Bool, true, false, not, ◌&&◌, ◌||◌, contains, string_eq, arith, List, [], ◌∷◌, ◌++◌, All,
  nonempty, ok, raised, raise_if, ◌>>◌, >>=-eq-ok, raise_if-eq-ok, ok-injective, ◌==◌, ◌≡◌, refl,
  sym, ap, ◌∙◌, subst, not-eq-false,
}
use strategy_adapter.Prelude.Int.{codes}
use strategy_adapter.Contract.Errors.{Call, python, value_error, os_error}
use strategy_adapter.Contract.Models.{StrategyManifest, SandboxMode, sandbox_mode_eq}
use strategy_adapter.Contract.Models.Evidence.{StrategyCodeEvidence}
use strategy_adapter.Runtime.Artifacts.Components.{parts, is_absolute}
use strategy_adapter.Sandbox.Static.{Parsed, scan}
use strategy_adapter.Runtime.Package.{
  StrategyPackage, Loader, split_entrypoint, ends_with_py, is_trusted, caught, source_findings,
  enforce_source_policy, local_entrypoint, import_entrypoint, instantiate, manifest_differs,
  load_strategy,
}

no_findings :
    {A : Type 0} (xs ys : List A) → nonempty (xs ++ ys) ≡ false → (xs ≡ []) × (nonempty ys ≡ false)
no_findings [] ys h = (refl, h)
no_findings (x ∷ xs) ys h = cc

caught-eq-ok :
    {A : Type 0} (m : StrategyManifest) (call : Call A) {a : A} → caught m call ≡ ok a → call ≡ ok a
caught-eq-ok m (ok b) h = h
caught-eq-ok m (raised e) h = cc

neither : (a b : Bool) → (a || b) ≡ false → (a ≡ false) × (b ≡ false)
neither a b h = ground arith

-- `strict and not passed` is false: in strict mode it passed.
strict_passes :
    (mode : SandboxMode) (passed : Bool)
    → (mode == SandboxMode.strict_container && not passed) ≡ false
    → mode ≡ SandboxMode.strict_container
    → passed ≡ true
strict_passes mode true h strict = refl
strict_passes mode false h strict =
    let e = sym (ap (λ (k : SandboxMode). k == SandboxMode.strict_container && true) strict) ∙ h in
    cc

module _ {Instance : Type 0} (loader : Loader Instance) (bundle : StrategyPackage) where
  abbrev pub IsScanned : List Parsed → Type 0
  IsScanned sources =
      All (λ source. scan (bundle.manifest.resources.allowed_imports ++ "psrc" ∷ []) source ≡ [])
        sources

  findings-IsScanned :
      (sources : List Parsed)
      → nonempty (source_findings loader bundle sources) ≡ false
      → IsScanned sources
  unfolding source_findings
  findings-IsScanned [] h = tt
  findings-IsScanned (source ∷ sources) h =
      let (clean, rest) =
        no_findings (scan (bundle.manifest.resources.allowed_imports ++ "psrc" ∷ []) source)
          (source_findings loader bundle sources) h in
      (clean, findings-IsScanned sources rest)

  -- A relative path without `..` that leads to a file within the package.
  pub record IsPackageFile (name : String) : Type 0 where
    pub relative : is_absolute name ≡ false
    pub no_parent : contains (parts name) ".." ≡ false
    pub within : loader.is_file_within name ≡ true

  local_entrypoint-IsPackageFile :
      (name path : String)
      → local_entrypoint loader bundle name ≡ ok path
      → IsPackageFile name × (path ≡ name)
  unfolding local_entrypoint
  local_entrypoint-IsPackageFile name path h =
      let safe_path =
        raise_if (is_absolute name || contains (parts name) "..") (python value_error) in
      let file_within = raise_if (not (loader.is_file_within name)) (python os_error) in
      let (_, h1, h2) = >>=-eq-ok (safe_path >> file_within) (λ _. ok name) h in
      let (_, safe, found) = >>=-eq-ok safe_path (λ _. file_within) h1 in
      let (relative, no_parent) =
        neither (is_absolute name) (contains (parts name) "..") (raise_if-eq-ok _ _ safe) in
      (
        record {
          relative = relative;
          no_parent = no_parent;
          within = not-eq-false _ (raise_if-eq-ok _ _ found);
        },
        sym (ok-injective h2),
      )

  -- What stands behind an instance. It was made from a file within the package, all of whose
  -- sources are scanned clean; or from a module, in strict mode one with a trusted name.
  abbrev pub IsVetted : SandboxMode → String → String → Instance → Bool → Type 0
  IsVetted mode name class_name instance_ true =
      IsPackageFile name
      × IsScanned loader.sources
      × (loader.import_file name class_name ≡ ok instance_)
  IsVetted mode name class_name instance_ false =
      (mode ≡ SandboxMode.strict_container → is_trusted (codes name) ≡ true)
      × (loader.import_module name class_name ≡ ok instance_)

  import_entrypoint-IsVetted :
      (mode : SandboxMode) (name class_name : String) (is_local : Bool) (instance_ : Instance)
      → import_entrypoint loader bundle mode name class_name is_local ≡ ok instance_
      → IsVetted mode name class_name instance_ is_local
  unfolding import_entrypoint enforce_source_policy
  import_entrypoint-IsVetted mode name class_name true instance_ h =
      let (path, found, rest) =
        >>=-eq-ok (local_entrypoint loader bundle name)
          (λ path. enforce_source_policy loader bundle >> loader.import_file path class_name) h in
      let (_, clean, made) =
        >>=-eq-ok (enforce_source_policy loader bundle) (λ _. loader.import_file path class_name)
          rest in
      let (is_file, same) = local_entrypoint-IsPackageFile name path found in
      (
        is_file,
        findings-IsScanned loader.sources (raise_if-eq-ok _ _ clean),
        subst (λ (p : String). loader.import_file p class_name ≡ ok instance_) same made,
      )
  import_entrypoint-IsVetted mode name class_name false instance_ h =
      let (_, trusted, made) = >>=-eq-ok _ (λ _. loader.import_module name class_name) h in
      (strict_passes mode (is_trusted (codes name)) (raise_if-eq-ok _ _ trusted), made)

  -- What a loaded strategy has passed.
  pub record IsChecked (mode : SandboxMode) (instance_ : Instance) : Type 0 where
    pub attested : mode ≡ SandboxMode.strict_container → loader.attested ≡ true
    pub observed : StrategyCodeEvidence
    pub rebuilt : loader.build_evidence bundle.root bundle.manifest.entrypoint ≡ ok observed
    pub unchanged : loader.same_evidence observed bundle.code_evidence ≡ true
    pub module_name : String
    pub class_name : String
    pub entrypoint : split_entrypoint bundle.manifest.entrypoint ≡ ok (module_name, class_name)
    pub vetted : IsVetted mode module_name class_name instance_ (ends_with_py (codes module_name))
    pub declared : manifest_differs loader bundle (loader.manifest_of instance_) ≡ false

  -- A strategy that is loaded has passed every check: in strict mode the process is attested; the
  -- package's source evidence, built anew, is that of the discovery; the instance was made
  -- from the entrypoint, which is a relative path without `..` to a file within the package, all of
  -- whose sources the scanner has found clean, or else a module, which in strict mode has a trusted
  -- name; and the instance declares the manifest of the package.
  pub load_strategy-IsChecked :
      (mode : SandboxMode) (instance_ : Instance)
      → load_strategy loader bundle mode ≡ ok instance_
      → IsChecked mode instance_
  unfolding load_strategy instantiate
  load_strategy-IsChecked mode instance_ h =
      let (_, attested, h1) = >>=-eq-ok _ _ h in
      let (observed, rebuilt, h2) =
        >>=-eq-ok (loader.build_evidence bundle.root bundle.manifest.entrypoint) _ h1 in
      let (_, same, h3) = >>=-eq-ok _ _ h2 in
      let (made, loaded, h4) =
        >>=-eq-ok (caught bundle.manifest (instantiate loader bundle mode)) _ h3 in
      let (_, declared, h5) = >>=-eq-ok _ _ h4 in
      let (names, split, imported) =
        >>=-eq-ok (split_entrypoint bundle.manifest.entrypoint) _
          (caught-eq-ok bundle.manifest (instantiate loader bundle mode) loaded) in
      record {
        attested = strict_passes mode loader.attested (raise_if-eq-ok _ _ attested);
        observed = observed;
        rebuilt = rebuilt;
        unchanged = not-eq-false _ (raise_if-eq-ok _ _ same);
        module_name = names.0;
        class_name = names.1;
        entrypoint = split;
        vetted =
            subst (λ (i : Instance). IsVetted mode names.0 names.1 i (ends_with_py (codes names.0)))
              (ok-injective h5) (import_entrypoint-IsVetted mode names.0 names.1 _ made imported);
        declared =
            subst (λ (i : Instance). manifest_differs loader bundle (loader.manifest_of i) ≡ false)
              (ok-injective h5) (raise_if-eq-ok _ _ declared);
      }
