-- ===== src/Contract/Models/Evidence.antt =====
-- src/psrc/contract/models.py: the evidence of a strategy's source files. The digest of the files'
-- canonical text is a parameter.
use strategy_adapter.Prelude.{
  ℕ, String, Bool, true, false, not, ◌&&◌, ◌||◌, List, [], ◌∷◌, map, contains, distinct, nonempty,
  nat_beq, ◌==◌, string_eq, text_leb,
}
use strategy_adapter.Prelude.Int.{codes}
use strategy_adapter.Runtime.Artifacts.Components.{parts, is_absolute}

pub record SourceFileEvidence : Type 0 where
  pub path : String
  pub size_bytes : ℕ
  pub sha256 : String

abbrev last_or_empty : List String → String
last_or_empty [] = ""
last_or_empty (p ∷ []) = p
last_or_empty (p ∷ ps) = last_or_empty ps

-- `path.suffix == ".py"`, of the characters of the last part: a name that is just `.py` has no
-- suffix
unfoldable pub ends_in_py : List ℕ → Bool
ends_in_py [] = false
ends_in_py (c ∷ []) = false
ends_in_py (c ∷ d ∷ []) = false
ends_in_py (c ∷ d ∷ e ∷ []) = false
ends_in_py (c ∷ d ∷ e ∷ f ∷ []) = nat_beq d b'.' && nat_beq e b'p' && nat_beq f b'y'
ends_in_py (c ∷ cs) = ends_in_py cs

unfoldable pub validate_relative_python_path : SourceFileEvidence → Bool
validate_relative_python_path file = not (
    is_absolute file.path
    || contains (parts file.path) ".."
    || not (ends_in_py (codes (last_or_empty (parts file.path)))))

pub record StrategyCodeEvidence : Type 0 where
  pub entrypoint : String
  pub package_files : List SourceFileEvidence
  pub package_sha256 : String
  pub runtime_distribution : String
  pub runtime_version : String
  pub runtime_file_count : ℕ
  pub runtime_source_sha256 : String

-- `paths == tuple(sorted(paths))`
abbrev pub is_sorted : List String → Bool
is_sorted [] = true
is_sorted (p ∷ []) = true
is_sorted (p ∷ q ∷ ps) = text_leb p q && is_sorted (q ∷ ps)

-- `tree_sha256` is the digest of the canonical text of the files
unfoldable pub validate_package_tree_hash :
    (List SourceFileEvidence → String) → StrategyCodeEvidence → Bool
validate_package_tree_hash tree_sha256 evidence =
    let paths = map (λ f. f.path) evidence.package_files in
    nonempty paths
    && is_sorted paths
    && distinct paths
    && tree_sha256 evidence.package_files == evidence.package_sha256
