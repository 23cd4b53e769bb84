-- ===== src/Runtime/Artifacts/Store.antt =====
-- src/psrc/runtime/artifacts.py: `ArtifactStore`, over the files below its root. The digest and the
-- text of a manifest are the platform's. Of the directories that a name can lead to, the store's
-- own are kept by their names, and `..` leads to the directory that the root is in.
pub mod Loading
pub mod Saving
use strategy_adapter.Prelude.{
  ℕ, String, Bool, true, false, not, ◌&&◌, List, [], ◌∷◌, Option, none, some, all, length, nat_beq,
  ok, raised, ◌>>=◌, ◌>>◌, raise_if, ◌==◌, ◌!=◌, string_eq, nat_eq, option_eq, if◌then◌else◌,
}
use strategy_adapter.Prelude.Dict.{Dict, lookup, insert}
use strategy_adapter.Contract.Errors.{
  Call, ErrorCode, ErrorStage, Raised, python, violation, value_error, os_error,
}
use strategy_adapter.Contract.Models.Identifiers.{is_identifier}
use strategy_adapter.Domain.Market.{Timestamp}
use strategy_adapter.Runtime.Artifacts.{ArtifactFile, ArtifactManifest, ArtifactKind}
use strategy_adapter.Runtime.Artifacts.Components.{validate_component}

abbrev pub Bytes : Type 0
Bytes = List ℕ

-- `hashlib.sha256(...).hexdigest()`, the text that a manifest is written as, and the manifest that
-- a file's bytes are read as, if they are one's
pub record Platform : Type 0 where
  pub sha256 : Bytes → String
  pub encode : ArtifactManifest → Bytes
  pub decode : Bytes → Option ArtifactManifest

pub record Store : Type 0 where
  pub above : Dict Bytes
  pub artifacts : Dict (Dict Bytes)

-- the directory `root / name`
abbrev pub find_dir : String → Store → Option (Dict Bytes)
find_dir name s = if name == ".." then some s.above else lookup name s.artifacts

-- the file `dir / name`
abbrev pub find_file : String → Dict Bytes → Option Bytes
find_file name dir = if name == ".." then none else lookup name dir

abbrev pub put_dir : String → Dict Bytes → Store → Store
put_dir name dir s = record { above = s.above; artifacts = insert name dir s.artifacts }

-- what `_fail` raises
abbrev pub artifact_error : String → String → ErrorCode → Raised
artifact_error run_id strategy_id code = violation (record {
  run_id = run_id;
  stage = ErrorStage.artifact;
  code = code;
  strategy_id = some strategy_id;
  engine_id = none;
})

abbrev pub or_raise : {A : Type 0} → Raised → Option A → Call A
or_raise e none = raised e
or_raise e (some a) = ok a

-- `d == e`, of two dicts
abbrev agrees : Dict String → String × String → Bool
agrees d entry = lookup entry.0 d == some entry.1

abbrev pub same_dict : Dict String → Dict String → Bool
same_dict d e = nat_beq (length d) (length e) && all (agrees e) d

-- the arguments of `save_bytes`, `metadata` after its default
pub record SaveRequest : Type 0 where
  pub run_id : String
  pub artifact_id : String
  pub strategy_id : String
  pub strategy_version : String
  pub artifact_kind : ArtifactKind
  pub framework : String
  pub logical_name : String
  pub media_type : String
  pub payload : Bytes
  pub training_dataset_id : String
  pub seed : ℕ
  pub metadata : Dict String

abbrev same_kind : ArtifactKind → ArtifactKind → Bool
same_kind ArtifactKind.model ArtifactKind.model = true
same_kind ArtifactKind.policy ArtifactKind.policy = true
same_kind ArtifactKind.state ArtifactKind.state = true
same_kind ArtifactKind.not_applicable ArtifactKind.not_applicable = true
same_kind _ _ = false

-- the manifest's own name in an artifact's directory
abbrev pub manifest_name : String
manifest_name = "manifest.json"

-- the validation of the manifest that `save_bytes` makes
abbrev pub valid_ids : SaveRequest → Bool
valid_ids r =
    is_identifier r.artifact_id
    && is_identifier r.strategy_id
    && is_identifier r.training_dataset_id

-- `target.read_bytes()`, after its test that the file is there
unfoldable pub read_file : String → String → String → Dict Bytes → Call Bytes
read_file run_id strategy_id logical_name dir = validate_component logical_name >>= λ name.
    or_raise (artifact_error run_id strategy_id ErrorCode.artifact_not_found) (find_file name dir)

module _ (p : Platform) where
  abbrev only_file : SaveRequest → List ArtifactFile → Bool
  only_file r (file ∷ []) =
      file.logical_name == r.logical_name
      && file.media_type == r.media_type
      && file.sha256 == p.sha256 r.payload
      && nat_beq file.size_bytes (length r.payload)
  only_file r _ = false

  -- `reusable`
  unfoldable pub reusable : SaveRequest → ArtifactManifest → Bool
  reusable r existing =
      existing.artifact_id == r.artifact_id
      && existing.strategy_id == r.strategy_id
      && existing.strategy_version == r.strategy_version
      && same_kind existing.artifact_kind r.artifact_kind
      && existing.framework == r.framework
      && existing.training_dataset_id == some r.training_dataset_id
      && existing.seed == some r.seed
      && same_dict existing.metadata r.metadata
      && only_file r existing.files

  -- the loop of `load_bytes`
  unfoldable pub load_files :
      String → String → Dict Bytes → List ArtifactFile → Dict Bytes → Call (Dict Bytes)
  load_files run_id strategy_id dir [] loaded = ok loaded
  load_files run_id strategy_id dir (declared ∷ files) loaded =
      read_file run_id strategy_id declared.logical_name dir >>= λ payload.
      raise_if (p.sha256 payload != declared.sha256)
        (artifact_error run_id strategy_id ErrorCode.artifact_hash_mismatch)
      >> load_files run_id strategy_id dir files (insert declared.logical_name payload loaded)

  unfoldable pub load_bytes : String → String → ArtifactManifest → Store → Call (Dict Bytes)
  load_bytes run_id strategy_id manifest s = validate_component manifest.artifact_id >>= λ name.
      or_raise (artifact_error run_id strategy_id ErrorCode.artifact_not_found) (find_dir name s)
      >>= λ dir. load_files run_id strategy_id dir manifest.files []

  -- `save_bytes` on a directory that is there
  unfoldable pub reuse : SaveRequest → Dict Bytes → Store → Call ArtifactManifest
  reuse r dir s =
      let mismatch = artifact_error r.run_id r.strategy_id ErrorCode.artifact_hash_mismatch in
      or_raise mismatch (find_file manifest_name dir) >>= λ text.
      or_raise mismatch (p.decode text) >>= λ existing.
      raise_if (not (reusable r existing)) mismatch
      >> (load_bytes r.run_id r.strategy_id existing s >>= λ loaded. ok existing)

  unfoldable pub new_manifest : Timestamp → SaveRequest → ArtifactManifest
  new_manifest now r = record {
    contract_version = "1.1.0";
    artifact_id = r.artifact_id;
    strategy_id = r.strategy_id;
    strategy_version = r.strategy_version;
    artifact_kind = r.artifact_kind;
    framework = r.framework;
    created_at = now;
    training_dataset_id = some r.training_dataset_id;
    seed = some r.seed;
    files =
        (record {
          logical_name = r.logical_name;
          media_type = r.media_type;
          sha256 = p.sha256 r.payload;
          size_bytes = length r.payload;
        })
        ∷ [];
    metadata = r.metadata;
  }

  -- `save_bytes` on a new directory: a failure leaves what was written before it
  unfoldable pub create :
      Timestamp → SaveRequest → String → String → Store → Call ArtifactManifest × Store
  create now r dir_name name s =
      let manifest = new_manifest now r in
      let payload_only = (name, r.payload) ∷ [] in
      if name == ".."
      then (raised (python os_error), put_dir dir_name [] s)
      else if not (valid_ids r)
      then (raised (python value_error), put_dir dir_name payload_only s)
      else (ok manifest, put_dir dir_name (insert manifest_name (p.encode manifest) payload_only) s)

  -- `save_bytes` below the artifact's directory, which is there or not
  unfoldable pub save_in :
      Timestamp
      → SaveRequest
      → String
      → String
      → Option (Dict Bytes)
      → Store
      → Call ArtifactManifest × Store
  save_in now r dir_name name (some dir) s = (reuse r dir s, s)
  save_in now r dir_name name none s = create now r dir_name name s

  -- `save_bytes` after the validation of both path components
  unfoldable pub save_validated :
      Timestamp → SaveRequest → Call String → Call String → Store → Call ArtifactManifest × Store
  save_validated now r (raised e) _ s = (raised e, s)
  save_validated now r (ok dir_name) (raised e) s = (raised e, s)
  save_validated now r (ok dir_name) (ok name) s =
      save_in now r dir_name name (find_dir dir_name s) s

  unfoldable pub save_bytes : Timestamp → SaveRequest → Store → Call ArtifactManifest × Store
  save_bytes now r s =
      save_validated now r (validate_component r.artifact_id) (validate_component r.logical_name) s
