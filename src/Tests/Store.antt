-- ===== src/Tests/Store.antt =====
-- The theorems on the artifact store, at a small platform.
use strategy_adapter.Prelude.{String, refl, ◌≡◌, [], ◌∷◌, none, some, ok, All, true}
use strategy_adapter.Prelude.Dict.{Dict}
use strategy_adapter.Contract.Errors.{Call}
use strategy_adapter.Contract.Models.Identifiers.{is_identifier}
use strategy_adapter.Runtime.Artifacts.{ArtifactManifest, ArtifactKind}
use strategy_adapter.Runtime.Artifacts.Components.{validate_component}
use strategy_adapter.Runtime.Artifacts.Store.{
  Bytes, Platform, Store, SaveRequest, find_dir, save_bytes, new_manifest, load_bytes, read_file,
  valid_ids, put_dir,
}
use strategy_adapter.Runtime.Artifacts.Store.Loading
use strategy_adapter.Runtime.Artifacts.Store.Saving

-- a digest of the empty payload and of all others, and a text that keeps nothing but one manifest
abbrev digest : Bytes → String
digest [] = "empty"
digest (b ∷ bs) = "some"

abbrev request : SaveRequest
request = record {
  run_id = "run";
  artifact_id = "weights";
  strategy_id = "crossing";
  strategy_version = "1.0.0";
  artifact_kind = ArtifactKind.model;
  framework = "none";
  logical_name = "weights.bin";
  media_type = "application/octet-stream";
  payload = 1 ∷ 2 ∷ [];
  training_dataset_id = "bars";
  seed = 7;
  metadata = ("rows", "2") ∷ [];
}

abbrev hashes : Platform
hashes = record { sha256 = digest; encode = λ m. []; decode = λ b. none }

abbrev platform : Platform
platform = record {
  sha256 = digest;
  encode = λ m. 123 ∷ [];
  decode = λ b. some (new_manifest hashes 5 request);
}

abbrev empty : Store
empty = record { above = []; artifacts = [] }

-- A path that leads out of the root passes the test of its components.
escapes : validate_component "../" ≡ ok ".."
unfolding validate_component
escapes = refl

named : validate_component "weights.bin" ≡ ok "weights.bin"
unfolding validate_component
named = refl

safe : validate_component "weights" ≡ ok "weights"
unfolding validate_component
safe = refl

valid : valid_ids request ≡ true
unfolding is_identifier
valid = refl

abbrev stored : ArtifactManifest
stored = new_manifest platform 5 request

abbrev after : Store
after = put_dir "weights" (("weights.bin", 1 ∷ 2 ∷ []) ∷ ("manifest.json", 123 ∷ []) ∷ []) empty

abbrev saving : Call ArtifactManifest × Store
saving = (ok stored, after)

save_then_load_example :
    (save_bytes platform 5 request empty ≡ saving)
    × (load_bytes platform "run" "crossing" stored after ≡ ok (("weights.bin", 1 ∷ 2 ∷ []) ∷ []))
save_then_load_example =
    Saving.save_then_load platform 5 request "weights" "weights.bin" empty safe named refl refl
      valid refl

decoded : platform.decode (platform.encode stored) ≡ some stored
unfolding new_manifest
decoded = refl

save_again_example :
    (save_bytes platform 5 request empty ≡ saving) × (save_bytes platform 9 request after ≡ saving)
save_again_example =
    Saving.save_again platform 5 request "weights" "weights.bin" empty safe named refl refl valid 9
      decoded refl refl

saved_directories_final_example :
    find_dir "weights" (save_bytes platform 9 request after).1
    ≡ some (("weights.bin", 1 ∷ 2 ∷ []) ∷ ("manifest.json", 123 ∷ []) ∷ [])
saved_directories_final_example =
    Saving.saved_directories_final platform 9 request after "weights"
      (("weights.bin", 1 ∷ 2 ∷ []) ∷ ("manifest.json", 123 ∷ []) ∷ []) refl

load_bytes-IsLoaded_example :
    (name : String) × (dir : Dict Bytes) × (validate_component stored.artifact_id ≡ ok name)
    × (find_dir name after ≡ some dir)
    × All
        (Loading.IsLoaded platform "run" "crossing" dir (("weights.bin", 1 ∷ 2 ∷ []) ∷ []))
        stored.files
load_bytes-IsLoaded_example =
    Loading.load_bytes-IsLoaded platform "run" "crossing" stored after
      (("weights.bin", 1 ∷ 2 ∷ []) ∷ []) save_then_load_example.1

present :
    read_file "run" "crossing" "weights.bin"
      (("weights.bin", 1 ∷ 2 ∷ []) ∷ ("manifest.json", 123 ∷ []) ∷ [])
    ≡ ok (1 ∷ 2 ∷ [])
unfolding read_file validate_component
present = refl

loads_when_intact_example :
    (loaded : Dict Bytes) × (load_bytes platform "run" "crossing" stored after ≡ ok loaded)
unfolding new_manifest
loads_when_intact_example =
    Loading.loads_when_intact platform "run" "crossing" stored after "weights"
      (("weights.bin", 1 ∷ 2 ∷ []) ∷ ("manifest.json", 123 ∷ []) ∷ []) safe refl
      ((1 ∷ 2 ∷ [], present, refl), tt)
