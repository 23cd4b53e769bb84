-- ===== src/Runtime/Artifacts/Store/Saving.antt =====
-- src/psrc/runtime/artifacts.py: `save_bytes`, once and again, and `load_bytes` after it.
use strategy_adapter.Prelude.{
  arith, both, not-eq-true, if-both, String, true, false, not, List, [], ◌∷◌, Option, none, some,
  all, length, ok, raised, ◌==◌, string_eq, nat_eq, option_eq, eq_self, Bool-cases, ◌≡◌, inl, inr,
  refl, ◌∙◌, contains, distinct, map,
}
use strategy_adapter.Prelude.Dict.{Dict, insert, lookup-insert}
use strategy_adapter.Contract.Errors.{Call}
use strategy_adapter.Domain.Market.{Timestamp}
use strategy_adapter.Runtime.Artifacts.{ArtifactManifest, ArtifactKind}
use strategy_adapter.Runtime.Artifacts.Components.{validate_component}
use strategy_adapter.Runtime.Artifacts.Store.{
  Bytes, Platform, Store, SaveRequest, valid_ids, find_dir, find_file, put_dir, same_dict, agrees,
  same_kind, manifest_name, reusable, read_file, load_files, load_bytes, reuse, new_manifest,
  create, save_in, save_validated, save_bytes,
}

-- Another directory than the one that is put is as it was.
find_dir-put_dir :
    (name : String) (dir : Dict Bytes) (s : Store) (other : String) (found : Dict Bytes)
    → find_dir name s ≡ none
    → find_dir other s ≡ some found
    → find_dir other (put_dir name dir s) ≡ some found
find_dir-put_dir name dir s other found absent there = elim (Bool-cases (name == other)) [
  | inl same ↦ (let one = (string_eq.beq_iff name other).0 same in cc)
  | inr apart ↦ ground (
    arith,
    string_eq.beq_iff name other,
    string_eq.beq_iff other "..",
    apart,
    there,
    lookup-insert name other dir s.artifacts,
  )
]

find_dir-put_dir_same :
    (name : String) (dir : Dict Bytes) (s : Store)
    → find_dir name s ≡ none
    → find_dir name (put_dir name dir s) ≡ some dir
find_dir-put_dir_same name dir s absent = elim (Bool-cases (name == "..")) [
  | inl up ↦ ground (arith, up, absent)
  | inr inside ↦ rw inside (lookup-insert name name dir s.artifacts ∙ rw (eq_self name) refl)
]

module _ (p : Platform) (now : Timestamp) (r : SaveRequest) where
  create_keeps :
      (dir_name name : String) (s : Store) (other : String) (found : Dict Bytes)
      → find_dir dir_name s ≡ none
      → find_dir other s ≡ some found
      → find_dir other (create p now r dir_name name s).1 ≡ some found
  unfolding create
  create_keeps dir_name name s other found absent there =
      let keeps : (dir : Dict Bytes) → find_dir other (put_dir dir_name dir s) ≡ some found =
        λ dir. find_dir-put_dir dir_name dir s other found absent there in
      if-both (λ (o : Call ArtifactManifest × Store). find_dir other o.1 ≡ some found)
        (name == "..") (keeps [])
        (if-both (λ (o : Call ArtifactManifest × Store). find_dir other o.1 ≡ some found)
          (not (valid_ids r)) (keeps _) (keeps _))

  save_in_keeps :
      (dir_name name : String) (s : Store) (dir : Option (Dict Bytes)) (other : String)
      (found : Dict Bytes)
      → find_dir dir_name s ≡ dir
      → find_dir other s ≡ some found
      → find_dir other (save_in p now r dir_name name dir s).1 ≡ some found
  unfolding save_in
  save_in_keeps dir_name name s none other found absent there =
      create_keeps dir_name name s other found absent there
  save_in_keeps dir_name name s (some dir) other found before there = there

  save_validated_keeps :
      (dir_name name : Call String) (s : Store) (other : String) (found : Dict Bytes)
      → find_dir other s ≡ some found
      → find_dir other (save_validated p now r dir_name name s).1 ≡ some found
  unfolding save_validated
  save_validated_keeps (raised e) name s other found there = there
  save_validated_keeps (ok dir_name) (raised e) s other found there = there
  save_validated_keeps (ok dir_name) (ok name) s other found there =
      save_in_keeps dir_name name s (find_dir dir_name s) other found refl there

  -- An artifact's directory that is there keeps its files through any save, also a failed one and
  -- one under its own name.
  pub saved_directories_final :
      (s : Store) (other : String) (found : Dict Bytes)
      → find_dir other s ≡ some found
      → find_dir other (save_bytes p now r s).1 ≡ some found
  unfolding save_bytes
  saved_directories_final s other found there =
      save_validated_keeps (validate_component r.artifact_id) (validate_component r.logical_name) s
        other found there

same_kind_self : (k : ArtifactKind) → same_kind k k ≡ true
same_kind_self ArtifactKind.model = refl
same_kind_self ArtifactKind.policy = refl
same_kind_self ArtifactKind.state = refl
same_kind_self ArtifactKind.not_applicable = refl

abbrev pub keys : Dict String → List String
keys d = map (λ e. e.0) d

-- An entry under another key changes none of these.
all-agrees-cons :
    (k v : String) (d e : Dict String)
    → contains (keys e) k ≡ false
    → all (agrees d) e ≡ true
    → all (agrees ((k, v) ∷ d)) e ≡ true
all-agrees-cons k v d [] fresh h = refl
all-agrees-cons k v d ((j, w) ∷ e) fresh h =
    ground (arith, string_eq.beq_iff k j, all-agrees-cons k v d e)

all-agrees_self : (d : Dict String) → distinct (keys d) ≡ true → all (agrees d) d ≡ true
all-agrees_self [] h = refl
all-agrees_self ((k, v) ∷ d) h =
    let (fresh, rest) = both (not (contains (keys d) k)) (distinct (keys d)) h in
    rw (eq_self k, eq_self v)
      (all-agrees-cons k v d d (not-eq-true (contains (keys d) k) fresh) (all-agrees_self d rest))

same_dict_self : (d : Dict String) → distinct (keys d) ≡ true → same_dict d d ≡ true
same_dict_self d h = rw (eq_self (length d), all-agrees_self d h) refl

-- The directory that a first save leaves.
abbrev saved_dir : Platform → SaveRequest → String → ArtifactManifest → Dict Bytes
saved_dir p r name manifest = insert manifest_name (p.encode manifest) ((name, r.payload) ∷ [])

module _ (p : Platform) (now : Timestamp) (r : SaveRequest) (dir_name name : String) (s : Store)
    (safe : validate_component r.artifact_id ≡ ok dir_name)
    (named : validate_component r.logical_name ≡ ok name) (absent : find_dir dir_name s ≡ none)
    (plain : (name == "..") ≡ false) (valid : valid_ids r ≡ true) where
  abbrev manifest : ArtifactManifest
  manifest = new_manifest p now r

  abbrev saved : Store
  saved = put_dir dir_name (saved_dir p r name manifest) s

  -- A first save returns the manifest of the payload.
  first_save : save_bytes p now r s ≡ (ok manifest, saved)
  unfolding save_bytes save_validated save_in create
  first_save = rw (safe, named, absent, plain, valid) refl

  there : find_dir dir_name saved ≡ some (saved_dir p r name manifest)
  there = find_dir-put_dir_same dir_name (saved_dir p r name manifest) s absent

  module _ (own : (name == manifest_name) ≡ false) where
    read_back :
        read_file r.run_id r.strategy_id r.logical_name (saved_dir p r name manifest) ≡ ok r.payload
    unfolding read_file
    read_back = rw (named, plain, own, eq_self name) refl

    loads_saved :
        load_bytes p r.run_id r.strategy_id manifest saved ≡ ok ((r.logical_name, r.payload) ∷ [])
    unfolding load_bytes load_files new_manifest
    loads_saved = rw (safe, there, read_back, eq_self (p.sha256 r.payload)) refl

  -- Let both path components be valid and the artifact's directory not there, the file not named
  -- `..` nor as the manifest, and the three identifiers well-formed. Then a save returns the
  -- manifest of the payload, and a load with that manifest from the store that the save leaves
  -- returns just the payload under its logical name.
  pub save_then_load :
      (name == manifest_name) ≡ false
      → (save_bytes p now r s ≡ (ok manifest, saved))
        × (load_bytes p r.run_id r.strategy_id manifest saved
            ≡ ok ((r.logical_name, r.payload) ∷ []))
  save_then_load own = (first_save, loads_saved own)

  has_manifest : find_file manifest_name (saved_dir p r name manifest) ≡ some (p.encode manifest)
  has_manifest =
      lookup-insert manifest_name manifest_name (p.encode manifest) ((name, r.payload) ∷ [])

  manifest-reusable : distinct (keys r.metadata) ≡ true → reusable p r manifest ≡ true
  unfolding reusable new_manifest
  manifest-reusable keyed =
      rw
        (
          eq_self r.artifact_id,
          eq_self r.strategy_id,
          eq_self r.strategy_version,
          same_kind_self r.artifact_kind,
          eq_self r.framework,
          eq_self r.training_dataset_id,
          eq_self r.seed,
          same_dict_self r.metadata keyed,
          eq_self r.logical_name,
          eq_self r.media_type,
          eq_self (p.sha256 r.payload),
          eq_self (length r.payload),
        )
        refl

  -- Let the same conditions hold, the manifest's text be read as the manifest, and no key of the
  -- metadata be listed twice. Then the same save at any later time returns the manifest of the
  -- first one, with its time, and leaves the store as the first one left it.
  pub save_again :
      (later : Timestamp)
      → p.decode (p.encode manifest) ≡ some manifest
      → distinct (keys r.metadata) ≡ true
      → (name == manifest_name) ≡ false
      → (save_bytes p now r s ≡ (ok manifest, saved))
        × (save_bytes p later r saved ≡ (ok manifest, saved))
  unfolding save_bytes save_validated save_in reuse
  save_again later decoded keyed own = (
    first_save,
    rw (safe, named, there, reuse, has_manifest, decoded, manifest-reusable keyed, loads_saved own)
        refl,
  )
