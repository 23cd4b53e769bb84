-- ===== src/Runtime/Artifacts/Store/Loading.antt =====
-- src/psrc/runtime/artifacts.py: what `load_bytes` has checked, and how it fails.
use strategy_adapter.Prelude.{
  String, List, [], ◌∷◌, Option, none, some, All, All-map, ok, ◌>>=◌, ◌>>◌, raise_if, >>=-eq-ok,
  raise_if-eq-ok, ok-injective, ◌==◌, ◌!=◌, string_eq, Bool-cases, ◌≡◌, inl, inr, refl, sym, ap,
  ◌∙◌, subst, not-eq-false, eq_self,
}
use strategy_adapter.Prelude.Dict.{Dict, lookup, insert, lookup-insert}
use strategy_adapter.Contract.Errors.{ErrorCode, Raised}
use strategy_adapter.Runtime.Artifacts.{ArtifactFile, ArtifactManifest}
use strategy_adapter.Runtime.Artifacts.Components.{validate_component}
use strategy_adapter.Runtime.Artifacts.Store.{
  Bytes, Platform, Store, find_dir, artifact_error, or_raise, read_file, load_files, load_bytes,
}

or_raise-eq-ok : {A : Type 0} (e : Raised) (o : Option A) {a : A} → or_raise e o ≡ ok a → o ≡ some a
or_raise-eq-ok e none h = cc
or_raise-eq-ok e (some b) h = cc

module _ (p : Platform) (run_id strategy_id : String) where
  -- A declared file is in the directory with its digest, and was loaded under its name.
  pub record IsLoaded (dir : Dict Bytes) (loaded : Dict Bytes) (file : ArtifactFile) : Type 0 where
    pub payload : Bytes
    pub present : read_file run_id strategy_id file.logical_name dir ≡ ok payload
    pub digest : p.sha256 payload ≡ file.sha256
    pub under_name : lookup file.logical_name loaded ≡ some payload

  -- Another file that is loaded leaves it so: under the same name it has the same bytes.
  IsLoaded-insert :
      (dir loaded : Dict Bytes) (name : String) (payload : Bytes) (file : ArtifactFile)
      → read_file run_id strategy_id name dir ≡ ok payload
      → IsLoaded dir loaded file
      → IsLoaded dir (insert name payload loaded) file
  IsLoaded-insert dir loaded name payload file there before = record {
    payload = before.payload;
    present = before.present;
    digest = before.digest;
    under_name =
        lookup-insert name file.logical_name payload loaded
        ∙ elim (Bool-cases (name == file.logical_name)) [
          | inl same ↦
              (let one =
                  sym there
                  ∙ ap (λ n. read_file run_id strategy_id n dir)
                      ((string_eq.beq_iff name file.logical_name).0 same)
                  ∙ before.present in
                rw same (ap some (ok-injective one)))
          | inr other ↦ rw other (before.under_name)
        ];
  }

  digest_checked :
      (actual declared : String) (e : Raised)
      → raise_if (actual != declared) e ≡ ok tt
      → actual ≡ declared
  digest_checked actual declared e h =
      (string_eq.beq_iff actual declared).0
        (not-eq-false (actual == declared) (raise_if-eq-ok (actual != declared) e h))

  abbrev mismatch : Raised
  mismatch = artifact_error run_id strategy_id ErrorCode.artifact_hash_mismatch

  load_files-IsLoaded :
      (dir : Dict Bytes) (files : List ArtifactFile) (before loaded : Dict Bytes)
      (done : List ArtifactFile)
      → All (IsLoaded dir before) done
      → load_files p run_id strategy_id dir files before ≡ ok loaded
      → All (IsLoaded dir loaded) files × All (IsLoaded dir loaded) done
  unfolding load_files
  load_files-IsLoaded dir [] before loaded done h returned =
      (tt, subst (λ (d : Dict Bytes). All (IsLoaded dir d) done) (ok-injective returned) h)
  load_files-IsLoaded dir (file ∷ files) before loaded done h returned =
      let (payload, there, rest) =
        >>=-eq-ok (read_file run_id strategy_id file.logical_name dir)
          (λ payload.
            raise_if (p.sha256 payload != file.sha256) mismatch
            >> load_files p run_id strategy_id dir files (insert file.logical_name payload before))
          returned in
      let (_, digest, others) =
        >>=-eq-ok (raise_if (p.sha256 payload != file.sha256) mismatch)
          (λ _. load_files p run_id strategy_id dir files (insert file.logical_name payload before))
          rest in
      let after : Dict Bytes = insert file.logical_name payload before in
      let now : IsLoaded dir after file = record {
        payload = payload;
        present = there;
        digest = digest_checked (p.sha256 payload) file.sha256 mismatch digest;
        under_name =
            lookup-insert file.logical_name file.logical_name payload before
            ∙ rw (eq_self file.logical_name) refl;
      } in
      let kept : All (IsLoaded dir after) done =
        All-map (IsLoaded dir before) (IsLoaded dir after) done
          (λ other. IsLoaded-insert dir before file.logical_name payload other there) h in
      let (later, first) =
        load_files-IsLoaded dir files after loaded (file ∷ done) (now, kept) others in
      ((first.0, later), first.1)

  -- When `load_bytes` returns, the manifest's artifact has a directory, and for every file that the
  -- manifest declares the directory has bytes under the file's name, they have the declared
  -- digest, and they are what is returned under that name.
  pub load_bytes-IsLoaded :
      (manifest : ArtifactManifest) (s : Store) (loaded : Dict Bytes)
      → load_bytes p run_id strategy_id manifest s ≡ ok loaded
      → (name : String) × (dir : Dict Bytes) × (validate_component manifest.artifact_id ≡ ok name)
        × (find_dir name s ≡ some dir)
        × All (IsLoaded dir loaded) manifest.files
  unfolding load_bytes
  load_bytes-IsLoaded manifest s loaded returned =
      let found = or_raise (artifact_error run_id strategy_id ErrorCode.artifact_not_found) in
      let (name, safe, rest) =
        >>=-eq-ok (validate_component manifest.artifact_id)
          (λ name. found (find_dir name s) >>= λ dir.
            load_files p run_id strategy_id dir manifest.files [])
          returned in
      let (dir, there, files) =
        >>=-eq-ok (found (find_dir name s))
          (λ dir. load_files p run_id strategy_id dir manifest.files []) rest in
      (
        name,
        dir,
        safe,
        or_raise-eq-ok (artifact_error run_id strategy_id ErrorCode.artifact_not_found)
            (find_dir name s) there,
        (load_files-IsLoaded dir manifest.files [] loaded [] tt files).0,
      )

  -- A declared file is in the directory with its digest.
  abbrev pub IsIntact : Dict Bytes → ArtifactFile → Type 0
  IsIntact dir file =
      (payload : Bytes) × (read_file run_id strategy_id file.logical_name dir ≡ ok payload)
      × (p.sha256 payload ≡ file.sha256)

  load_files_total :
      (dir : Dict Bytes) (files : List ArtifactFile) (before : Dict Bytes)
      → All (IsIntact dir) files
      → (loaded : Dict Bytes) × (load_files p run_id strategy_id dir files before ≡ ok loaded)
  unfolding load_files
  load_files_total dir [] before h = (before, refl)
  load_files_total dir (file ∷ files) before h =
      rw (h.0.1, h.0.2, eq_self file.sha256)
        (load_files_total dir files (insert file.logical_name (h.0.0) before) h.1)

  -- When the manifest's artifact has a directory in which every declared file is there with its
  -- declared digest, `load_bytes` returns, whatever sizes the manifest declares.
  pub loads_when_intact :
      (manifest : ArtifactManifest) (s : Store) (name : String) (dir : Dict Bytes)
      → validate_component manifest.artifact_id ≡ ok name
      → find_dir name s ≡ some dir
      → All (IsIntact dir) manifest.files
      → (loaded : Dict Bytes) × (load_bytes p run_id strategy_id manifest s ≡ ok loaded)
  unfolding load_bytes
  loads_when_intact manifest s name dir safe there intact =
      rw (safe, there) (load_files_total dir manifest.files [] intact)
