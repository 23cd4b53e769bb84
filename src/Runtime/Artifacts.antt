-- ===== src/Runtime/Artifacts.antt =====
-- src/psrc/runtime/artifacts.py: the manifest of a stored artifact; the store is a child.
pub mod Components
pub mod Store
use strategy_adapter.Prelude.{ℕ, String, Option, List}
use strategy_adapter.Domain.Market.{Timestamp}

pub record ArtifactFile : Type 0 where
  pub logical_name : String
  pub media_type : String
  pub sha256 : String
  pub size_bytes : ℕ

pub data ArtifactKind : Type 0 where
  model policy state not_applicable : ArtifactKind

pub record ArtifactManifest : Type 0 where
  pub contract_version : String
  pub artifact_id : String
  pub strategy_id : String
  pub strategy_version : String
  pub artifact_kind : ArtifactKind
  pub framework : String
  pub created_at : Timestamp
  pub training_dataset_id : Option String
  pub seed : Option ℕ
  pub files : List ArtifactFile
  pub metadata : List (String × String)
