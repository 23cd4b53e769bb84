-- ===== src/Runtime/Training.antt =====
-- src/psrc/runtime/training.py: what a trainable strategy is given, and the protocol. `Float` is the
-- machine's type of floating-point numbers, which the runtime only passes on.
use strategy_adapter.Prelude.{ℕ, String, Option, Bool, List}
use strategy_adapter.Contract.Errors.{Call}
use strategy_adapter.Runtime.Strategy.{RuntimeStrategy}
use strategy_adapter.Runtime.Artifacts.{ArtifactManifest}

pub record RlTransition (Float : Type 0) : Type 0 where
  pub episode_id : String
  pub step : ℕ
  pub state : List Float
  pub action : ℕ
  pub reward : Float
  pub next_state : List Float
  pub next_action : Option ℕ
  pub terminated : Bool
  pub truncated : Bool

pub record TrainingRequest (Float : Type 0) : Type 0 where
  pub run_id : String
  pub dataset_id : String
  pub seed : ℕ
  pub features : List (List Float)
  pub labels : List Float
  pub transitions : List (RlTransition Float)
  pub metadata : List (String × String)

-- `Store` is the artifact store, which both calls are given; training may write to it.
pub record TrainableRuntimeStrategy (Float Store : Type 0) : Type 1 where
  pub strategy : RuntimeStrategy
  pub train :
      TrainingRequest Float
      → Store
      → strategy.Memory
      → Call (ArtifactManifest × Store × strategy.Memory)
  pub load : ArtifactManifest → Store → String → strategy.Memory → Call strategy.Memory
