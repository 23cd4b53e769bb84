-- ===== src/Runtime/Lifecycle.antt =====
-- src/psrc/runtime/lifecycle.py: the states of a run, the allowed transitions, and the object that
-- keeps the state with its history. `RUNNING` is an alias of `INFERENCE_BACKTEST`.
pub mod Paths
pub mod Endings
use strategy_adapter.Prelude.{
  ℕ, String, ◌≡◌, ◌↔◌, Bool, true, false, not, ◌||◌, some, List, [], ◌∷◌, ◌++◌, arith, Eq, nat_beq,
  contains, ◌==◌, ok, raised, if◌then◌else◌,
}
use strategy_adapter.Contract.Errors.{ContractError, ErrorStage, ErrorCode, Call, violation}

pub data LifecycleState : Type 0 where
  discovered validated capabilities_negotiated initialized training : LifecycleState
  artifact_saved artifact_loaded inference_backtest finalized failed : LifecycleState

abbrev pub state_index : LifecycleState → ℕ
state_index LifecycleState.discovered = 0
state_index LifecycleState.validated = 1
state_index LifecycleState.capabilities_negotiated = 2
state_index LifecycleState.initialized = 3
state_index LifecycleState.training = 4
state_index LifecycleState.artifact_saved = 5
state_index LifecycleState.artifact_loaded = 6
state_index LifecycleState.inference_backtest = 7
state_index LifecycleState.finalized = 8
state_index LifecycleState.failed = 9

pub LifecycleState-beq_iff :
    (a b : LifecycleState) → (nat_beq (state_index a) (state_index b) ≡ true) ↔ (a ≡ b)
LifecycleState-beq_iff a b = (λ h. ground arith, λ h. ground arith)

instance abbrev pub lifecycle_state_eq : Eq LifecycleState
lifecycle_state_eq = record {
  beq = λ a b. nat_beq (state_index a) (state_index b);
  beq_iff = LifecycleState-beq_iff;
}

-- `_ALLOWED`
abbrev pub allowed : LifecycleState → List LifecycleState
allowed LifecycleState.discovered = LifecycleState.validated ∷ LifecycleState.failed ∷ []
allowed LifecycleState.validated =
    LifecycleState.capabilities_negotiated ∷ LifecycleState.failed ∷ []
allowed LifecycleState.capabilities_negotiated =
    LifecycleState.initialized ∷ LifecycleState.failed ∷ []
allowed LifecycleState.initialized =
    LifecycleState.training ∷ LifecycleState.artifact_loaded ∷ LifecycleState.inference_backtest
    ∷ LifecycleState.failed ∷ []
allowed LifecycleState.training = LifecycleState.artifact_saved ∷ LifecycleState.failed ∷ []
allowed LifecycleState.artifact_saved = LifecycleState.artifact_loaded ∷ LifecycleState.failed ∷ []
allowed LifecycleState.artifact_loaded =
    LifecycleState.inference_backtest ∷ LifecycleState.failed ∷ []
allowed LifecycleState.inference_backtest = LifecycleState.finalized ∷ LifecycleState.failed ∷ []
allowed LifecycleState.finalized = []
allowed LifecycleState.failed = []

pub record Lifecycle : Type 0 where
  pub run_id : String
  pub strategy_id : String
  pub engine_id : String
  pub state : LifecycleState
  pub history : List LifecycleState

-- `Lifecycle(...)`
abbrev pub start : String → String → String → Lifecycle
start run_id strategy_id engine_id = record {
  run_id = run_id;
  strategy_id = strategy_id;
  engine_id = engine_id;
  state = LifecycleState.discovered;
  history = LifecycleState.discovered ∷ [];
}

abbrev pub illegal_transition : Lifecycle → ContractError
illegal_transition l = record {
  run_id = l.run_id;
  stage = ErrorStage.validation;
  code = ErrorCode.lifecycle_transition_invalid;
  strategy_id = some l.strategy_id;
  engine_id = some l.engine_id;
}

-- A refused transition raises and leaves the object alone.
unfoldable pub transition : LifecycleState → Lifecycle → Call Lifecycle
transition target l =
    if not (contains (allowed l.state) target)
    then raised (violation (illegal_transition l))
    else ok (record l { state = target; history = l.history ++ target ∷ [] })

-- `fail` moves a run that has not ended to FAILED.
unfoldable pub fail : Lifecycle → Call Lifecycle
unfolding transition
fail l =
    if not (l.state == LifecycleState.finalized || l.state == LifecycleState.failed)
    then transition LifecycleState.failed l
    else ok l
