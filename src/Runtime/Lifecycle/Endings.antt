-- ===== src/Runtime/Lifecycle/Endings.antt =====
-- How a lifecycle can end.
use strategy_adapter.Prelude.{
  String, ◌≡◌, ◌∙◌, ap, ◌≢◌, ◌⊎◌, inl, inr, refl, List, [], ◌∷◌, ◌++◌, arith, ok, raised,
}
use strategy_adapter.Contract.Errors.{violation}
use strategy_adapter.Runtime.Lifecycle.{
  LifecycleState, discovered, validated, capabilities_negotiated, initialized, training,
  artifact_saved, artifact_loaded, inference_backtest, finalized, failed, lifecycle_state_eq,
  Lifecycle, start, transition, fail, illegal_transition,
}
use strategy_adapter.Runtime.Lifecycle.Paths.{IsChain, last, Reach, history-IsRecorded}

-- The rest of a history that ends in FINALIZED, by the state that it goes on from.
module _ where
  after_finalized : (ts : List LifecycleState) → IsChain finalized ts → ts ≡ []
  after_finalized [] c = refl
  after_finalized (t ∷ ts) c = cc

  not_after_failed : (ts : List LifecycleState) → IsChain failed ts → last failed ts ≢ finalized
  not_after_failed [] c = λ h. cc
  not_after_failed (t ∷ ts) c = cc

  after_backtest :
      (ts : List LifecycleState)
      → IsChain inference_backtest ts
      → last inference_backtest ts ≡ finalized
      → ts ≡ finalized ∷ []
  after_backtest [] c h = cc
  after_backtest (t ∷ ts) c h = ground (arith, after_finalized ts, not_after_failed ts)

  after_loaded :
      (ts : List LifecycleState)
      → IsChain artifact_loaded ts
      → last artifact_loaded ts ≡ finalized
      → ts ≡ inference_backtest ∷ finalized ∷ []
  after_loaded [] c h = cc
  after_loaded (t ∷ ts) c h = ground (arith, after_backtest ts, not_after_failed ts)

  after_saved :
      (ts : List LifecycleState)
      → IsChain artifact_saved ts
      → last artifact_saved ts ≡ finalized
      → ts ≡ artifact_loaded ∷ inference_backtest ∷ finalized ∷ []
  after_saved [] c h = cc
  after_saved (t ∷ ts) c h = ground (arith, after_loaded ts, not_after_failed ts)

  after_training :
      (ts : List LifecycleState)
      → IsChain training ts
      → last training ts ≡ finalized
      → ts ≡ artifact_saved ∷ artifact_loaded ∷ inference_backtest ∷ finalized ∷ []
  after_training [] c h = cc
  after_training (t ∷ ts) c h = ground (arith, after_saved ts, not_after_failed ts)

-- The three ways to finish from INITIALIZED: at once, with a stored artifact, or with training.
abbrev pub rule_path : List LifecycleState
rule_path = inference_backtest ∷ finalized ∷ []

abbrev pub stored_path : List LifecycleState
stored_path = artifact_loaded ∷ rule_path

abbrev pub trained_path : List LifecycleState
trained_path = training ∷ artifact_saved ∷ stored_path

abbrev pub IsFinishing : List LifecycleState → Type 0
IsFinishing ts = (ts ≡ rule_path) ⊎ (ts ≡ stored_path) ⊎ (ts ≡ trained_path)

after_initialized :
    (ts : List LifecycleState)
    → IsChain initialized ts
    → last initialized ts ≡ finalized
    → IsFinishing ts
after_initialized [] c h = cc
after_initialized (t ∷ ts) c h =
    ground (arith, after_backtest ts, after_loaded ts, after_training ts, not_after_failed ts)

after_negotiated :
    (ts : List LifecycleState)
    → IsChain capabilities_negotiated ts
    → last capabilities_negotiated ts ≡ finalized
    → (path : List LifecycleState) × (ts ≡ initialized ∷ path) × IsFinishing path
after_negotiated [] c h = cc
after_negotiated (initialized ∷ ts) c h = (ts, refl, after_initialized ts c.1 h)
after_negotiated (failed ∷ ts) c h = absurd (not_after_failed ts c.1 h)
after_negotiated (_ ∷ ts) c h = cc

after_validated :
    (ts : List LifecycleState)
    → IsChain validated ts
    → last validated ts ≡ finalized
    → (path : List LifecycleState) × (ts ≡ capabilities_negotiated ∷ initialized ∷ path)
      × IsFinishing path
after_validated [] c h = cc
after_validated (capabilities_negotiated ∷ ts) c h =
    let (path, e, f) = after_negotiated ts c.1 h in
    (path, ap (λ r. capabilities_negotiated ∷ r) e, f)
after_validated (failed ∷ ts) c h = absurd (not_after_failed ts c.1 h)
after_validated (_ ∷ ts) c h = cc

after_discovered :
    (ts : List LifecycleState)
    → IsChain discovered ts
    → last discovered ts ≡ finalized
    → (path : List LifecycleState) × (ts ≡ validated ∷ capabilities_negotiated ∷ initialized ∷ path)
      × IsFinishing path
after_discovered [] c h = cc
after_discovered (validated ∷ ts) c h =
    let (path, e, f) = after_validated ts c.1 h in (path, ap (λ r. validated ∷ r) e, f)
after_discovered (failed ∷ ts) c h = absurd (not_after_failed ts c.1 h)
after_discovered (_ ∷ ts) c h = cc

-- A lifecycle that reaches FINALIZED was validated, negotiated and initialized in this order, and
-- then ran the backtest at once, or after loading a stored artifact, or after training, saving and
-- loading one: no other history ends there.
pub finalized_histories :
    (r s e : String) {l : Lifecycle}
    → Reach (start r s e) l
    → l.state ≡ finalized
    → (path : List LifecycleState) × (l.history
        ≡ discovered ∷ validated ∷ capabilities_negotiated ∷ initialized ∷ path)
      × IsFinishing path
finalized_histories r s e reach done =
    let h = history-IsRecorded r s e reach in
    let (path, same, finishing) = after_discovered h.earlier h.chain (h.ends ∙ done) in
    (path, h.from_discovered ∙ ap (λ ts. discovered ∷ ts) same, finishing)

abbrev pub IsEnded : Lifecycle → Type 0
IsEnded l = (l.state ≡ finalized) ⊎ (l.state ≡ failed)

-- From an ended lifecycle every transition raises LIFECYCLE_TRANSITION_INVALID, and `fail` changes
-- nothing.
pub ended_is_final :
    (l : Lifecycle)
    → IsEnded l
    → ((t : LifecycleState) → transition t l ≡ raised (violation (illegal_transition l)))
      × (fail l ≡ ok l)
unfolding transition fail
ended_is_final l h = (λ t. ground arith, ground arith)

-- What `fail` makes of a lifecycle: an ended one stays as it was, any other one only changes its
-- state to FAILED, which is recorded.
abbrev pub Failed : Lifecycle → Lifecycle → Type 0
Failed l m =
    (IsEnded l × (m ≡ l))
    ⊎ ((¬ (IsEnded l)) × (m ≡ record l { state = failed; history = l.history ++ failed ∷ [] }))

fail_at :
    (s : LifecycleState) (l : Lifecycle)
    → l.state ≡ s
    → (m : Lifecycle) × (fail l ≡ ok m) × Failed l m
unfolding fail
fail_at finalized l e = (l, ground arith, inl (inl e, refl))
fail_at failed l e = (l, ground arith, inl (inr e, refl))
fail_at _ l e = (
  record l { state = failed; history = l.history ++ failed ∷ [] },
  ground arith,
  inr (λ ended. ground arith, refl),
)

-- `fail` never raises: an ended lifecycle stays as it is, and any other one only goes to FAILED,
-- which is added to its history.
pub fail_total : (l : Lifecycle) → (m : Lifecycle) × (fail l ≡ ok m) × Failed l m
fail_total l = fail_at l.state l refl
