-- ===== src/Sandbox/Container/Closed.antt =====
-- src/psrc/sandbox/container.py: what `execute` returns, and how it fails.
use strategy_adapter.Prelude.{
  String, Bool, true, false, not, List, raised, ◌>>◌, raise_if, ◌≡◌, ◌⊎◌, refl, ap, inl, inr,
  Bool-cases, raised-injective, subst, not-eq-false, not-eq-true, nat_beq_iff,
}
use strategy_adapter.Prelude.Int.{ℤ, pos, negsuc}
use strategy_adapter.Contract.Errors.{Call, ErrorCode, Raised, PythonError, python}
use strategy_adapter.Contract.Models.{ResourcePolicy}
use strategy_adapter.Sandbox.Container.{
  ContainerMounts, ProcessOutcome, finished, timed_out, not_run, Host, sandbox_error, is_exhausted,
  is_zero_code, require_available, command, execute_outcome, execute,
}

-- Why an execution fails with `e`.
pub data Failure (host : Host) (run_id strategy_id : String) (outcome : ProcessOutcome)
    : Raised → Type 0 where
  unavailable :
      host.docker_found ≡ false
      → Failure host run_id strategy_id outcome
          (sandbox_error run_id strategy_id ErrorCode.sandbox_unavailable)
  slow :
      host.docker_found ≡ true
      → outcome ≡ timed_out
      → Failure host run_id strategy_id outcome
          (sandbox_error run_id strategy_id ErrorCode.sandbox_timeout)
  broken :
      (e : PythonError)
      → host.docker_found ≡ true
      → outcome ≡ not_run e
      → Failure host run_id strategy_id outcome (python e)
  exhausted :
      (returncode : ℤ) (stdout stderr : String)
      → host.docker_found ≡ true
      → outcome ≡ finished returncode stdout stderr
      → (returncode ≡ pos 137) ⊎ (returncode ≡ negsuc 8)
      → Failure host run_id strategy_id outcome
          (sandbox_error run_id strategy_id ErrorCode.sandbox_resource_exhausted)
  failed :
      (returncode : ℤ) (stdout stderr : String)
      → host.docker_found ≡ true
      → outcome ≡ finished returncode stdout stderr
      → is_zero_code returncode ≡ false
      → is_exhausted returncode ≡ false
      → Failure host run_id strategy_id outcome
          (sandbox_error run_id strategy_id ErrorCode.sandbox_execution_failed)

raise_if-cases :
    {A : Type 0} (c : Bool) (e : Raised) (rest : Call A) {x : Raised}
    → (raise_if c e >> rest) ≡ raised x
    → ((c ≡ true) × (e ≡ x)) ⊎ ((c ≡ false) × (rest ≡ raised x))
raise_if-cases true e rest h = inl (refl, raised-injective h)
raise_if-cases false e rest h = inr (refl, h)

exhausted_codes :
    (returncode : ℤ)
    → is_exhausted returncode ≡ true
    → (returncode ≡ pos 137) ⊎ (returncode ≡ negsuc 8)
exhausted_codes (pos n) h = inl (ap pos ((nat_beq_iff n 137).0 h))
exhausted_codes (negsuc n) h = inr (ap negsuc ((nat_beq_iff n 8).0 h))

module _ (host : Host) (run_id strategy_id : String) where
  outcome_fails :
      (outcome : ProcessOutcome) (e : Raised)
      → host.docker_found ≡ true
      → execute_outcome host run_id strategy_id outcome ≡ raised e
      → Failure host run_id strategy_id outcome e
  unfolding execute_outcome
  outcome_fails timed_out e found h =
      subst (Failure host run_id strategy_id timed_out) (raised-injective h) (slow found refl)
  outcome_fails (not_run p) e found h =
      subst (Failure host run_id strategy_id (not_run p)) (raised-injective h) (broken p found refl)
  outcome_fails (finished code out err) e found h = elim (Bool-cases (is_zero_code code)) [
    | inl success ↦ (let f = rw (success, execute_outcome) at h in cc)
    | inr failure ↦ elim (Bool-cases (is_exhausted code)) [
      | inl killed ↦
          subst (Failure host run_id strategy_id (finished code out err))
            (raised-injective (rw (failure, killed, execute_outcome) at h))
            (exhausted code out err found refl (exhausted_codes code killed))
      | inr alive ↦
          subst (Failure host run_id strategy_id (finished code out err))
            (raised-injective (rw (failure, alive, execute_outcome) at h))
            (failed code out err found refl failure alive)
    ]
  ]

  module _ (policy : ResourcePolicy) (mounts : ContainerMounts) (words : List String) where
    abbrev pub process : ProcessOutcome
    process = host.run_process (command host policy mounts words) policy.timeout_seconds

    -- Whatever an execution raises is one of these: docker is not there, the process ran into the
    -- timeout of the policy, it was killed for its resources (137 or -9), or it ended with another
    -- code than 0, each with its own error code (or, under an ill-formed identifier, the validation
    -- error of its making); or the process could not be run at all, and then the error of Python
    -- itself comes through, which is no `ContractError`.
    pub execute_failures :
        (e : Raised)
        → execute host run_id strategy_id policy mounts words ≡ raised e
        → Failure host run_id strategy_id process e
    unfolding execute require_available
    execute_failures e h = elim (raise_if-cases (not host.docker_found) _ _ h) [
      | inl (missing, same) ↦
          subst (Failure host run_id strategy_id process) same
            (unavailable (not-eq-true host.docker_found missing))
      | inr (found, ended) ↦ outcome_fails process e (not-eq-false host.docker_found found) ended
    ]
