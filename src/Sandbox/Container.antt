-- ===== src/Sandbox/Container.antt =====
-- src/psrc/sandbox/container.py: the container that a strategy runs in. What the operating system
-- answers is a parameter: whether docker is there, the user, a path's absolute form, and what becomes
-- of a process.
pub mod Confined
pub mod Closed
use Prim.Native.String.{String, ◌++◌ as ◌+++◌}
use strategy_adapter.Prelude.{
  ℕ, zero, suc, Bool, true, false, not, ◌&&◌, ◌||◌, List, [], ◌∷◌, ◌++◌, Option, none, some,
  contains, subset, nat_beq, ok, raised, ◌>>=◌, ◌>>◌, raise_if, ◌==◌, string_eq, option_eq, show,
  if◌then◌else◌,
}
use strategy_adapter.Prelude.Int.{ℤ, pos, negsuc}
use strategy_adapter.Prelude.Dict.{Dict, lookup}
use strategy_adapter.Contract.Errors.{
  Call, ErrorCode, ErrorStage, Raised, PythonError, python, violation, value_error,
}
use strategy_adapter.Contract.Models.{ResourcePolicy}
use strategy_adapter.Contract.Models.Identifiers.{is_identifier}

pub record ContainerMounts : Type 0 where
  pub data_path : String
  pub artifacts : String
  pub reports : String

pub record SandboxExecutionResult : Type 0 where
  pub returncode : ℤ
  pub stdout : String
  pub stderr : String
  pub attested : Bool

-- What becomes of a process: it ends, it is killed at the timeout, or it cannot be run.
pub data ProcessOutcome : Type 0 where
  finished : ℤ → String → String → ProcessOutcome
  timed_out : ProcessOutcome
  not_run : PythonError → ProcessOutcome

-- the operating system; `run_process` takes the words of the invocation and the timeout in seconds
pub record Host : Type 0 where
  pub docker_found : Bool
  pub uid : ℕ
  pub gid : ℕ
  pub resolve : String → String
  pub run_process : List String → ℕ → ProcessOutcome

-- what `_fail` raises: of an ill-formed identifier no `ContractError` can be made
abbrev pub sandbox_error : String → String → ErrorCode → Raised
sandbox_error run_id strategy_id code =
    if is_identifier run_id && is_identifier strategy_id
    then violation (record {
      run_id = run_id;
      stage = ErrorStage.sandbox;
      code = code;
      strategy_id = some strategy_id;
      engine_id = none;
    })
    else python value_error

-- `returncode in {137, -9}`
abbrev pub is_exhausted : ℤ → Bool
is_exhausted (pos n) = nat_beq n 137
is_exhausted (negsuc n) = nat_beq n 8

abbrev pub is_zero_code : ℤ → Bool
is_zero_code (pos n) = nat_beq n 0
is_zero_code (negsuc n) = false

-- the code that a process fails with
abbrev pub failure_code : ℤ → ErrorCode
failure_code returncode =
    if is_exhausted returncode
    then ErrorCode.sandbox_resource_exhausted
    else ErrorCode.sandbox_execution_failed

abbrev pub image : String
image = "psrc-verifier:local"

module _ (host : Host) where
  unfoldable pub require_available : String → String → Call (Unit {0})
  require_available run_id strategy_id =
      raise_if (not host.docker_found)
        (sandbox_error run_id strategy_id ErrorCode.sandbox_unavailable)

  -- the user of the container, never the root user
  unfoldable pub container_user : String
  container_user =
      if nat_beq host.uid 0 then "65532:65532" else show host.uid +++ (":" +++ show host.gid)

  abbrev mount : String → String → String
  mount path target = "type=bind,src=" +++ (host.resolve path +++ (",dst=" +++ target))

  unfoldable pub command : ResourcePolicy → ContainerMounts → List String → List String
  command policy mounts words =
      "docker"
      ∷ "run"
      ∷ "--rm"
      ∷ "--network"
      ∷ "none"
      ∷ "--read-only"
      ∷ "--cap-drop"
      ∷ "ALL"
      ∷ "--security-opt"
      ∷ "no-new-privileges:true"
      ∷ "--pids-limit"
      ∷ show policy.process_limit
      ∷ "--memory"
      ∷ (show policy.memory_mb +++ "m")
      ∷ "--cpus"
      ∷ "1.0"
      ∷ "--user"
      ∷ container_user
      ∷ "--tmpfs"
      ∷ "/tmp:rw,noexec,nosuid,nodev,size=64m"
      ∷ "--mount"
      ∷ mount mounts.data_path "/psrc/data,readonly"
      ∷ "--mount"
      ∷ mount mounts.artifacts "/psrc/artifacts"
      ∷ "--mount"
      ∷ mount mounts.reports "/psrc/reports"
      ∷ "--env"
      ∷ "PSRC_STRICT_SANDBOX=1"
      ∷ "--env"
      ∷ "PSRC_SANDBOX_ATTESTATION=strict-container-v1"
      ∷ image
      ∷ words

  unfoldable pub execute_outcome : String → String → ProcessOutcome → Call SandboxExecutionResult
  execute_outcome run_id strategy_id timed_out =
      raised (sandbox_error run_id strategy_id ErrorCode.sandbox_timeout)
  execute_outcome run_id strategy_id (not_run e) = raised (python e)
  execute_outcome run_id strategy_id (finished returncode stdout stderr) =
      raise_if (not (is_zero_code returncode))
        (sandbox_error run_id strategy_id (failure_code returncode))
      >> ok (record { returncode = returncode; stdout = stdout; stderr = stderr; attested = true })

  unfoldable pub execute :
      String → String → ResourcePolicy → ContainerMounts → List String → Call SandboxExecutionResult
  execute run_id strategy_id policy mounts words =
      require_available run_id strategy_id
      >> execute_outcome run_id strategy_id
          (host.run_process (command policy mounts words) policy.timeout_seconds)

-- what a process can read of its own surroundings: nothing, if a file is missing or malformed
pub record Surroundings : Type 0 where
  pub interfaces : List String
  pub effective_capabilities : ℕ
  pub no_new_privs : Option String
  pub root_options : List String
  pub tmp_options : List String

-- the last test of `_runtime_controls_present`
unfoldable pub runtime_controls_present : Option Surroundings → Bool
runtime_controls_present none = false
runtime_controls_present (some s) =
    subset s.interfaces ("lo" ∷ [])
    && nat_beq s.effective_capabilities 0
    && s.no_new_privs == some "1"
    && contains s.root_options "ro"
    && subset ("noexec" ∷ "nosuid" ∷ "nodev" ∷ []) s.tmp_options

unfoldable pub current_process_attested : Dict String → ℕ → Bool → Bool → Option Surroundings → Bool
current_process_attested environ euid dockerenv containerenv surroundings =
    lookup "PSRC_STRICT_SANDBOX" environ == some "1"
    && lookup "PSRC_SANDBOX_ATTESTATION" environ == some "strict-container-v1"
    && not (nat_beq euid 0)
    && (dockerenv || containerenv)
    && runtime_controls_present surroundings
