-- ===== src/Tests/Sandbox.antt =====
-- The theorems on the sandbox, at a small source and a host that kills what it runs.
use strategy_adapter.Prelude.{◌≡◌, ◌↔◌, refl, true, some, [], ◌∷◌, raised}
use strategy_adapter.Prelude.Int.{pos}
use strategy_adapter.Contract.Errors.{ErrorCode}
use strategy_adapter.Contract.Models.{ResourcePolicy}
use strategy_adapter.Sandbox.Static.{Nodes, node, done, call, import_names, Parsed, tree, scan}
use strategy_adapter.Sandbox.Static.Clean.{IsClean, scan-IsClean_iff}
use strategy_adapter.Sandbox.Container.{
  Host, ContainerMounts, SandboxExecutionResult, finished, execute, execute_outcome,
  require_available, sandbox_error,
}
use strategy_adapter.Sandbox.Container.Closed.{Failure, process, execute_failures}
use strategy_adapter.Contract.Models.Identifiers.{is_identifier}
use strategy_adapter.Tests.Data.{manifest}

-- `import math`, and in a class below it the call `open(...)`
abbrev source : Parsed
source = tree (node (import_names ("math" ∷ [])) 1 0 done (node (call (some "open")) 3 4 done done))

scan-IsClean_iff_example :
    (scan ("math" ∷ []) source ≡ [])
    ↔ ((nodes : Nodes) × (source ≡ tree nodes) × IsClean ("math" ∷ []) nodes)
scan-IsClean_iff_example = scan-IsClean_iff ("math" ∷ []) source

abbrev killing : Host
killing = record {
  docker_found = true;
  uid = 1000;
  gid = 1000;
  resolve = λ path. path;
  run_process = λ words timeout. finished (pos 137) "" "killed";
}

abbrev mounts : ContainerMounts
mounts = record { data_path = "/data"; artifacts = "/artifacts"; reports = "/reports" }

abbrev resources : ResourcePolicy
resources = manifest.resources

killed :
    execute killing "run" "crossing" resources mounts ("psrc" ∷ [])
    ≡ raised (sandbox_error "run" "crossing" ErrorCode.sandbox_resource_exhausted)
unfolding execute execute_outcome require_available is_identifier
killed = refl

execute_failures_example :
    Failure killing "run" "crossing"
      (process killing "run" "crossing" resources mounts ("psrc" ∷ []))
      (sandbox_error "run" "crossing" ErrorCode.sandbox_resource_exhausted)
execute_failures_example =
    execute_failures killing "run" "crossing" resources mounts ("psrc" ∷ [])
      (sandbox_error "run" "crossing" ErrorCode.sandbox_resource_exhausted) killed

abbrev written : SandboxExecutionResult
written = record { returncode = pos 0; stdout = "done"; stderr = ""; attested = true }
