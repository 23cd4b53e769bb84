-- ===== src/Sandbox/Container/Confined.antt =====
-- src/psrc/sandbox/container.py: what the invocation of docker promises of a container.
use Prim.Native.String.{◌++◌ as ◌+++◌}
use strategy_adapter.Prelude.{
  String, string_eq, true, List, [], ◌∷◌, ◌++◌, Option, none, some, map, subset, show, ◌≡◌, ◌≢◌,
  ◌⊎◌, inl, inr, refl, if◌then◌else◌, ◌==◌, Bool-cases, nat_beq, nat_beq_iff,
}
use strategy_adapter.Contract.Models.{ResourcePolicy}
use strategy_adapter.Sandbox.Container.{ContainerMounts, Host, command, container_user, image}

-- An option of `docker run` is a flag or a setting of a value.
abbrev DockerOption : Type 0
DockerOption = String × Option String

abbrev words_of : List DockerOption → List String
words_of [] = []
words_of ((key, none) ∷ options) = key ∷ words_of options
words_of ((key, some value) ∷ options) = key ∷ value ∷ words_of options

-- what the options give a key, one entry for each time that it stands there
abbrev given : String → List DockerOption → List (Option String)
given key [] = []
given key ((k, value) ∷ options) = if key == k then value ∷ given key options else given key options

abbrev harmless_keys : List String
harmless_keys =
    "--rm" ∷ "--network" ∷ "--read-only" ∷ "--cap-drop" ∷ "--security-opt" ∷ "--pids-limit"
    ∷ "--memory" ∷ "--cpus" ∷ "--user" ∷ "--tmpfs" ∷ "--mount" ∷ "--env" ∷ []

-- the user of the process, or a fixed one in place of root
abbrev IsUnprivileged : Host → String → Type 0
IsUnprivileged host user =
    ((host.uid ≡ 0) × (user ≡ "65532:65532"))
    ⊎ ((host.uid ≢ 0) × (user ≡ (show host.uid +++ (":" +++ show host.gid))))

abbrev bind : Host → String → String → Option String
bind host path target = some ("type=bind,src=" +++ (host.resolve path +++ (",dst=" +++ target)))

-- An invocation of docker that confines what it runs.
pub record IsConfined (host : Host) (policy : ResourcePolicy) (mounts : ContainerMounts)
    (words invocation : List String) : Type 0 where
  pub options : List DockerOption
  pub is_run : invocation ≡ "docker" ∷ "run" ∷ (words_of options ++ image ∷ words)
  pub nothing_else : subset (map (λ (o : DockerOption). o.0) options) harmless_keys ≡ true
  pub no_network : given "--network" options ≡ some "none" ∷ []
  pub read_only : given "--read-only" options ≡ none ∷ []
  pub no_capabilities : given "--cap-drop" options ≡ some "ALL" ∷ []
  pub no_new_privileges : given "--security-opt" options ≡ some "no-new-privileges:true" ∷ []
  pub processes : given "--pids-limit" options ≡ some (show policy.process_limit) ∷ []
  pub memory : given "--memory" options ≡ some (show policy.memory_mb +++ "m") ∷ []
  pub user : String
  pub one_user : given "--user" options ≡ some user ∷ []
  pub unprivileged : IsUnprivileged host user
  pub tmp : given "--tmpfs" options ≡ some "/tmp:rw,noexec,nosuid,nodev,size=64m" ∷ []
  pub three_mounts :
      given "--mount" options
      ≡ bind host mounts.data_path "/psrc/data,readonly"
        ∷ bind host mounts.artifacts "/psrc/artifacts"
        ∷ bind host mounts.reports "/psrc/reports"
        ∷ []

module _ (host : Host) where
  container_user-IsUnprivileged : IsUnprivileged host (container_user host)
  unfolding container_user
  container_user-IsUnprivileged = elim (Bool-cases (nat_beq host.uid 0)) [
    | inl root ↦ inl ((nat_beq_iff host.uid 0).0 root, rw root refl)
    | inr other ↦ inr (λ root. let h = rw root at other in cc, rw other refl)
  ]

  pub command-IsConfined :
      (policy : ResourcePolicy) (mounts : ContainerMounts) (words : List String)
      → IsConfined host policy mounts words (command host policy mounts words)
  unfolding command
  command-IsConfined policy mounts words = record {
    options =
        ("--rm", none)
        ∷ ("--network", some "none")
        ∷ ("--read-only", none)
        ∷ ("--cap-drop", some "ALL")
        ∷ ("--security-opt", some "no-new-privileges:true")
        ∷ ("--pids-limit", some (show policy.process_limit))
        ∷ ("--memory", some (show policy.memory_mb +++ "m"))
        ∷ ("--cpus", some "1.0")
        ∷ ("--user", some (container_user host))
        ∷ ("--tmpfs", some "/tmp:rw,noexec,nosuid,nodev,size=64m")
        ∷ ("--mount", bind host mounts.data_path "/psrc/data,readonly")
        ∷ ("--mount", bind host mounts.artifacts "/psrc/artifacts")
        ∷ ("--mount", bind host mounts.reports "/psrc/reports")
        ∷ ("--env", some "PSRC_STRICT_SANDBOX=1")
        ∷ ("--env", some "PSRC_SANDBOX_ATTESTATION=strict-container-v1")
        ∷ [];
    is_run = refl;
    nothing_else = refl;
    no_network = refl;
    read_only = refl;
    no_capabilities = refl;
    no_new_privileges = refl;
    processes = refl;
    memory = refl;
    user = container_user host;
    one_user = refl;
    unprivileged = container_user-IsUnprivileged;
    tmp = refl;
    three_mounts = refl;
  }
