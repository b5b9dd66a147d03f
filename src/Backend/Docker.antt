-- ===== src/Backend/Docker.antt =====
-- devpipe/src/backend/docker.rs: the argv of each call, and how the answers are read.
pub mod Lifecycle
pub mod Ports
mod Tests
use devpipe.Prelude.Text.{Text, codes, text_eq}
use devpipe.Prelude.Text.Trim.{trim}
use devpipe.Backend.{Status, absent, stopped, running, EnvSpec, Entry}
use devpipe.Prelude.{◌++◌, ◌∷◌, [], List, some, none, Option, false, true, Bool, ℕ, if◌then◌else◌}
use devpipe.Prelude.Text.Decimal.{show_u16}

pub container : EnvSpec → Text
container spec = codes "devpipe-" ++ spec.id

-- `--env key=value` for each secret, one element each.
abbrev pub env_flags : List (Text × Text) → List Text
env_flags [] = []
env_flags ((k, v) ∷ secrets) = codes "--env" ∷ (k ++ b'=' ∷ v) ∷ env_flags secrets

unfoldable pub exec : Text → EnvSpec → List (Text × Text) → Bool → List Text
exec cli spec secrets tty =
    (cli ∷ codes "exec" ∷ codes "--interactive" ∷ [])
    ++ (if tty then codes "--tty" ∷ [] else [])
    ++ (codes "--workdir" ∷ codes "/workspace" ∷ [])
    ++ env_flags secrets
    ++ (container spec ∷ [])

abbrev pub host_env : List (Text × Text)
host_env = (codes "DOCKER_CLI_HINTS", codes "false") ∷ []

abbrev pub shell : List Text
shell = codes "/bin/sh" ∷ codes "-c" ∷ codes "exec ${DEVPIPE_SHELL:-/bin/sh}" ∷ []

abbrev or_shell : List Text → List Text
or_shell [] = shell
or_shell (a ∷ argv) = a ∷ argv

unfoldable pub enter : Text → EnvSpec → List Text → List (Text × Text) → Entry
enter cli spec argv secrets = record {
  argv = exec cli spec secrets true ++ or_shell argv;
  env = host_env;
  cwd = none;
}

unfoldable pub run_in : Text → EnvSpec → List Text → List (Text × Text) → Entry
run_in cli spec argv secrets = record {
  argv = exec cli spec secrets false ++ argv;
  env = host_env;
  cwd = none;
}

abbrev pub memory_flag : Option Text → List Text
memory_flag none = []
memory_flag (some memory) = codes "--memory" ∷ memory ∷ []

-- The host port is left empty, so that the kernel chooses it, and the address is loopback.
abbrev pub publish_flags : List ℕ → List Text
publish_flags [] = []
publish_flags (port ∷ ports) =
    codes "--publish" ∷ (codes "127.0.0.1::" ++ show_u16 port) ∷ publish_flags ports

unfoldable pub create_argv : Text → EnvSpec → List Text
create_argv cli spec =
    (cli
      ∷ codes "create"
      ∷ codes "--name"
      ∷ container spec
      ∷ codes "--label"
      ∷ codes "devpipe.environment=1"
      ∷ codes "--workdir"
      ∷ codes "/workspace"
      ∷ codes "--volume"
      ∷ (spec.workspace ++ codes ":/workspace")
      ∷ codes "--init"
      ∷ codes "--pids-limit"
      ∷ codes "4096"
      ∷ [])
    ++ memory_flag spec.memory
    ++ publish_flags spec.ports
    ++ (codes "--entrypoint" ∷ codes "tail" ∷ spec.image ∷ codes "-f" ∷ codes "/dev/null" ∷ [])

unfoldable pub inspect_argv : Text → EnvSpec → List Text
inspect_argv cli spec =
    cli ∷ codes "inspect" ∷ codes "--format" ∷ codes "{{.State.Running}}" ∷ container spec ∷ []

unfoldable pub verb_argv : Text → Text → EnvSpec → List Text
verb_argv cli verb spec = cli ∷ verb ∷ container spec ∷ []

unfoldable pub remove_argv : Text → EnvSpec → List Text
remove_argv cli spec = cli ∷ codes "rm" ∷ codes "--force" ∷ container spec ∷ []

-- The runtime: its state, and what a call does to it and prints (`none` for a failure).
pub record Runtime : Type 1 where
  pub World : Type 0
  pub output : List Text → World → World × Option Text

module _ (cli : Text) (rt : Runtime) where
  open rt use {World, output}

  -- A missing container is a status, not a failure.
  abbrev pub read_status : Option Text → Status
  read_status none = absent
  read_status (some said) = if text_eq (trim said) (codes "true") then running else stopped

  unfoldable pub status : EnvSpec → World → World × Status
  status spec w = let (w', said) = output (inspect_argv cli spec) w in (w', read_status said)

  abbrev pub succeeded : World × Option Text → World × Bool
  succeeded (w, none) = (w, false)
  succeeded (w, some said) = (w, true)

  abbrev pub when_absent :
      (World → World × Bool) → (World → World × Bool) → World × Status → World × Bool
  when_absent f g (w, absent) = f w
  when_absent f g (w, stopped) = g w
  when_absent f g (w, running) = g w

  -- `makes` says whether `create_dir_all` of the workspace succeeds.
  unfoldable pub create : Bool → EnvSpec → World → World × Bool
  create false spec w = (w, false)
  create true spec w =
      when_absent (λ w. succeeded (output (create_argv cli spec) w)) (λ w. (w, true))
        (status spec w)

  abbrev pub and_then : (World → World × Bool) → World × Bool → World × Bool
  and_then f (w, true) = f w
  and_then f (w, false) = (w, false)

  unfoldable pub start : Bool → EnvSpec → World → World × Bool
  start makes spec w =
      let go = λ (w : World). succeeded (output (verb_argv cli (codes "start") spec) w) in
      when_absent (λ w. and_then go (create makes spec w)) go (status spec w)

  unfoldable pub stop : EnvSpec → World → World × Bool
  stop spec w =
      when_absent (λ w. (w, true)) (λ w. succeeded (output (verb_argv cli (codes "stop") spec) w))
        (status spec w)

  unfoldable pub destroy : EnvSpec → World → World × Bool
  destroy spec w =
      when_absent (λ w. (w, true)) (λ w. succeeded (output (remove_argv cli spec) w))
        (status spec w)
