-- ===== src/Backend.antt =====
-- devpipe/src/backend: what an environment runs on: its specification, and the local backend's
-- decisions. The container runtime's are in Docker.
pub mod Docker
use devpipe.Prelude.Text.{Text, codes}
use devpipe.Prelude.{List, some, Option, Bool, ℕ, if◌then◌else◌}

pub data Status : Type 0 where
  absent stopped running : Status

unfoldable pub as_str : Status → Text
as_str absent = codes "absent"
as_str stopped = codes "stopped"
as_str running = codes "running"

pub record EnvSpec : Type 0 where
  pub id : Text
  pub name : Text
  pub backend : Text
  pub image : Text
  pub workspace : Text
  pub ports : List ℕ
  pub memory : Option Text

pub record Entry : Type 0 where
  pub argv : List Text
  pub env : List (Text × Text)
  pub cwd : Option Text

-- backend/local.rs: no boundary to cross.
unfoldable pub enter_local : EnvSpec → List Text → List (Text × Text) → Entry
enter_local spec argv secrets = record { argv = argv; env = secrets; cwd = some spec.workspace }

unfoldable pub status_local : Bool → Status
status_local workspace_exists = if workspace_exists then running else absent
