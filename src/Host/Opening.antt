-- ===== src/Host/Opening.antt =====
-- `Host::open` of devpipe/src/host.rs, and the state file that it reads and `save` writes. The
-- bytes of the file are `json`'s; the id that is drawn, the outcome of `resolve_token` and of the write,
-- and what the options say are arguments.
pub mod Restart
mod Tests
use devpipe.Host
use devpipe.Host.{Backend, Host, Table, insert, sort_by_name}
use devpipe.Proto.Messages.{Json}
use devpipe.Backend.{EnvSpec}
use devpipe.Prelude.{
  ◌∷◌, [], List, some, none, Option, false, true, Bool, ℕ, get_or, or_else, if◌then◌else◌,
}
use devpipe.Prelude.Text.{is_empty, codes, Text}

pub record State : Type 0 where
  pub id : Text
  pub image : Option Text
  pub memory : Option Text
  pub environments : List EnvSpec

-- `State::default`
abbrev pub no_state : State
no_state = record { id = []; image = none; memory = none; environments = [] }

abbrev pub default_image : Text
default_image = codes "ghcr.io/wess/devpipe-base:trixie"

-- The bytes of the state file, or `none` where it cannot be read.
abbrev pub loaded_state : Json State → Option (List ℕ) → State
loaded_state json none = no_state
loaded_state json (some bytes) = get_or no_state (json.from_slice bytes)

abbrev pub id_or : Text → Text → Text
id_or drawn id = if is_empty id then drawn else id

-- The loop that adopts what the last run was holding.
abbrev pub adopt : Table → List EnvSpec → Table
adopt table [] = table
adopt table (spec ∷ specs) = adopt (insert spec table) specs

-- What `serve` is told on its command line, where it is told it.
pub record Options : Type 0 where
  pub token : Option Text
  pub image : Option Text
  pub memory : Option Text

abbrev pub no_options : Options
no_options = record { token = none; image = none; memory = none }

abbrev pub token_of : Options → Option Text → Option Text
token_of o resolved = or_else o.token resolved

module _ (b : Backend) (json : Json State) where
  pub record Opened : Type 0 where
    pub id : Text
    pub token : Text
    pub host : Host b

  -- What `save` writes.
  abbrev pub state_of : Opened → State
  state_of o = record {
    id = o.id;
    image = some o.host.image;
    memory = o.host.memory;
    environments = sort_by_name o.host.environments;
  }

  abbrev pub opened : Text → State → Options → b.World → Text → Opened
  opened drawn state o world token = record {
    id = id_or drawn state.id;
    token = token;
    host = record {
      image = get_or default_image (or_else o.image state.image);
      memory = or_else o.memory state.memory;
      environments = adopt [] state.environments;
      saved = state.environments;
      world = world;
      announced = [];
      closed = [];
    };
  }

  -- `save`: the whole file is another, or none of it is.
  abbrev pub save_state : Bool → Option (List ℕ) → Opened → Option (List ℕ) × Option Opened
  save_state true file o =
      (some (json.to_vec (state_of o)), some (record o { host = (Host.save b true o.host).0 }))
  save_state false file o = (file, none)

  abbrev pub open_with :
      Bool
      → Text
      → Options
      → b.World
      → Option (List ℕ)
      → Option Text
      → Option (List ℕ) × Option Opened
  open_with writes drawn o world file none = (file, none)
  open_with writes drawn o world file (some token) =
      save_state writes file (opened drawn (loaded_state json file) o world token)

  -- The state file afterwards, and the host, where nothing fails. `resolved` is what `resolve_token`
  -- gives.
  unfoldable pub open_host :
      Bool
      → Text
      → Options
      → Option Text
      → b.World
      → Option (List ℕ)
      → Option (List ℕ) × Option Opened
  open_host writes drawn o resolved world file =
      open_with writes drawn o world file (token_of o resolved)
