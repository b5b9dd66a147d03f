-- ===== src/Host.antt =====
-- devpipe/src/host.rs: the machine and its table of environments. The backend, the ids that the
-- kernel's randomness gives, and the outcome of each write of the state file are arguments. The
-- `HashMap` is an association list without repeated ids.
pub mod Table
pub mod Invariant
pub mod Race
pub mod Token
pub mod Opening
mod Tests
use devpipe.Prelude.Result.{Result, ok, err, ◌>>=◌, ◌>>◌, bail_if, or_err}
use devpipe.Prelude.Text.{text_leb, Text, codes, text_eq, is_empty}
use devpipe.Prelude.Text.Utf8.{len}
use devpipe.Prelude.Text.Decimal.{is_digit}
use devpipe.Backend.{EnvSpec}
use devpipe.Prelude.{
  map, ◌++◌, ◌∷◌, [], List, some, none, Option, ◌||◌, ◌&&◌, not, false, true, Bool, ℕ, find, all,
  retain, if◌then◌else◌, within, ◌==◌, ltb, get_or, is_some, or_else,
}

pub data Error : Type 0 where
  bad_length bad_character hyphen_end : Error
  already_here : Text → Error
  local_holds_one : Error
  backend_failed : Error
  not_saved : Error
  no_environment : Text → Error
  none_yet : Error
  say_which : (names : List Text) → Error

abbrev pub label_char : ℕ → Bool
label_char c = within b'a' b'z' c || is_digit c || c == b'-'

abbrev pub starts_hyphen : Text → Bool
starts_hyphen [] = false
starts_hyphen (c ∷ s) = c == b'-'

abbrev pub ends_hyphen : Text → Bool
ends_hyphen [] = false
ends_hyphen (c ∷ []) = c == b'-'
ends_hyphen (c ∷ d ∷ s) = ends_hyphen (d ∷ s)

unfoldable pub valid_name : Text → Result Error (Unit {0})
valid_name name = do
  bail_if (is_empty name || ltb 63 (len name)) bad_length
  bail_if (not (all label_char name)) bad_character
  bail_if (starts_hyphen name || ends_hyphen name) hyphen_end

-- What is announced to whoever watches.
pub data News : Type 0 where
  environment : Text → News
  environment_gone : Text → News

-- The calls of the backend that change what it holds; `false` is a failure.
pub record Backend : Type 1 where
  pub World : Type 0
  pub kind : Text
  pub create : EnvSpec → World → World × Bool
  pub start : EnvSpec → World → World × Bool
  pub stop : EnvSpec → World → World × Bool
  pub destroy : EnvSpec → World → World × Bool

abbrev pub Table : Type 0
Table = List EnvSpec

abbrev pub has_id : Text → EnvSpec → Bool
has_id id e = text_eq e.id id

abbrev pub has_name : Text → EnvSpec → Bool
has_name name e = text_eq e.name name

-- `environments.insert(id, …)`, `remove(id)`
abbrev pub remove_id : Text → Table → Table
remove_id id = retain (λ e. not (has_id id e))

abbrev pub insert : EnvSpec → Table → Table
insert e table = remove_id e.id table ++ e ∷ []

abbrev pub no_environments : Table → Bool
no_environments [] = true
no_environments (_ ∷ _) = false

-- `Host::find`: by id, then by name.
abbrev pub find_environment : Text → Table → Option EnvSpec
find_environment which table = or_else (find (has_id which) table) (find (has_name which) table)

abbrev pub insert_by_name : EnvSpec → Table → Table
insert_by_name e [] = e ∷ []
insert_by_name e (x ∷ xs) = if text_leb e.name x.name then e ∷ x ∷ xs else x ∷ insert_by_name e xs

-- `Host::all`: sorted by name.
abbrev pub sort_by_name : Table → Table
sort_by_name [] = []
sort_by_name (e ∷ es) = insert_by_name e (sort_by_name es)

abbrev pub env_names : Table → List Text
env_names = map (λ e. e.name)

unfoldable pub only_environment : Table → Result Error EnvSpec
only_environment [] = err none_yet
only_environment (e ∷ []) = ok e
only_environment (d ∷ e ∷ es) = err (say_which (env_names (sort_by_name (d ∷ e ∷ es))))

-- `Host::get`
unfoldable pub get : Option Text → Table → Result Error EnvSpec
unfolding only_environment
get (some which) table = or_err (find_environment which table) (no_environment which)
get none table = only_environment table

module _ (b : Backend) where
  open b use {World, kind}

  pub record Host : Type 0 where
    pub image : Text
    pub memory : Option Text
    pub environments : Table
    pub saved : Table
    pub world : World
    pub announced : List News
    -- Whose sessions were told to end (`Environment::close`), in order.
    pub closed : List Text

  abbrev is_local : Bool
  is_local = text_eq kind (codes "local")

  -- The checks of `create`, made before anything is awaited.
  unfoldable pub check_create : Host → Text → Result Error (Unit {0})
  check_create h name = do
    valid_name name
    bail_if (is_some (find_environment name h.environments)) (already_here name)
    bail_if (is_local && not (no_environments h.environments)) local_holds_one

  pub record Request : Type 0 where
    pub name : Text
    pub image : Option Text
    pub ports : List ℕ
    pub workspace : Option Text
    pub memory : Option Text

  abbrev pub default_image : Host → Text
  default_image h = if is_local then codes "host" else h.image

  abbrev pub spec_of : Host → Text → Text → Request → EnvSpec
  spec_of h id workspaces r = record {
    id = id;
    name = r.name;
    backend = kind;
    image = get_or (default_image h) r.image;
    workspace = get_or (workspaces ++ b'/' ∷ id) r.workspace;
    ports = r.ports;
    memory = or_else r.memory h.memory;
  }

  -- `Host::save`: the sorted specs, written whole and renamed, or the file as it was.
  abbrev pub save : Bool → Host → Host × Bool
  save true h = (record h { saved = sort_by_name h.environments }, true)
  save false h = (h, false)

  abbrev pub announce : News → Host → Host
  announce n h = record h { announced = h.announced ++ n ∷ [] }

  abbrev pub close : EnvSpec → Host → Host
  close spec h = record h { closed = h.closed ++ spec.id ∷ [] }

  abbrev pub at_world : Host → World × Bool → Host × Bool
  at_world h (w, done) = (record h { world = w }, done)

  abbrev pub and_then {ℓ} :
      {A : Type ℓ} → Error → Host × Bool → (Host → Host × Result Error A) → Host × Result Error A
  and_then e (h, true) f = f h
  and_then e (h, false) f = (h, err e)

  -- The rest of `create`, in which every step awaits something.
  unfoldable pub finish_create : Bool → Host → EnvSpec → Host × Result Error EnvSpec
  finish_create saves h spec = and_then backend_failed (at_world h (b.create spec h.world)) λ h₁.
      and_then backend_failed (at_world h₁ (b.start spec h₁.world)) λ h₂.
        and_then not_saved (save saves (record h₂ { environments = insert spec h₂.environments }))
          λ h₃. (announce (environment spec.id) h₃, ok spec)

  abbrev pub checked {ℓ} :
      {A : Type ℓ} → Host → Result Error (Unit {0}) → Host × Result Error A → Host × Result Error A
  checked h (err e) made = (h, err e)
  checked h (ok _) made = made

  unfoldable pub create : Bool → Text → Text → Host → Request → Host × Result Error EnvSpec
  create saves id workspaces h r =
      checked h (check_create h r.name) (finish_create saves h (spec_of h id workspaces r))

  abbrev pub found {ℓ} :
      {A : Type ℓ}
      → Host
      → Result Error EnvSpec
      → (EnvSpec → Host × Result Error A)
      → Host × Result Error A
  found h (err e) f = (h, err e)
  found h (ok spec) f = f spec

  unfoldable pub start : Host → Text → Host × Result Error EnvSpec
  start h which = found h (get (some which) h.environments) λ spec.
      and_then backend_failed (at_world h (b.start spec h.world))
        λ h₁. (announce (environment spec.id) h₁, ok spec)

  -- Sessions first, then the backend.
  unfoldable pub stop : Host → Text → Host × Result Error EnvSpec
  stop h which = found h (get (some which) h.environments) λ spec.
      and_then backend_failed (at_world (close spec h) (b.stop spec h.world))
        λ h₁. (announce (environment spec.id) h₁, ok spec)

  unfoldable pub destroy : Bool → Host → Text → Host × Result Error Text
  destroy saves h which = found h (get (some which) h.environments) λ spec.
      and_then backend_failed (at_world (close spec h) (b.destroy spec h.world)) λ h₁.
        and_then not_saved
          (save saves (record h₁ { environments = remove_id spec.id h₁.environments }))
          λ h₂. (announce (environment_gone spec.id) h₂, ok spec.id)
