-- ===== src/Machines.antt =====
-- devpipe/src/machines.rs: the machines a laptop knows, and the paths that name a place in the tree.
-- The file's outcome at a save is an argument; its TOML is a library's. A machine's connection
-- (`reach`) is the network's: only the choice of a route is modelled.
pub mod Registry
pub mod Paths
mod Tests
use devpipe.Prelude.Result.{Result, ok, err, ◌>>=◌, ◌>>◌, bail_if, or_err}
use devpipe.Prelude.Text.{codes, Text, text_eq, split, is_empty, contains}
use devpipe.Prelude.{
  get_or, map, ◌++◌, ◌∷◌, [], List, some, none, Option, not, false, true, Bool, ℕ, find, retain,
  length, if◌then◌else◌, ◌==◌, is_some,
}

pub record Machine : Type 0 where
  pub name : Text
  pub ssh : Option Text
  pub url : Option Text
  pub token : Option Text
  pub relay : Option Text
  pub relay_token : Option Text
  pub port : ℕ

abbrev pub default_port : ℕ
default_port = 7455

pub data Error : Type 0 where
  no_name has_slash : Error
  already_called : Text → Error
  not_called : Text → Error
  not_written : Error
  too_deep : Error
  no_machines : Error
  say_which_path : (word : Text) (names : List Text) → Error
  say_which : (names : List Text) → Error
  url_without_token : Text → Error
  relayed_without_token : Text → Error
  relay_without_token : Text → Error
  no_way : Text → Error

abbrev pub Machines : Type 0
Machines = List Machine

abbrev pub named : Text → Machine → Bool
named name m = text_eq m.name name

abbrev pub find_machine : Text → Machines → Option Machine
find_machine name = find (named name)

unfoldable pub valid_name : Text → Result Error (Unit {0})
valid_name name = do bail_if (is_empty name) no_name; bail_if (contains b'/' name) has_slash

-- The list after the call, and what the call returns.
abbrev pub saved : Bool → Machines → Machines × Result Error (Unit {0})
saved true ms = (ms, ok tt)
saved false ms = (ms, err not_written)

unfoldable pub add : Bool → Machines → Machine → Machines × Result Error (Unit {0})
add writes ms m = elim (valid_name m.name) [
  | err e ↦ (ms, err e)
  | ok _ ↦
      if is_some (find_machine m.name ms)
      then (ms, err (already_called m.name))
      else saved writes (ms ++ m ∷ [])
]

unfoldable pub forget : Bool → Machines → Text → Machines × Result Error (Unit {0})
forget writes ms name =
    let left = retain (λ m. not (named name m)) ms in
    if length left == length ms then (left, err (not_called name)) else saved writes left

pub record Spot : Type 0 where
  pub machine : Option Text
  pub environment : Option Text
  pub session : Option Text

abbrev pub nowhere : Spot
nowhere = record { machine = none; environment = none; session = none }

abbrev pub parts : Text → List Text
parts given = retain (λ p. not (is_empty p)) (split b'/' given)

abbrev pub machine_names : Machines → List Text
machine_names = map (λ m. m.name)

-- One word that names no machine: an environment on the only machine there is.
unfoldable pub lone_word : Text → Machines → Result Error Spot
lone_word first [] = err no_machines
lone_word first (only ∷ []) =
    ok (record { machine = some only.name; environment = some first; session = none })
lone_word first (m ∷ n ∷ ms) = err (say_which_path first (machine_names (m ∷ n ∷ ms)))

unfoldable pub of_parts : List Text → Machines → Result Error Spot
unfolding lone_word
of_parts [] ms = ok nowhere
of_parts (first ∷ []) ms =
    if is_some (find_machine first ms)
    then ok (record { machine = some first; environment = none; session = none })
    else lone_word first ms
of_parts (first ∷ second ∷ []) ms =
    ok (record { machine = some first; environment = some second; session = none })
of_parts (first ∷ second ∷ third ∷ []) ms =
    ok (record { machine = some first; environment = some second; session = some third })
of_parts (_ ∷ _ ∷ _ ∷ _ ∷ _) ms = err too_deep

unfoldable pub parse : Text → Machines → Result Error Spot
unfolding of_parts
parse given ms = of_parts (parts given) ms

unfoldable pub only_machine : Machines → Result Error Machine
only_machine [] = err no_machines
only_machine (only ∷ []) = ok only
only_machine (m ∷ n ∷ ms) = err (say_which (machine_names (m ∷ n ∷ ms)))

-- `Spot::machine`
unfoldable pub machine_at : Spot → Machines → Result Error Machine
unfolding only_machine
machine_at spot ms = elim spot.machine [
  | some name ↦ or_err (find_machine name ms) (not_called name)
  | none ↦ only_machine ms
]

-- How `reach` gets to a machine: what it dials and which secrets it presents. A token that is not
-- kept here is read over ssh.
pub data Route : Type 0 where
  by_relay : (relay relay_token token : Text) → Route
  by_ssh : (ssh : Text) (token : Option Text) (port : ℕ) → Route
  by_url : (url token : Text) → Route

unfoldable pub route : Machine → Result Error Route
route m = elim m.ssh [
  | some ssh ↦ ok (by_ssh ssh m.token m.port)
  | none ↦ elim m.url [
    | some url ↦ do token ← or_err m.token (url_without_token m.name); ok (by_url url token)
    | none ↦ err (no_way m.name)
  ]
]

unfoldable pub reach : Machine → Result Error Route
unfolding route
reach m = elim m.relay [
  | some relay ↦ do
    token ← or_err m.token (relayed_without_token m.name)
    secret ← or_err m.relay_token (relay_without_token m.name)
    ok (by_relay relay secret token)
  | none ↦ route m
]

-- What a person would call the way to it.
unfoldable pub describe_route : Machine → Text
describe_route m = elim m.ssh [
  | some ssh ↦ codes "ssh " ++ ssh
  | none ↦ elim m.relay [
    | some relay ↦ codes "relay " ++ relay
    | none ↦ get_or (codes "unreachable: no ssh target, no relay and no url") m.url
  ]
]
