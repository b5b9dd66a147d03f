-- ===== src/Command/Verbs.antt =====
-- The one-shot verbs of devpipe/src/main.rs: what is asked of the machine, and what is made of the
-- answer.
use devpipe.Secrets
use devpipe.Machines
use devpipe.Proto.Messages.{
  set_secret, destroy_environment, remove_secret, stop_environment, list_secrets, start_environment,
  create_environment, FromClient, FromServer, environment_gone, error,
}
use devpipe.Prelude.{◌++◌, ◌∷◌, [], List, some, none, Option, ℕ}
use devpipe.Prelude.Result.{bail_if, ◌>>◌, err, ok, ◌>>=◌, or_err, Result}
use devpipe.Prelude.Text.{is_empty, split_once, codes, Text}
use devpipe.Command.{
  empty_value, of_secrets, nothing_useful, says, of_machines, lift, name_an_environment, Error,
}
use devpipe.Command.Printing.{print_environment}

unfoldable pub environment_of : Machines.Spot → Result Error Text
environment_of spot = or_err spot.environment name_an_environment

-- `spot`, and what each verb sends.
pub data Verb : Type 0 where
  new : (path : Text) (repo : Option Text) (ports : List ℕ) (image memory : Option Text) → Verb
  start stop rm : (path : Text) → Verb

abbrev pub path_of : Verb → Text
path_of (new path repo ports image memory) = path
path_of (start path) = path
path_of (stop path) = path
path_of (rm path) = path

abbrev pub asking : Verb → Text → FromClient
asking (new path repo ports image memory) name = create_environment name image ports repo memory
asking (start path) id = start_environment id
asking (stop path) id = stop_environment id
asking (rm path) id = destroy_environment id

unfoldable pub verb : Verb → Machines.Machines → Result Error (Machines.Machine × FromClient)
verb v ms = do
  spot ← lift of_machines (Machines.parse (path_of v) ms)
  name ← environment_of spot
  m ← lift of_machines (Machines.machine_at spot ms)
  ok (m, asking v name)

-- `ask`: the lines for the answer that came, if one did.
unfoldable pub answered : Option (FromServer Text) → Result Error (List Text)
answered (some (FromServer.environment e)) = ok (print_environment e)
answered (some (environment_gone id)) = ok ((codes "gone " ++ id) ∷ [])
answered (some (error message)) = err (says message)
answered _ = err nothing_useful

pub data SecretCommand : Type 0 where
  ls : SecretCommand
  rm_secret : (name : Text) → SecretCommand
  set : (assignment : Text) → SecretCommand

-- The value is behind the first `=`, or typed.
abbrev pub assigned : Text → Result Error Text → Option (Text × Text) → Result Error (Text × Text)
assigned assignment typed (some (key, value)) = ok (key, value)
assigned assignment typed none = do value ← typed; ok (assignment, value)

unfoldable pub secret_asking : Result Error Text → SecretCommand → Result Error FromClient
secret_asking typed ls = ok list_secrets
secret_asking typed (rm_secret name) = ok (remove_secret name)
secret_asking typed (set assignment) = do
  pair ← assigned assignment typed (split_once b'=' assignment)
  lift of_secrets (Secrets.valid_key pair.0)
  bail_if (is_empty pair.1) (empty_value pair.0)
  ok (set_secret pair.0 pair.1)

unfoldable pub secret_answered : Text → Option (FromServer Text) → Result Error (List Text)
secret_answered machine (some (FromServer.secrets [])) =
    ok ((machine ++ codes " lends its environments nothing yet") ∷ [])
secret_answered machine (some (FromServer.secrets (n ∷ names))) = ok (n ∷ names)
secret_answered machine (some (error message)) = err (says message)
secret_answered machine _ = err nothing_useful
