-- ===== src/Backend/Docker/Tests.antt =====
-- A runtime that holds one container, and the lifecycle on it.
use devpipe.Backend.Docker.{
  verb_argv, remove_argv, create_argv, inspect_argv, Runtime, start, create, destroy, succeeded,
  status,
}
use devpipe.Prelude.{
  ◌∷◌, [], List, some, none, Option, true, false, ◌⊎◌, ◌≢◌, refl, ◌≡◌, if◌then◌else◌,
}
use devpipe.Backend.{stopped, running, absent, Status, EnvSpec}
use devpipe.Prelude.Text.{text_eq, codes, Text}
use devpipe.Backend.Docker.Lifecycle.{Obeys, Excuse, printed, start-running}
use devpipe.Prelude.Text.Trim.{trim}

abbrev box : EnvSpec
box = record {
  id = codes "a1";
  name = codes "web";
  backend = codes "docker";
  image = codes "debian";
  workspace = codes "/w/a1";
  ports = 3000 ∷ [];
  memory = none;
}

-- The commands, told apart by their second word.
abbrev second_word : List Text → Text
second_word (_ ∷ w ∷ _) = w
second_word _ = []

-- What is not there cannot be started.
abbrev start_one : Status → Status × Option Text
start_one absent = (absent, none)
start_one _ = (running, some (codes "a1"))

abbrev obey : Text → Status → Status × Option Text
obey word s =
    if text_eq word (codes "inspect")
    then (s, printed s)
    else if text_eq word (codes "create")
    then (stopped, some (codes "id"))
    else if text_eq word (codes "start")
    then start_one s
    else if text_eq word (codes "rm")
    then (absent, some (codes "a1"))
    else (s, none)

abbrev one_container : Runtime
one_container = record { World = Status; output = λ argv s. obey (second_word argv) s }

there_runs :
    (s : Status)
    → s ≢ absent
    → (succeeded (codes "docker") one_container (start_one s)).1 ≡ true
    → (start_one s).0 ≡ running
there_runs absent there done = absurd (there refl)
there_runs stopped there done = refl
there_runs running there done = refl

one_container-Obeys : Obeys (codes "docker") one_container box (λ s. s)
unfolding inspect_argv create_argv verb_argv remove_argv
one_container-Obeys = record {
  inspects = λ w. refl;
  creates = λ w gone done. refl;
  starts = there_runs;
  no_such = λ w gone. rw gone refl;
  removes = λ w done. refl;
}

started : (start (codes "docker") one_container true box absent).0 ≡ running
unfolding start create status inspect_argv create_argv verb_argv
started = refl

start-running_example :
    let after = start (codes "docker") one_container true box absent in
    ((after.1 ≡ true) × (after.0 ≡ running))
    ⊎ ((after.1 ≡ false)
        × Excuse (codes "docker") one_container box (λ s. s) one_container-Obeys true absent)
start-running_example =
    start-running (codes "docker") one_container box (λ s. s) one_container-Obeys true absent

destroyed : (destroy (codes "docker") one_container box running).1 ≡ true
unfolding destroy status inspect_argv remove_argv trim
destroyed = refl

made : (create (codes "docker") one_container true box absent).1 ≡ true
unfolding create status inspect_argv create_argv
made = refl
