-- ===== src/Command/Tests.antt =====
-- The commands at concrete inputs: a machine with two environments.
use devpipe.Machines
use devpipe.Tunnel
use devpipe.Machines.{Machine, Route}
use devpipe.Command.Adding.{add, Adding, machine_of}
use devpipe.Proto.Messages.{FromServer, HostInfo, EnvInfo, PortMap, environment_gone, stale}
use devpipe.Prelude.{
  ◌++◌, ◌∷◌, [], List, some, none, not, false, true, Bool, refl, ◌≡◌, ℕ, find, ◌==◌,
}
use devpipe.Command.Following.View.{follow_once-Shows, announce_all, Shows}
use devpipe.Prelude.Text.{Text, codes}
use devpipe.Prelude.Result.{Result, ok}
use devpipe.Command.Forwarding.{goes_by, local_port, local_ports, asked_ports, forward_from}
use devpipe.Command.Following.{follow_once}
use devpipe.Command.Adding.Reachable.{add-Appended}
use devpipe.Prelude.Text.Decimal.{parse_u16}
use devpipe.Command.Following.Environments.{find_id}
use devpipe.Command.Forwarding.Carried.{forward_from-Carries, AskedFor, Carries}

abbrev api_ports : List PortMap
api_ports =
    record { inside = 3000; outside = 40001 } ∷ record { inside = 5432; outside = 40002 } ∷ []

abbrev api : EnvInfo
api = record {
  id = codes "e1";
  name = codes "api";
  backend = codes "docker";
  image = [];
  status = codes "running";
  workspace = [];
  memory = none;
  ports = api_ports;
  sessions = [];
}

abbrev web : EnvInfo
web = record api { id = codes "e2"; name = codes "web"; ports = [] }

abbrev box : HostInfo
box = record {
  id = codes "h1";
  host = codes "box";
  backend = codes "docker";
  panes = [];
  image = [];
  secrets = [];
  environments = api ∷ [];
}

-- A second environment comes, the first is renamed behind it, and goes.
abbrev said : List (FromServer Text)
said =
    FromServer.environment web
    ∷ FromServer.environment (record api { name = codes "zed" })
    ∷ stale
    ∷ environment_gone (codes "e1")
    ∷ []

follow_once-Shows_example :
    Shows
      (codes "box")
      (follow_once (codes "box") (ok box) said none []).0
      (announce_all said (λ i. find_id i box.environments))
follow_once-Shows_example =
    follow_once-Shows (codes "box") box said none [] (refl, tt) (tt, tt) (tt, (tt, (tt, (tt, tt))))

abbrev adding : Adding
adding = record {
  name = codes "box";
  ssh = none;
  here = false;
  url = none;
  token = none;
  relay = none;
  relay_token = none;
  port = 7455;
}

add-Appended_example :
    let after = add none (λ m. ok box) true adding [] in
    (m : Machine) × (m.name ≡ codes "box")
    × (after.0 ≡ [] ++ m ∷ [])
    × (Machines.find_machine (codes "box") [] ≡ none)
    × (◌≡◌ {A = Result Text HostInfo} (ok box) (ok box))
    × ((r : Route) × (Machines.reach m ≡ ok r))
unfolding add machine_of Machines.add Machines.valid_name
add-Appended_example = add-Appended adding [] (λ m. ok box) none true box refl

abbrev box_machine : Machine
box_machine = record {
  name = codes "box";
  ssh = some (codes "box");
  url = none;
  token = none;
  relay = none;
  relay_token = none;
  port = 7455;
}

-- 3000 is taken here, so a spare port takes its place; 5432 is asked for at 15432.
abbrev is_free : ℕ → Bool
is_free n = not (n == 3000)

abbrev asked : List Text
asked = codes "3000" ∷ codes "15432:5432" ∷ []

forward_from-Carries_example :
    (e : EnvInfo) × (ports : List Tunnel.Asked) × (find (goes_by (codes "api")) box.environments
      ≡ some e)
    × AskedFor e.ports asked ports
    × Carries is_free e.ports ports
        ((50001, 40001) ∷ (15432, 40002) ∷ [])
        ((50001, 3000) ∷ (15432, 5432) ∷ [])
    × ((ssh : Text) × (box_machine.ssh ≡ some ssh)
        × (Tunnel.parse_target ssh ≡ Tunnel.parse_target (codes "box")))
unfolding forward_from asked_ports Tunnel.parse_port parse_u16 Tunnel.resolve local_ports local_port
forward_from-Carries_example =
    forward_from-Carries is_free (some 50001 ∷ none ∷ []) box_machine (codes "api") asked box
      (Tunnel.parse_target (codes "box")) ((50001, 40001) ∷ (15432, 40002) ∷ [])
      ((50001, 3000) ∷ (15432, 5432) ∷ []) refl
