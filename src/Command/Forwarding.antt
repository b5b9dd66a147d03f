-- ===== src/Command/Forwarding.antt =====
-- `forward` of devpipe/src/main.rs: which ports of this machine one ssh is to carry to which of the
-- environment's. What the network says of a port here is an argument, and so are the spare ports that
-- the kernel gives, one for each port that is asked for.
pub mod Carried
use devpipe.Machines
use devpipe.Tunnel
use devpipe.Prelude.{
  drop, map, ◌∷◌, [], List, some, none, Option, ◌||◌, Bool, ℕ, find, if◌then◌else◌,
}
use devpipe.Prelude.Text.{text_eq, Text}
use devpipe.Proto.Messages.{HostInfo, EnvInfo, PortMap}
use devpipe.Prelude.Result.{or_err, err, ◌>>=◌, ok, Result}
use devpipe.Command.{
  not_over_ssh, no_such_environment, of_machines, unreached, no_spare_port, port_in_use, of_tunnel,
  lift, Error,
}
use devpipe.Command.Verbs.{environment_of}

abbrev pub asked_each : List Text → Result Tunnel.Error (List Tunnel.Asked)
asked_each [] = ok []
asked_each (p ∷ ps) = do a ← Tunnel.parse_port p; rest ← asked_each ps; ok (a ∷ rest)

-- Every port that the environment publishes, if none is named.
unfoldable pub asked_ports : List PortMap → List Text → Result Error (List Tunnel.Asked)
asked_ports published [] = ok (map (λ p. record { here = none; inside = p.inside }) published)
asked_ports published (p ∷ ps) = lift of_tunnel (asked_each (p ∷ ps))

-- Their number if they asked for one, the environment's own if it is free, and a spare one otherwise.
unfoldable pub local_port : (ℕ → Bool) → Option ℕ → Tunnel.Asked → Result Error ℕ
local_port free spare want = elim want.here [
  | some here ↦ if free here then ok here else err (port_in_use here)
  | none ↦ if free want.inside then ok want.inside else or_err spare no_spare_port
]

abbrev pub Pairs : Type 0
Pairs = List (ℕ × ℕ)

abbrev pub first_spare : List (Option ℕ) → Option ℕ
first_spare [] = none
first_spare (s ∷ spares) = s

-- The loop: what ssh is told, and what is shown.
unfoldable pub local_ports :
    (ℕ → Bool) → List (Option ℕ) → List (Tunnel.Asked × ℕ) → Result Error (Pairs × Pairs)
local_ports free spares [] = ok ([], [])
local_ports free spares ((want, outside) ∷ matched) = do
  local ← local_port free (first_spare spares) want
  rest ← local_ports free (drop 1 spares) matched
  ok ((local, outside) ∷ rest.0, (local, want.inside) ∷ rest.1)

abbrev pub goes_by : Text → EnvInfo → Bool
goes_by wanted e = text_eq e.name wanted || text_eq e.id wanted

-- Behind `reach`, with what the machine says of itself.
unfoldable pub forward_from :
    (ℕ → Bool)
    → List (Option ℕ)
    → Machines.Machine
    → Text
    → List Text
    → HostInfo
    → Result Error (Tunnel.Target × Pairs × Pairs)
forward_from free spares m wanted ports host = do
  e ← or_err (find (goes_by wanted) host.environments) (no_such_environment wanted m.name)
  asked ← asked_ports e.ports ports
  matched ← lift of_tunnel (Tunnel.resolve e.ports asked)
  local ← local_ports free spares matched
  ssh ← or_err m.ssh (not_over_ssh m.name)
  ok (Tunnel.parse_target ssh, local.0, local.1)

abbrev pub reached_by : Result Text HostInfo → Result Error HostInfo
reached_by (ok host) = ok host
reached_by (err why) = err (unreached why)

-- `forward`, up to the ssh that it starts.
unfoldable pub forward :
    (ℕ → Bool)
    → List (Option ℕ)
    → (Machines.Machine → Result Text HostInfo)
    → Text
    → List Text
    → Machines.Machines
    → Result Error (Tunnel.Target × Pairs × Pairs)
forward free spares answers path ports ms = do
  spot ← lift of_machines (Machines.parse path ms)
  m ← lift of_machines (Machines.machine_at spot ms)
  wanted ← environment_of spot
  host ← reached_by (answers m)
  forward_from free spares m wanted ports host
