-- ===== src/Command/Adding.antt =====
-- `add` of devpipe/src/main.rs: the machine that its arguments describe, tried before it is written.
pub mod Reachable
use devpipe.Machines
use devpipe.Prelude.{◌++◌, some, none, Option, Bool, ℕ, get_or, if◌then◌else◌}
use devpipe.Prelude.Text.{codes, Text}
use devpipe.Machines.{Machine}
use devpipe.Prelude.Result.{or_err, err, ok, ◌>>=◌, Result}
use devpipe.Command.{
  relayed_needs_relay_token, url_needs_token, no_daemon_here, relayed_needs_token, of_machines,
  could_not_reach, Error,
}
use devpipe.Proto.Messages.{HostInfo}
use devpipe.Prelude.Text.Decimal.{show_u16}
use devpipe.Prelude.Text.Trim.{trim}

pub record Adding : Type 0 where
  pub name : Text
  pub ssh : Option Text
  pub here : Bool
  pub url : Option Text
  pub token : Option Text
  pub relay : Option Text
  pub relay_token : Option Text
  pub port : ℕ

abbrev pub bare : Adding → Machine
bare a = record {
  name = a.name;
  ssh = none;
  url = none;
  token = none;
  relay = none;
  relay_token = none;
  port = a.port;
}

abbrev pub by_relay : Adding → Text → Result Error Machine
by_relay a relay = do
  token ← or_err a.token relayed_needs_token
  secret ← or_err a.relay_token relayed_needs_relay_token
  ok (record (bare a) { token = some token; relay = some relay; relay_token = some secret })

-- The daemon's token is in a file, read here.
abbrev pub on_here : Adding → Option Text → Result Error Machine
on_here a file = do
  token ← or_err file no_daemon_here
  ok (record (bare a) {
    url = some (codes "ws://127.0.0.1:" ++ show_u16 a.port);
    token = some (trim token);
  })

abbrev pub by_url : Adding → Text → Result Error Machine
by_url a url = do
  token ← or_err a.token url_needs_token
  ok (record (bare a) { url = some url; token = some token })

abbrev pub by_ssh : Adding → Machine
by_ssh a = record (bare a) { ssh = some (get_or a.name a.ssh); token = a.token }

abbrev pub direct : Adding → Option Text → Result Error Machine
direct a (some url) = by_url a url
direct a none = ok (by_ssh a)

abbrev pub unrelayed : Adding → Option Text → Result Error Machine
unrelayed a file = if a.here then on_here a file else direct a a.url

unfoldable pub machine_of : Option Text → Adding → Result Error Machine
machine_of file a = elim a.relay [ some relay ↦ by_relay a relay | none ↦ unrelayed a file ]

abbrev pub reached : Text → Result Text HostInfo → Result Error HostInfo
reached name (ok host) = ok host
reached name (err why) = err (could_not_reach name why)

abbrev pub written :
    Machines.Machines × Result Machines.Error (Unit {0})
    → HostInfo
    → Machines.Machines × Result Error HostInfo
written (ms, ok _) host = (ms, ok host)
written (ms, err e) host = (ms, err (of_machines e))

abbrev pub tried :
    Bool
    → Machine
    → Result Error HostInfo
    → Machines.Machines
    → Machines.Machines × Result Error HostInfo
tried writes m (err e) ms = (ms, err e)
tried writes m (ok host) ms = written (Machines.add writes ms m) host

-- `add`: `answers` is what the network makes of the machine, `writes` whether its file is written.
unfoldable pub add :
    Option Text
    → (Machine → Result Text HostInfo)
    → Bool
    → Adding
    → Machines.Machines
    → Machines.Machines × Result Error HostInfo
add file answers writes a ms = elim (machine_of file a) [
  | err e ↦ (ms, err e)
  | ok m ↦ tried writes m (reached a.name (answers m)) ms
]
