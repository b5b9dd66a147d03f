-- ===== src/Machines/Tests.antt =====
-- The tests of devpipe/src/machines.rs as evaluations, and the theorems at concrete inputs.
use Prim.Native.String.{String}
use devpipe.Prelude.{◌∷◌, [], some, none, refl, ◌≡◌}
use devpipe.Machines.{default_port, Machine, by_relay, too_deep, reach, parse}
use devpipe.Prelude.Text.{codes}
use devpipe.Prelude.Result.{ok, err}

abbrev box : String → Machine
box name = record {
  name = codes name;
  ssh = some (codes name);
  url = none;
  token = none;
  relay = none;
  relay_token = none;
  port = default_port;
}

four_deep : parse (codes "a/b/c/d") (box "a" ∷ []) ≡ err too_deep
unfolding parse
four_deep = refl

relay_wins :
    reach (record (box "a") {
      relay = some (codes "wss://r");
      relay_token = some (codes "k");
      token = some (codes "t");
    })
    ≡ ok (by_relay (codes "wss://r") (codes "k") (codes "t"))
unfolding reach
relay_wins = refl
