-- ===== src/Tunnel/Tests.antt =====
-- The tests of devpipe/src/tunnel.rs as evaluations, and the theorems at concrete inputs.
use devpipe.Prelude.{List, some, ◌&&◌, not, false, true, ℕ, any, ◌∷◌, [], none, refl, ◌≡◌}
use devpipe.Tunnel.{not_a_port, whole, Asked, parse_port, parse_target}
use devpipe.Proto.Messages.{PortMap}
use devpipe.Prelude.Text.{codes}
use devpipe.Prelude.Text.Decimal.{parse_u16}
use devpipe.Tunnel.Carry.{Error, Look, wait, wait_ends, is_ok}
use devpipe.Prelude.Result.{Result, err}

plain_host : parse_target (codes "wess@box") ≡ whole (codes "wess@box")
unfolding parse_target
plain_host = refl

not_a_number : parse_port (codes "web:3000") ≡ err (not_a_port (codes "web"))
unfolding parse_port parse_u16
not_a_number = refl

abbrev web : PortMap
web = record { inside = 3000; outside = 32768 }

abbrev database : PortMap
database = record { inside = 5432; outside = 32769 }

abbrev wanted : Asked
wanted = record { here = none; inside = 5432 }

-- Nothing yet, and then the port is open.
abbrev looks : List Look
looks =
    record { open_now = false; has_ended = false; is_late = false }
    ∷ record { open_now = true; has_ended = false; is_late = true }
    ∷ []

wait_ends_example :
    (r : Result Error ℕ) × (wait 4000 looks ≡ some r)
    × (is_ok r && not (any (λ l. l.open_now) looks) ≡ false)
wait_ends_example = wait_ends 4000 looks refl
