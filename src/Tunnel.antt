-- ===== src/Tunnel.antt =====
-- devpipe/src/tunnel.rs: reading an ssh destination and the ports somebody asks to reach. ssh itself
-- and the sockets are the system's.
pub mod Targets
pub mod Ports
pub mod Carry
mod Tests
use devpipe.Prelude.Result.{Result, ok, err, ◌>>=◌, or_err}
use devpipe.Prelude.Text.{Text, split_once, strip_prefix, contains, codes}
use devpipe.Prelude.Text.Decimal.{parse_u16}
use devpipe.Proto.Messages.{PortMap}
use devpipe.Prelude.{
  map, ◌++◌, ◌∷◌, [], List, some, none, Option, Bool, ℕ, find, if◌then◌else◌, ◌==◌,
}

pub record Target : Type 0 where
  pub host : Text
  pub port : Option ℕ

-- The port behind the bracket: `after.strip_prefix(':').and_then(|p| p.parse().ok())`.
abbrev pub port_after : Option Text → Option ℕ
port_after none = none
port_after (some p) = parse_u16 p

abbrev pub whole : Text → Target
whole given = record { host = given; port = none }

abbrev pub bracketed : Text → Option (Text × Text) → Target
bracketed given none = whole given
bracketed given (some (inside, after)) = record {
  host = inside;
  port = port_after (strip_prefix (codes ":") after);
}

abbrev pub with_port : Text → Text → Option ℕ → Target
with_port given host none = whole given
with_port given host (some port) = record { host = host; port = some port }

abbrev pub coloned : Text → Option (Text × Text) → Target
coloned given none = whole given
coloned given (some (host, port)) =
    if contains b':' port then whole given else with_port given host (parse_u16 port)

unfoldable pub parse_target : Text → Target
parse_target given = elim (strip_prefix (codes "[") given) [
  | some rest ↦ bracketed given (split_once b']' rest)
  | none ↦ coloned given (split_once b':' given)
]

pub data Error : Type 0 where
  not_a_port : Text → Error
  publishes_none : Error
  not_published : (wanted : ℕ) (published : List ℕ) → Error

pub record Asked : Type 0 where
  pub here : Option ℕ
  pub inside : ℕ

abbrev pub port : Text → Result Error ℕ
port text = or_err (parse_u16 text) (not_a_port text)

unfoldable pub parse_port : Text → Result Error Asked
parse_port given = elim (split_once b':' given) [
  | some (here, inside) ↦ do
    h ← port here
    i ← port inside
    ok (record { here = some h; inside = i })
  | none ↦ do i ← port given; ok (record { here = none; inside = i })
]

abbrev pub publishes : ℕ → PortMap → Bool
publishes inside p = p.inside == inside

-- The loop: what was found so far, and a refusal at the first port that is not published.
unfoldable pub resolve_each :
    List PortMap → List (Asked × ℕ) → List Asked → Result Error (List (Asked × ℕ))
resolve_each published found [] = ok found
resolve_each published found (want ∷ asked) = elim (find (publishes want.inside) published) [
  | some mapped ↦ resolve_each published (found ++ (want, mapped.outside) ∷ []) asked
  | none ↦ err (not_published want.inside (map (λ p. p.inside) published))
]

unfoldable pub resolve : List PortMap → List Asked → Result Error (List (Asked × ℕ))
unfolding resolve_each
resolve [] asked = err publishes_none
resolve (p ∷ published) asked = resolve_each (p ∷ published) [] asked
