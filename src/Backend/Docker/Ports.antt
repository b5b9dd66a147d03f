-- ===== src/Backend/Docker/Ports.antt =====
-- `Docker::ports`: the host ports that the runtime has chosen, read one by one.
use devpipe.Backend.Docker.{Runtime, container}
use devpipe.Prelude.{◌++◌, ◌∷◌, [], List, some, none, Option, refl, ◌≡◌, ℕ}
use devpipe.Prelude.Text.{split, codes, Text}
use devpipe.Secrets.{lines_from, lines}
use devpipe.Backend.{EnvSpec}
use devpipe.Proto.Messages.{PortMap}
use devpipe.Prelude.Text.Decimal.{show_u16, parse_u16}
use devpipe.Prelude.Text.Trim.{trim}

-- `l.rsplit(':').next()`
abbrev last_piece : List Text → Text
last_piece [] = []
last_piece (p ∷ []) = p
last_piece (p ∷ q ∷ ps) = last_piece (q ∷ ps)

abbrev first_line : List Text → Option Text
first_line [] = none
first_line (l ∷ ls) = some l

unfoldable pub outside_port : Text → Option ℕ
outside_port said = elim (first_line (lines said)) [
  | some l ↦ parse_u16 (trim (last_piece (split b':' l)))
  | none ↦ none
]

abbrev pub port_argv : Text → EnvSpec → ℕ → List Text
port_argv cli spec inside =
    cli ∷ codes "port" ∷ container spec ∷ (show_u16 inside ++ codes "/tcp") ∷ []

abbrev mapped_port : ℕ → Option Text → List PortMap
mapped_port inside none = []
mapped_port inside (some said) = elim (outside_port said) [
  | some outside ↦ record { inside = inside; outside = outside } ∷ []
  | none ↦ []
]

module _ (cli : Text) (rt : Runtime) (spec : EnvSpec) where
  unfoldable pub ports_from : List ℕ → rt.World → rt.World × List PortMap
  ports_from [] w = (w, [])
  ports_from (inside ∷ rest) w =
      let (w₁, said) = rt.output (port_argv cli spec inside) w in
      let (w₂, mapped) = ports_from rest w₁ in (w₂, mapped_port inside said ++ mapped)

  unfoldable pub ports : rt.World → rt.World × List PortMap
  ports = ports_from spec.ports

two_families : outside_port (codes "127.0.0.1:54321\n[::1]:54321\n") ≡ some 54321
unfolding outside_port lines lines_from parse_u16 trim
two_families = refl
