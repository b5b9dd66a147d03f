-- ===== src/Command/Forwarding/Carried.antt =====
-- What `forward` of devpipe/src/main.rs carries here.
use devpipe.Machines
use devpipe.Tunnel
use devpipe.Prelude.{
  map, inr, inl, subst, ap, sym, refl, drop, Bool-cases, ◌∷◌, [], List, some, none, Option, true,
  Bool, ◌≡◌, ℕ, find,
}
use devpipe.Proto.Messages.{EnvInfo, HostInfo, PortMap}
use devpipe.Command.Forwarding.{
  asked_each, asked_ports, goes_by, forward_from, first_spare, local_ports, Pairs, local_port,
}
use devpipe.Prelude.Result.{or_err, bind-eq-ok, err, Result, ok}
use devpipe.Command.{not_over_ssh, no_such_environment, of_tunnel, lift, port_in_use, Error}
use devpipe.Tunnel.Ports.{resolve-Matches, Matches}
use devpipe.Prelude.Text.{Text}

-- The port here for one that is asked for: the number that was asked for here, which is free; or else the
-- environment's own if it is free; or else a spare one.
abbrev pub IsLocal : (ℕ → Bool) → Option ℕ → ℕ → ℕ → Type 0
IsLocal free (some here) inside local = (local ≡ here) × (free here ≡ true)
IsLocal free none inside local = (free inside ≡ true → local ≡ inside)

-- What the arguments ask for: each text as it parses, in that order; or, where there is none, each
-- number that the environment publishes, in its order, and at no port of this machine's in particular.
abbrev pub Parsed : List Text → List Tunnel.Asked → Type 0
Parsed [] [] = Unit
Parsed (p ∷ ps) (a ∷ asked) = (Tunnel.parse_port p ≡ ok a) × Parsed ps asked
Parsed _ _ = ⊥

abbrev pub Published : List PortMap → List Tunnel.Asked → Type 0
Published [] [] = Unit
Published (p ∷ ps) (a ∷ asked) = (a.inside ≡ p.inside) × (a.here ≡ none) × Published ps asked
Published _ _ = ⊥

abbrev pub AskedFor : List PortMap → List Text → List Tunnel.Asked → Type 0
AskedFor published [] asked = Published published asked
AskedFor published (p ∷ ps) asked = Parsed (p ∷ ps) asked

-- One pair for each port that is asked for, in that order: a port here, and the port of the machine that
-- the environment publishes it at; and it is shown as that.
abbrev pub Carries : (ℕ → Bool) → List PortMap → List Tunnel.Asked → Pairs → Pairs → Type 0
Carries free published [] [] [] = Unit
Carries free published (want ∷ asked) ((local, outside) ∷ pairs) ((seen, inside) ∷ shown) =
    (seen ≡ local)
    × (inside ≡ want.inside)
    × IsLocal free want.here want.inside local
    × ((p : PortMap) × (find (Tunnel.publishes want.inside) published ≡ some p)
        × (p.outside ≡ outside))
    × Carries free published asked pairs shown
Carries free published _ _ _ = ⊥

ok_inj : (a b : ℕ) → ◌≡◌ {A = Result Error ℕ} (ok a) (ok b) → a ≡ b
ok_inj a b e = cc

ok_pair_inj :
    (a b c d : Pairs)
    → ◌≡◌ {A = Result Error (Pairs × Pairs)} (ok (a, b)) (ok (c, d))
    → ◌≡◌ {A = Pairs × Pairs} (a, b) (c, d)
ok_pair_inj a b c d e = cc

local_port-IsLocal :
    (free : ℕ → Bool) (spare : Option ℕ) (here : Option ℕ) (inside local : ℕ)
    → local_port free spare (record { here = here; inside = inside }) ≡ ok local
    → IsLocal free here inside local
unfolding local_port
local_port-IsLocal free spare (some here) inside local e = elim (Bool-cases (free here)) [
  | inl is_free ↦
      let same : ◌≡◌ {A = Result Error ℕ} (ok here) (ok local) = rw is_free at e in
      (sym (ok_inj here local same), is_free)
  | inr busy ↦
      let refused : ◌≡◌ {A = Result Error ℕ} (err (port_in_use here)) (ok local) = rw busy at e in
      absurd (cc)
]
local_port-IsLocal free spare none inside local e = λ is_free.
    let same : ◌≡◌ {A = Result Error ℕ} (ok inside) (ok local) = rw is_free at e in
    sym (ok_inj inside local same)

local_ports-Carries :
    (free : ℕ → Bool) (spares : List (Option ℕ)) (published : List PortMap)
    → (asked : List Tunnel.Asked) (matched : List (Tunnel.Asked × ℕ)) (pairs shown : Pairs)
    → Matches published asked matched
    → local_ports free spares matched ≡ ok (pairs, shown)
    → Carries free published asked pairs shown
unfolding local_ports
local_ports-Carries free spares published [] [] pairs shown fits e =
    subst (λ (q : Pairs × Pairs). Carries free published [] q.0 q.1)
      (ok_pair_inj [] [] pairs shown e) tt
local_ports-Carries free spares published [] (m ∷ matched) pairs shown fits e = elim fits [ ]
local_ports-Carries free spares published (want ∷ asked) [] pairs shown fits e = elim fits [ ]
local_ports-Carries free spares published (want ∷ asked) ((got, outside) ∷ matched) pairs shown
      (same_want, there, fits) e =
    let (local, one, e₁) = bind-eq-ok (local_port free (first_spare spares) got) _ e in
    let (rest, others, e₂) = bind-eq-ok (local_ports free (drop 1 spares) matched) _ e₁ in
    let chosen = local_port-IsLocal free (first_spare spares) got.here got.inside local one in
    let carried =
      local_ports-Carries free (drop 1 spares) published asked matched rest.0 rest.1 fits others in
    subst (λ (q : Pairs × Pairs). Carries free published (want ∷ asked) q.0 q.1)
      (ok_pair_inj ((local, outside) ∷ rest.0) ((local, got.inside) ∷ rest.1) pairs shown e₂)
      (
        refl,
        ap (λ w. w.inside) same_want,
        subst (λ w. IsLocal free w.here w.inside local) same_want chosen,
        there,
        carried,
      )

or_err-eq-ok :
    {A : Type 0} (o : Option A) (e : Error) (a : A)
    → ◌≡◌ {A = Result Error A} (or_err o e) (ok a)
    → o ≡ some a
or_err-eq-ok none e a h = absurd (cc)
or_err-eq-ok (some b) e a h = cc

lift-eq-ok : {E A : Type 0} (f : E → Error) (r : Result E A) (a : A) → lift f r ≡ ok a → r ≡ ok a
lift-eq-ok f (ok b) a h = cc
lift-eq-ok f (err e) a h = absurd (cc)

ok_end_inj :
    (a b : Tunnel.Target × Pairs × Pairs)
    → ◌≡◌ {A = Result Error (Tunnel.Target × Pairs × Pairs)} (ok a) (ok b)
    → a ≡ b
ok_end_inj a b h = cc

asked_inj :
    (xs ys : List Tunnel.Asked)
    → ◌≡◌ {A = Result Tunnel.Error (List Tunnel.Asked)} (ok xs) (ok ys)
    → xs ≡ ys
asked_inj xs ys e = cc

asked_each-Parsed :
    (ps : List Text) (asked : List Tunnel.Asked) → asked_each ps ≡ ok asked → Parsed ps asked
asked_each-Parsed [] asked h = subst (Parsed []) (asked_inj [] asked h) tt
asked_each-Parsed (p ∷ ps) asked h =
    let (a, parses, h₁) = bind-eq-ok (Tunnel.parse_port p) _ h in
    let (rest, others, h₂) = bind-eq-ok (asked_each ps) _ h₁ in
    subst (Parsed (p ∷ ps)) (asked_inj (a ∷ rest) asked h₂)
      (parses, asked_each-Parsed ps rest others)

all-Published :
    (published : List PortMap)
    → Published published (map (λ p. record { here = none; inside = p.inside }) published)
all-Published [] = tt
all-Published (p ∷ published) = (refl, refl, all-Published published)

published_inj :
    (xs ys : List Tunnel.Asked)
    → ◌≡◌ {A = Result Error (List Tunnel.Asked)} (ok xs) (ok ys)
    → xs ≡ ys
published_inj xs ys e = cc

asked_ports-AskedFor :
    (published : List PortMap) (ports : List Text) (asked : List Tunnel.Asked)
    → asked_ports published ports ≡ ok asked
    → AskedFor published ports asked
unfolding asked_ports
asked_ports-AskedFor published [] asked h =
    subst (Published published) (published_inj _ asked h) (all-Published published)
asked_ports-AskedFor published (p ∷ ps) asked h =
    asked_each-Parsed (p ∷ ps) asked (lift-eq-ok of_tunnel (asked_each (p ∷ ps)) asked h)

-- A `forward` that goes ahead carries one port for each text that was given, as it parses (or each that
-- the environment publishes, if none was given), in that order, of the first environment that goes by the name or id: to the
-- port of the machine at which that number is published, from the free port that was asked for here, or
-- from the environment's own number if that is free; what is shown says the same; and the machine is
-- reached over ssh.
pub forward_from-Carries :
    (free : ℕ → Bool) (spares : List (Option ℕ)) (m : Machines.Machine) (wanted : Text)
    → (ports : List Text) (host : HostInfo) (target : Tunnel.Target) (pairs shown : Pairs)
    → forward_from free spares m wanted ports host ≡ ok (target, pairs, shown)
    → (e : EnvInfo) × (asked : List Tunnel.Asked) × (find (goes_by wanted) host.environments
        ≡ some e)
      × AskedFor e.ports ports asked
      × Carries free e.ports asked pairs shown
      × ((ssh : Text) × (m.ssh ≡ some ssh) × (Tunnel.parse_target ssh ≡ target))
unfolding forward_from
forward_from-Carries free spares m wanted ports host target pairs shown h =
    let (e, found, h₁) = bind-eq-ok (or_err (find (goes_by wanted) host.environments) _) _ h in
    let (asked, asks, h₂) = bind-eq-ok (asked_ports e.ports ports) _ h₁ in
    let (matched, matches, h₃) = bind-eq-ok (lift of_tunnel (Tunnel.resolve e.ports asked)) _ h₂ in
    let (local, locals, h₄) = bind-eq-ok (local_ports free spares matched) _ h₃ in
    let (ssh, over, h₅) = bind-eq-ok (or_err m.ssh _) _ h₄ in
    let fits =
      resolve-Matches e.ports asked matched
        (lift-eq-ok of_tunnel (Tunnel.resolve e.ports asked) matched matches) in
    let done = ok_end_inj (Tunnel.parse_target ssh, local.0, local.1) (target, pairs, shown) h₅ in
    (
      e,
      asked,
      or_err-eq-ok (find (goes_by wanted) host.environments) (no_such_environment wanted m.name) e
          found,
      asked_ports-AskedFor e.ports ports asked asks,
      subst (λ (q : Tunnel.Target × Pairs × Pairs). Carries free e.ports asked q.1 q.2) done
          (local_ports-Carries free spares e.ports asked matched local.0 local.1 fits locals),
      (ssh, or_err-eq-ok m.ssh (not_over_ssh m.name) ssh over, ap (λ q. q.0) done),
    )
