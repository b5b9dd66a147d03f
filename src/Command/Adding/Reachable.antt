-- ===== src/Command/Adding/Reachable.antt =====
-- A machine that `add` of devpipe/src/main.rs writes can be found again and reached for.
use devpipe.Machines
use devpipe.Machines.{Machine, Route}
use devpipe.Prelude.{
  false, true, subst, ◌∙◌, ap, sym, Option-cases, ◌++◌, ◌∷◌, [], some, none, Option, Bool, inr, inl,
  refl, ◌≡◌, Bool-cases,
}
use devpipe.Command.Adding.{
  reached, add, tried, direct, on_here, by_relay, written, machine_of, Adding,
}
use devpipe.Prelude.Result.{err, ok, Result}
use devpipe.Proto.Messages.{HostInfo}
use devpipe.Command.{Error}
use devpipe.Prelude.Text.{Text}
use devpipe.Prelude.Text.Trim.{trim}

abbrev HasRoute : Adding → Machine → Type 0
HasRoute a m = (m.name ≡ a.name) × ((r : Route) × (Machines.reach m ≡ ok r))

abbrev Holds : (Machine → Type 0) → Result Error Machine → Type 0
Holds P (ok m) = P m
Holds P (err e) = Unit

by_relay-HasRoute :
    (a : Adding) (relay : Text) (token secret : Option Text)
    → Holds (HasRoute a) (by_relay (record a { token = token; relay_token = secret }) relay)
unfolding Machines.reach
by_relay-HasRoute a relay none secret = tt
by_relay-HasRoute a relay (some t) none = tt
by_relay-HasRoute a relay (some t) (some s) = (refl, (Route.by_relay relay s t, refl))

on_here-HasRoute : (a : Adding) (file : Option Text) → Holds (HasRoute a) (on_here a file)
unfolding Machines.reach Machines.route
on_here-HasRoute a none = tt
on_here-HasRoute a (some t) = (refl, (Route.by_url _ (trim t), refl))

direct-HasRoute :
    (a : Adding) (url token : Option Text)
    → Holds (HasRoute a) (direct (record a { token = token }) url)
unfolding Machines.reach Machines.route
direct-HasRoute a none token = (refl, (Route.by_ssh _ token a.port, refl))
direct-HasRoute a (some url) none = tt
direct-HasRoute a (some url) (some t) = (refl, (Route.by_url url t, refl))

machine_of-HasRoute :
    (file : Option Text) (a : Adding) (relay : Option Text)
    → Holds (HasRoute a) (machine_of file (record a { relay = relay }))
unfolding machine_of
machine_of-HasRoute file a (some relay) = by_relay-HasRoute a relay a.token a.relay_token
machine_of-HasRoute file a none = elim (Bool-cases a.here) [
  | inl here ↦ rw here (on_here-HasRoute a file)
  | inr there ↦ rw there (direct-HasRoute a a.url a.token)
]

-- The machine that was written at the end of the list.
abbrev pub Appended :
    Adding
    → Machines.Machines
    → (Machine → Result Text HostInfo)
    → Machines.Machines
    → HostInfo
    → Type 0
Appended a ms answers after host =
    (m : Machine) × (m.name ≡ a.name)
    × (after ≡ ms ++ m ∷ [])
    × (Machines.find_machine a.name ms ≡ none)
    × (answers m ≡ ok host)
    × ((r : Route) × (Machines.reach m ≡ ok r))

abbrev Done :
    Adding
    → Machines.Machines
    → (Machine → Result Text HostInfo)
    → Machines.Machines × Result Error HostInfo
    → Type 0
Done a ms answers (after, ok host) = Appended a ms answers after host
Done a ms answers (after, err e) = Unit

module _ (a : Adding) (ms : Machines.Machines) (answers : Machine → Result Text HostInfo) where
  saved-Done :
      (writes : Bool) (m : Machine) (host : HostInfo)
      → HasRoute a m
      → answers m ≡ ok host
      → Machines.find_machine m.name ms ≡ none
      → Done a ms answers (written (Machines.saved writes (ms ++ m ∷ [])) host)
  saved-Done true m host (name, way) said fresh =
      (m, name, refl, ap (λ n. Machines.find_machine n ms) (sym name) ∙ fresh, said, way)
  saved-Done false m host (name, way) said fresh = tt

  added-Done :
      (writes : Bool) (m : Machine) (host : HostInfo)
      → HasRoute a m
      → answers m ≡ ok host
      → Done a ms answers (written (Machines.add writes ms m) host)
  unfolding Machines.add
  added-Done writes m host has said = go (Machines.valid_name m.name) refl
    where
      go :
          (r : Result Machines.Error (Unit {0}))
          → Machines.valid_name m.name ≡ r
          → Done a ms answers (written (Machines.add writes ms m) host)
      go (err e) v = rw (v, Machines.add) tt
      go (ok _) v =
          rw (v, Machines.add)
            (elim (Option-cases (Machines.find_machine m.name ms)) [
              | inl fresh ↦ rw fresh (saved-Done writes m host has said fresh)
              | inr (x, there) ↦ rw there tt
            ])

  tried-Done :
      (writes : Bool) (m : Machine) (r : Result Text HostInfo)
      → HasRoute a m
      → answers m ≡ r
      → Done a ms answers (tried writes m (reached a.name r) ms)
  tried-Done writes m (err why) has said = tt
  tried-Done writes m (ok host) has said = added-Done writes m host has said

  add-Done : (file : Option Text) (writes : Bool) → Done a ms answers (add file answers writes a ms)
  unfolding add
  add-Done file writes = go (machine_of file a) refl
    where
      go :
          (r : Result Error Machine)
          → machine_of file a ≡ r
          → Done a ms answers (add file answers writes a ms)
      go (err e) made = rw (made, add) tt
      go (ok m) made =
          rw (made, add)
            (tried-Done writes m (answers m)
              (subst (Holds (HasRoute a)) made (machine_of-HasRoute file a a.relay)) refl)

  ended :
      (p : Machines.Machines × Result Error HostInfo) (host : HostInfo)
      → Done a ms answers p
      → p.1 ≡ ok host
      → Appended a ms answers p.0 host
  ended (after, ok k) host done e =
      let same : k ≡ host = cc in subst (Appended a ms answers after) same done
  ended (after, err why) host done e = absurd (cc)

  -- An `add` that succeeds has put one machine at the end of the list, under the name that it was
  -- given, which no machine had; it answered when it was tried, with the description that is printed;
  -- and whichever way to it was described, later commands lack neither an address nor a token that
  -- they would need to reach for it.
  pub add-Appended :
      (file : Option Text) (writes : Bool) (host : HostInfo)
      → (add file answers writes a ms).1 ≡ ok host
      → (m : Machine) × (m.name ≡ a.name)
        × ((add file answers writes a ms).0 ≡ ms ++ m ∷ [])
        × (Machines.find_machine a.name ms ≡ none)
        × (answers m ≡ ok host)
        × ((r : Route) × (Machines.reach m ≡ ok r))
  add-Appended file writes host e =
      ended (add file answers writes a ms) host (add-Done file writes) e
