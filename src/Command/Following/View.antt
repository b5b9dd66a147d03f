-- ===== src/Command/Following/View.antt =====
-- What the live tree (devpipe/src/main.rs) shows of a machine, against what the machine has said.
use devpipe.Proto.Messages.{
  HostInfo, EnvInfo, FromServer, welcome, environment_gone, stale, opened, closed, secrets, error,
  pong,
}
use devpipe.Command.Following.{
  has_id, sorted, go_on, updated, put_environment, Corner, update, corner, Picture, follow_once,
  hear_all, hear, insert, Turn, breaks, repaints, ignores, describes,
}
use devpipe.Prelude.{
  arith, ◌∷◌, [], List, some, none, Option, not, false, true, Bool, ◌∙◌, ap, refl, ◌≡◌, All, retain,
  if◌then◌else◌,
}
use devpipe.Prelude.Text.{text_eq_refl, text_eq_iff, text_eq, Text}
use devpipe.Command.Following.Environments.{
  find_id-retain, find_id-sort_by_name, retain-Distinct, sort_by_name-IsSorted,
  sort_by_name-Distinct, find_id-put_environment, put_environment-Distinct, IsSorted, find_id,
  Distinct,
}
use devpipe.Prelude.Result.{Result, ok}

-- The machine's own table by ids, as its messages tell it.
abbrev pub announce : FromServer Text → (Text → Option EnvInfo) → Text → Option EnvInfo
announce (FromServer.environment e) v i = if text_eq e.id i then some e else v i
announce (environment_gone id) v i = if text_eq id i then none else v i
announce (welcome version fresh) v i = find_id i fresh.environments
announce _ v i = v i

abbrev pub announce_all : List (FromServer Text) → (Text → Option EnvInfo) → Text → Option EnvInfo
announce_all [] v = v
announce_all (said ∷ more) v = announce_all more (announce said v)

-- A machine describes itself with no id twice.
abbrev pub IsTold : FromServer Text → Type 0
IsTold (welcome version fresh) = Distinct fresh.environments
IsTold _ = Unit

-- The corner shows these environments, each once, in the order of the names.
abbrev pub Shows : Text → Picture → (Text → Option EnvInfo) → Type 0
Shows name picture v =
    (h : HostInfo) × (corner name picture ≡ some (ok h))
    × Distinct h.environments
    × IsSorted h.environments
    × ((i : Text) → find_id i h.environments ≡ v i)

abbrev breaks_off : Turn → Bool
breaks_off breaks = true
breaks_off _ = false

pub corner-insert :
    (i name : Text) (c : Corner) (picture : Picture)
    → corner i (insert name c picture) ≡ (if text_eq name i then some c else corner i picture)
unfolding insert corner
corner-insert i name c [] = refl
corner-insert i name c ((n, d) ∷ picture) =
    ground (
      arith,
      corner-insert i name c picture,
      text_eq_iff n name,
      text_eq_iff n i,
      text_eq_iff name i,
    )

-- The corner after a repaint.
repainted :
    (name : Text) (h : HostInfo) (v : Text → Option EnvInfo) (picture : Picture)
    → Distinct h.environments
    → ((i : Text) → find_id i h.environments ≡ v i)
    → Shows name (updated name (some (sorted h)) picture).0 v
repainted name h v picture distinct there = (
  sorted h,
  corner-insert name name (ok (sorted h)) picture ∙ rw (text_eq_refl name) refl,
  sort_by_name-Distinct h.environments distinct,
  sort_by_name-IsSorted h.environments,
  λ i. find_id-sort_by_name i h.environments distinct ∙ there i,
)

hear-Shows :
    (name : Text) (said : FromServer Text) (picture : Picture) (v : Text → Option EnvInfo)
    → IsTold said
    → Shows name picture v
    → Shows name (hear name said picture).0 (announce said v)
      × (breaks_off (hear name said picture).1 ≡ false)
unfolding hear update
hear-Shows name (welcome version fresh) picture v told (h, there, d, s, shown) =
    rw there (repainted name fresh _ picture told (λ i. refl), refl)
hear-Shows name (opened channel e session) picture v told (h, there, d, s, shown) =
    rw there ((h, there, d, s, shown), refl)
hear-Shows name (closed channel reason) picture v told (h, there, d, s, shown) =
    rw there ((h, there, d, s, shown), refl)
hear-Shows name (FromServer.environment e) picture v told (h, there, d, s, shown) = rw there (
  repainted name (record h { environments = put_environment e h.environments }) _ picture
      (put_environment-Distinct e h.environments d)
      (λ i.
        find_id-put_environment i e h.environments
        ∙ ap (λ o. if text_eq e.id i then some e else o) (shown i)),
  refl,
)
hear-Shows name (environment_gone id) picture v told (h, there, d, s, shown) = rw there (
  repainted name (record h { environments = retain (λ e. not (has_id id e)) h.environments }) _
      picture (retain-Distinct id h.environments d)
      (λ i.
        find_id-retain i id h.environments ∙ ap (λ o. if text_eq id i then none else o) (shown i)),
  refl,
)
hear-Shows name (secrets names) picture v told (h, there, d, s, shown) =
    rw there ((h, there, d, s, shown), refl)
hear-Shows name (error e) picture v told (h, there, d, s, shown) =
    rw there ((h, there, d, s, shown), refl)
hear-Shows name stale picture v told (h, there, d, s, shown) = ((h, there, d, s, shown), refl)
hear-Shows name pong picture v told (h, there, d, s, shown) =
    rw there ((h, there, d, s, shown), refl)

go_on-first :
    (t : Turn) (picture : Picture) (rest : Picture × Result Text (Unit {0}))
    → breaks_off t ≡ false
    → go_on t picture rest ≡ rest
go_on-first describes picture rest h = refl
go_on-first ignores picture rest h = refl
go_on-first repaints picture rest h = refl
go_on-first breaks picture rest h = absurd (ground arith)

hear_all-Shows :
    (name : Text) (said : List (FromServer Text)) (ending : Option Text) (picture : Picture)
    → (v : Text → Option EnvInfo) → All IsTold said
    → Shows name picture v
    → Shows name (hear_all name said ending picture).0 (announce_all said v)
unfolding hear_all
hear_all-Shows name [] ending picture v told shows = shows
hear_all-Shows name (m ∷ more) ending picture v told shows =
    let (here, on) = hear-Shows name m picture v told.0 shows in
    rw
      (go_on-first (hear name m picture).1 (hear name m picture).0
        (hear_all name more ending (hear name m picture).0) on)
      (hear_all-Shows name more ending (hear name m picture).0 (announce m v) told.1 here)

-- While a machine is followed, from a description of it that is sorted and has no id twice: whatever it
-- says, and however the conversation ends, its corner shows exactly the environments that its messages
-- leave, each as it was last announced, none that is gone, none twice, in the order of their names. A
-- machine's later description of itself has no id twice either.
pub follow_once-Shows :
    (name : Text) (host : HostInfo) (said : List (FromServer Text)) (ending : Option Text)
    → (picture : Picture) → Distinct host.environments
    → IsSorted host.environments
    → All IsTold said
    → Shows name
        (follow_once name (ok host) said ending picture).0
        (announce_all said (λ i. find_id i host.environments))
unfolding follow_once
follow_once-Shows name host said ending picture distinct in_order told =
    hear_all-Shows name said ending (insert name (ok host) picture) _ told (
      host,
      corner-insert name name (ok host) picture ∙ rw (text_eq_refl name) refl,
      distinct,
      in_order,
      λ i. refl,
    )
