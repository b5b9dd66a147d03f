-- ===== src/Backend/Docker/Lifecycle.antt =====
-- What the calls leave of a container, on a runtime that does what its manual says of the commands
-- that are used.
use devpipe.Backend.Docker.{
  start, create, read_status, create_argv, verb_argv, remove_argv, inspect_argv, Runtime, destroy,
  status, when_absent, and_then, succeeded,
}
use devpipe.Prelude.{
  ap, ◌∙◌, Bool-cases, inr, inl, ◌⊎◌, ◌≢◌, ◌++◌, ◌∷◌, [], some, none, Option, false, true, Bool,
  sym, refl, ◌≡◌,
}
use devpipe.Backend.{stopped, running, absent, EnvSpec, Status}
use devpipe.Prelude.Text.{codes, Text}
use devpipe.Prelude.Text.Trim.{trim}

-- What `inspect` prints of a container; it fails for one that is not there.
abbrev pub printed : Status → Option Text
printed absent = none
printed stopped = some (codes "false" ++ 10 ∷ [])
printed running = some (codes "true" ++ 10 ∷ [])

pub record Obeys (cli : Text) (rt : Runtime) (spec : EnvSpec) (state : rt.World → Status)
    : Type 0 where
  pub inspects : (w : rt.World) → rt.output (inspect_argv cli spec) w ≡ (w, printed (state w))
  pub creates :
      (w : rt.World)
      → state w ≡ absent
      → (succeeded cli rt (rt.output (create_argv cli spec) w)).1 ≡ true
      → state (rt.output (create_argv cli spec) w).0 ≡ stopped
  pub starts :
      (w : rt.World)
      → state w ≢ absent
      → (succeeded cli rt (rt.output (verb_argv cli (codes "start") spec) w)).1 ≡ true
      → state (rt.output (verb_argv cli (codes "start") spec) w).0 ≡ running
  -- There is nothing to start.
  pub no_such :
      (w : rt.World)
      → state w ≡ absent
      → (succeeded cli rt (rt.output (verb_argv cli (codes "start") spec) w)).1 ≡ false
  pub removes :
      (w : rt.World)
      → (succeeded cli rt (rt.output (remove_argv cli spec) w)).1 ≡ true
      → state (rt.output (remove_argv cli spec) w).0 ≡ absent

module _ (cli : Text) (rt : Runtime) (spec : EnvSpec) (state : rt.World → Status)
    (obeys : Obeys cli rt spec state) where
  succeeded-world : (r : rt.World × Option Text) → (succeeded cli rt r).0 ≡ r.0
  succeeded-world (w, none) = refl
  succeeded-world (w, some _) = refl

  read_status-printed : (s : Status) → read_status cli rt (printed s) ≡ s
  unfolding trim
  read_status-printed absent = refl
  read_status-printed stopped = refl
  read_status-printed running = refl

  status-state : (w : rt.World) → status cli rt spec w ≡ (w, state w)
  unfolding status
  status-state w = rw (obeys.inspects w, read_status-printed (state w)) refl

  destroy-absent_when :
      (w : rt.World) (s : Status)
      → s ≡ state w
      → (when_absent cli rt
          (λ w. (w, true))
          (λ w. succeeded cli rt (rt.output (remove_argv cli spec) w))
          (w, s)).1
        ≡ true
      → state
          (when_absent cli rt
            (λ w. (w, true))
            (λ w. succeeded cli rt (rt.output (remove_argv cli spec) w))
            (w, s)).0
        ≡ absent
  destroy-absent_when w absent same h = sym same
  destroy-absent_when w stopped same h =
      rw (succeeded-world (rt.output (remove_argv cli spec) w)) (obeys.removes w h)
  destroy-absent_when w running same h =
      rw (succeeded-world (rt.output (remove_argv cli spec) w)) (obeys.removes w h)

  -- Where `destroy` succeeds, the container is gone, whatever it was before.
  pub destroy-absent :
      (w : rt.World) → (destroy cli rt spec w).1 ≡ true → state (destroy cli rt spec w).0 ≡ absent
  unfolding destroy
  destroy-absent w h =
      rw (status-state w) (destroy-absent_when w (state w) refl (rw (status-state w) at h))

  abbrev pub RefusesCreate : rt.World → Type 0
  RefusesCreate w = (succeeded cli rt (rt.output (create_argv cli spec) w)).1 ≡ false

  abbrev pub RefusesStart : rt.World → Type 0
  RefusesStart w = (succeeded cli rt (rt.output (verb_argv cli (codes "start") spec) w)).1 ≡ false

  -- The world that it was called in, or the one that creating the container left.
  abbrev pub IsTried : rt.World → rt.World → Type 0
  IsTried w v = (v ≡ w) ⊎ ((state w ≡ absent) × (v ≡ (rt.output (create_argv cli spec) w).0))

  -- Why a `start` fails: the workspace cannot be made for a container that is not there; the runtime
  -- refuses to create one that is not there; or it refuses to start one that is there.
  abbrev pub Excuse : Bool → rt.World → Type 0
  Excuse makes w =
      ((makes ≡ false) × (state w ≡ absent))
      ⊎ ((state w ≡ absent) × RefusesCreate w)
      ⊎ ((v : rt.World) × (state v ≢ absent) × IsTried w v × RefusesStart v)

  abbrev pub Started : Bool → rt.World → rt.World × Bool → Type 0
  Started makes w after =
      ((after.1 ≡ true) × (state after.0 ≡ running)) ⊎ ((after.1 ≡ false) × Excuse makes w)

  create_there :
      (w : rt.World) (s : Status) → state w ≡ s → s ≢ absent → create cli rt true spec w ≡ (w, true)
  unfolding create
  create_there w absent same there = absurd (there refl)
  create_there w stopped same there = rw (status-state w, same) refl
  create_there w running same there = rw (status-state w, same) refl

  create_absent :
      (w : rt.World)
      → state w ≡ absent
      → create cli rt true spec w ≡ succeeded cli rt (rt.output (create_argv cli spec) w)
  unfolding create
  create_absent w same = rw (status-state w, same) refl

  -- A container that is there.
  go-Started :
      (makes : Bool) (v w : rt.World)
      → state w ≢ absent
      → IsTried v w
      → Started makes v (succeeded cli rt (rt.output (verb_argv cli (codes "start") spec) w))
  go-Started makes v w there tried =
      let r = rt.output (verb_argv cli (codes "start") spec) w in
      elim (Bool-cases (succeeded cli rt r).1) [
        | inl done ↦ inl (done, rw (succeeded-world r) (obeys.starts w there done))
        | inr refused ↦ inr (refused, inr (inr (w, there, tried, refused)))
      ]

  abbrev go : rt.World → rt.World × Bool
  go w = succeeded cli rt (rt.output (verb_argv cli (codes "start") spec) w)

  -- What comes of a container that was just created, or was not.
  and_then-Started :
      (w : rt.World) (r : rt.World × Option Text)
      → state w ≡ absent
      → r ≡ rt.output (create_argv cli spec) w
      → Started true w (and_then cli rt go (succeeded cli rt r))
  and_then-Started w (v, none) gone same =
      inr (refl, inr (inl (gone, ap (λ r. (succeeded cli rt r).1) (sym same))))
  and_then-Started w (v, some said) gone same =
      let fresh = obeys.creates w gone (ap (λ r. (succeeded cli rt r).1) (sym same)) in
      let stops : state v ≡ stopped = ap (λ r. state r.0) same ∙ fresh in
      go-Started true w v (λ e. cc (stops, e)) (inr (gone, ap (λ r. r.0) same))

  made-Started :
      (makes : Bool) (w : rt.World)
      → state w ≡ absent
      → Started makes w (and_then cli rt go (create cli rt makes spec w))
  unfolding create
  made-Started false w gone = inr (refl, inl (refl, gone))
  made-Started true w gone =
      rw (create_absent w gone) (and_then-Started w (rt.output (create_argv cli spec) w) gone refl)

  start-Started_when :
      (makes : Bool) (w : rt.World) (s : Status)
      → state w ≡ s
      → Started makes w
          (when_absent cli rt (λ w. and_then cli rt go (create cli rt makes spec w)) go (w, s))
  start-Started_when makes w absent same = made-Started makes w same
  start-Started_when makes w stopped same = go-Started makes w w (λ e. cc (same, e)) (inl refl)
  start-Started_when makes w running same = go-Started makes w w (λ e. cc (same, e)) (inl refl)

  -- A `start` succeeds, and then the container runs, whether it was absent, stopped or running before;
  -- or it fails, and then either there was no container, and its workspace could not be made or the
  -- runtime refused to create it, or the runtime refused to start one that was there. (A container that
  -- is not there is created first: the runtime cannot start it.)
  pub start-running :
      (makes : Bool) (w : rt.World)
      → let after = start cli rt makes spec w in
        ((after.1 ≡ true) × (state after.0 ≡ running)) ⊎ ((after.1 ≡ false) × Excuse makes w)
  unfolding start
  start-running makes w = rw (status-state w) (start-Started_when makes w (state w) refl)

  Status-cases : (s : Status) → (s ≡ absent) ⊎ (s ≢ absent)
  Status-cases absent = inl refl
  Status-cases stopped = inr (λ e. cc e)
  Status-cases running = inr (λ e. cc e)

  -- A second `create` after one that succeeds does nothing and succeeds.
  pub create-create :
      (w : rt.World)
      → (create cli rt true spec w).1 ≡ true
      → create cli rt true spec (create cli rt true spec w).0
        ≡ ((create cli rt true spec w).0, true)
  create-create w h = elim (Status-cases (state w)) [
    | inl gone ↦
        let made = create_absent w gone in
        let fresh = obeys.creates w gone (rw made at h) in
        rw (made, succeeded-world (rt.output (create_argv cli spec) w))
          (create_there (rt.output (create_argv cli spec) w).0 stopped fresh (λ e. cc e))
    | inr there ↦ let kept = create_there w (state w) refl there in rw (kept, kept) refl
  ]
