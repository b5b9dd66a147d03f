-- ===== src/Environment/Attaching.antt =====
-- What `attach` gives back, and what a session is started with.
use devpipe.Prelude.{
  zero, suc, ap, sym, append-nil, arith, ◌++◌, ◌∷◌, [], none, false, true, Bool, inr, inl, ◌↔◌, ◌∙◌,
  refl, any, Bool-cases, List, some, Option, ◌≡◌, ℕ, if◌then◌else◌,
}
use devpipe.Backend.{Entry, EnvSpec}
use devpipe.Prelude.Text.{codes, text_eq, Text}
use devpipe.Keeper.Link.{Detail}
use devpipe.Environment.{
  describe, keep, ready, not_started, stopped, timed_out, Ready, Error, no_keeper,
  stopped_before_start, not_up, settle, lend, at_least_one, forget, keeper_spec, start_session,
  resume, Room, Starting, attach,
}
use devpipe.Keeper.Sockets.{socket_name}
use devpipe.Keeper.Messages.{Spec}
use devpipe.Prelude.Result.{ok, err, Result}
use devpipe.Environment.Listing.{is_running, describe-sessions, is_none}
use devpipe.Proto.Messages.{EnvInfo}

abbrev pub is_alive : Option Detail → Bool
is_alive none = false
is_alive (some d) = d.running

module _ (spec : EnvSpec) (enter : EnvSpec → List Text → List (Text × Text) → Entry) where
  resume_named :
      (id : Text) (o : Option Detail) (room : Room)
      → let name = socket_name spec.id id in
        let after = resume spec enter id o room in
        ((after.1 ≡ ok id) ↔ (is_alive o ≡ true))
        × (after.0.keepers ≡ room.keepers)
        × (after.0.news ≡ room.news)
        × (after.0.sockets ≡ (if is_none o then forget name room.sockets else room.sockets))
  resume_named id none room = ((λ e. cc, λ e. cc), refl, refl, refl)
  resume_named id (some d) room = elim (Bool-cases d.running) [
    | inl on ↦ rw on ((λ e. refl, λ e. refl), refl, refl, refl)
    | inr off ↦ rw off ((λ e. cc, λ e. cc), refl, refl, refl)
  ]

  -- Naming a session never starts one. It is given back exactly where its keeper answers that the
  -- child is running; whatever the answer, no keeper is started and nothing is announced, and the
  -- sockets stay as they are but for the one named, which goes where nobody answers behind it.
  pub attach_named :
      (asks : Text → Option Detail) (start : Starting) (id : Text) (argv : List Text)
      (cols rows : ℕ) (room : Room)
      → let name = socket_name spec.id id in
        let after = attach spec enter asks start (some id) argv cols rows room in
        ((after.1 ≡ ok id) ↔ (is_alive (asks name) ≡ true))
        × (after.0.keepers ≡ room.keepers)
        × (after.0.news ≡ room.news)
        × (after.0.sockets
            ≡ (if is_none (asks name) then forget name room.sockets else room.sockets))
  unfolding attach
  attach_named asks start id argv cols rows room =
      resume_named id (asks (socket_name spec.id id)) room

  -- The secrets, and then the three variables that tell a session where it is.
  abbrev pub lent : List (Text × Text) → Text → List (Text × Text)
  lent secrets id =
      secrets
      ++ (codes "DEVPIPE", codes "1")
        ∷ (codes "DEVPIPE_SESSION", id)
        ∷ (codes "DEVPIPE_ENVIRONMENT", spec.name)
        ∷ []

  abbrev pub IsCommand : List Text → Spec → Type 0
  IsCommand [] given = given.argv ≡ given.entry.argv
  IsCommand (a ∷ argv) given = given.argv ≡ a ∷ argv

  abbrev pub IsSide : ℕ → ℕ → Type 0
  IsSide zero given = given ≡ 1
  IsSide (suc n) given = given ≡ suc n

  -- What the keeper of a new session is handed: the session's id, this environment's, the backend's
  -- way in for the command with the secrets and those variables, the command or else the way in's own,
  -- and a size of at least one by one.
  abbrev pub IsGiven : Starting → List Text → ℕ → ℕ → Spec → Type 0
  IsGiven start argv cols rows given =
      (given.id ≡ start.id)
      × (given.environment ≡ spec.id)
      × (given.entry ≡ enter spec argv (lent start.secrets start.id))
      × IsCommand argv given
      × IsSide cols given.cols
      × IsSide rows given.rows

  at_least_one-IsSide : (n : ℕ) → IsSide n (at_least_one spec n)
  at_least_one-IsSide zero = refl
  at_least_one-IsSide (suc n) = ground arith

  keeper_spec-IsGiven :
      (start : Starting) (argv : List Text) (cols rows : ℕ)
      → IsGiven start argv cols rows (keeper_spec spec enter start.secrets start.id argv cols rows)
  unfolding keeper_spec lend
  keeper_spec-IsGiven start [] cols rows =
      (refl, refl, refl, refl, at_least_one-IsSide cols, at_least_one-IsSide rows)
  keeper_spec-IsGiven start (a ∷ argv) cols rows =
      (refl, refl, refl, refl, at_least_one-IsSide cols, at_least_one-IsSide rows)

  -- What is said of a session that came up, where its keeper answers: the one announcement lists it.
  abbrev pub IsAnnounced : Starting → Room → Room → Type 0
  IsAnnounced start room after =
      (info : EnvInfo) × (after.news ≡ room.news ++ info ∷ [])
      × (any (λ s. text_eq s.id start.id) info.sessions
          ≡ any (is_running start.seen.asks spec.id start.id)
              (room.sockets ++ socket_name spec.id start.id ∷ []))

  abbrev pub started_for : Ready → Spec → List Spec
  started_for not_started given = []
  started_for _ given = given ∷ []

  abbrev pub Outcome : Ready → Starting → Room → Room × Result Error Text → Type 0
  Outcome ready start room (after, said) =
      (said ≡ ok start.id)
      × (after.watched ≡ room.watched ++ socket_name spec.id start.id ∷ [])
      × IsAnnounced start room after
  Outcome not_started start room (after, said) = (said ≡ err no_keeper) × (after ≡ room)
  Outcome (stopped bound) start room (after, said) =
      (said ≡ err stopped_before_start) × (after.watched ≡ room.watched) × (after.news ≡ room.news)
  Outcome (timed_out bound) start room (after, said) =
      (said ≡ err not_up) × (after.watched ≡ room.watched) × (after.news ≡ room.news)

  settled :
      (start : Starting) (outcome : Ready) (given : Spec) (room : Room)
      → given.id ≡ start.id
      → let after = settle spec enter start outcome given room in
        Outcome outcome start room after
        × (after.0.keepers ≡ room.keepers ++ started_for outcome given)
  settled start not_started given room same = ((refl, refl), sym (append-nil room.keepers))
  settled start (stopped bound) given room same = elim (Bool-cases bound) [
    | inl b ↦ rw b ((refl, refl, refl), refl)
    | inr b ↦ rw b ((refl, refl, refl), refl)
  ]
  settled start (timed_out bound) given room same = elim (Bool-cases bound) [
    | inl b ↦ rw b ((refl, refl, refl), refl)
    | inr b ↦ rw b ((refl, refl, refl), refl)
  ]
  settled start ready given room same =
      let watching = record (keep spec enter given true room) {
        watched = room.watched ++ socket_name spec.id given.id ∷ [];
      } in
      (
        (
          ap ok same,
          (unfold describe in ap (λ i. room.watched ++ socket_name spec.id i ∷ []) same),
          (
            (describe spec start.seen watching).1,
            (unfold describe in refl),
            describe-sessions spec start.seen watching start.id
                ∙ ap
                    (λ i.
                      any (is_running start.seen.asks spec.id start.id)
                        (room.sockets ++ socket_name spec.id i ∷ []))
                    same,
          ),
        ),
        (unfold describe in refl),
      )

  -- Starting a session, however its keeper comes up. At most one keeper is started, none where the
  -- process could not be: it is handed the session's id, the environment's, the command, a size of at
  -- least one by one, and the backend's way in with the host's secrets and the three variables that tell
  -- where the session is. Where it comes up the answer is the id, the session is watched, and one
  -- description is announced, which lists the session exactly if a socket of this environment, its own
  -- included, has a keeper that answers that this session is running. Otherwise the answer is the error
  -- that fits, and nothing is watched or announced.
  pub attach_new :
      (asks : Text → Option Detail) (start : Starting) (argv : List Text) (cols rows : ℕ)
      (room : Room)
      → let after = attach spec enter asks start none argv cols rows room in
        (given : Spec) × IsGiven start argv cols rows given
        × (after.0.keepers ≡ room.keepers ++ started_for start.outcome given)
        × Outcome start.outcome start room after
  unfolding attach start_session
  attach_new asks start argv cols rows room =
      let given = keeper_spec spec enter start.secrets start.id argv cols rows in
      let done = settled start start.outcome given room (unfold keeper_spec in refl) in
      (given, keeper_spec-IsGiven start argv cols rows, done.1, done.0)
