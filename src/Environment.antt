-- ===== src/Environment.antt =====
-- devpipe/src/environment.rs: one environment, and the sessions that keepers hold for it. What a
-- keeper answers, what the backend says of its status and ports, the id that is drawn and how a
-- keeper comes up are arguments; `enter` is the backend's. The broadcast channel is the list of what
-- was sent on it.
pub mod Listing
pub mod Attaching
mod Tests
use devpipe.Prelude.{
  false, true, get_or, map, ◌++◌, ◌∷◌, [], List, some, none, Option, not, Bool, ℕ, retain,
  if◌then◌else◌, ltb,
}
use devpipe.Prelude.Text.{codes, text_leb, text_eq, Text}
use devpipe.Backend.{as_str, Entry, EnvSpec, Status}
use devpipe.Proto.Messages.{EnvInfo, PortMap, SessionInfo}
use devpipe.Keeper.Messages.{Spec}
use devpipe.Keeper.Link.{Detail, Stirred, titled, ended}
use devpipe.Keeper.Sockets.{socket_name, sockets_for}
use devpipe.Prelude.Result.{ok, err, Result}

pub data Error : Type 0 where
  session_finished no_such_session : Error
  no_keeper stopped_before_start not_up : Error
  workspace_unreadable workspace_not_empty clone_failed : Error

-- What the calls change: the sockets in the runtime directory, the keepers started and told to end,
-- the sessions watched, and what was announced.
pub record Room : Type 0 where
  pub sockets : List Text
  pub keepers : List Spec
  pub killed : List Text
  pub watched : List Text
  pub news : List EnvInfo

-- What is seen of the world while one call runs: `asks` is `Link::detail` on the socket of that name.
pub record Seen : Type 0 where
  pub status : Option Status
  pub ports : Option (List PortMap)
  pub asks : Text → Option Detail

-- What becomes of the keeper that is started; it binds its socket before it says that it is ready.
pub data Ready : Type 0 where
  ready not_started : Ready
  stopped timed_out : (bound : Bool) → Ready

pub record Starting : Type 0 where
  pub id : Text
  pub secrets : List (Text × Text)
  pub outcome : Ready
  pub seen : Seen

abbrev pub forget : Text → List Text → List Text
forget name = retain (λ n. not (text_eq n name))

abbrev pub info_of : Detail → SessionInfo
info_of d = record { id = d.id; title = d.title; cols = d.cols; rows = d.rows; argv = d.argv }

abbrev pub insert_session : SessionInfo → List SessionInfo → List SessionInfo
insert_session s [] = s ∷ []
insert_session s (t ∷ ts) = if text_leb s.id t.id then s ∷ t ∷ ts else t ∷ insert_session s ts

abbrev pub sort_sessions : List SessionInfo → List SessionInfo
sort_sessions [] = []
sort_sessions (s ∷ ss) = insert_session s (sort_sessions ss)

abbrev pub status_text : Option Status → Text
status_text none = codes "unknown"
status_text (some s) = as_str s

-- The loop of `describe` over the links: a running session is listed, a finished one is not, and a
-- socket behind which nobody answers is removed.
abbrev pub one_link :
    Option Detail → Text → List SessionInfo × List Text → List SessionInfo × List Text
one_link none name (sessions, sockets) = (sessions, forget name sockets)
one_link (some d) name (sessions, sockets) =
    ((if d.running then sessions ++ info_of d ∷ [] else sessions), sockets)

unfoldable pub look :
    (Text → Option Detail)
    → List (Text × Text)
    → List SessionInfo × List Text
    → List SessionInfo × List Text
look asks [] found = found
look asks ((_, name) ∷ links) found = look asks links (one_link (asks name) name found)

abbrev or_entry : List Text → List Text → List Text
or_entry [] entry = entry
or_entry (a ∷ argv) entry = a ∷ argv

module _ (spec : EnvSpec) where
  abbrev pub links : Room → List (Text × Text)
  links room = sockets_for room.sockets spec.id

  unfoldable pub describe : Seen → Room → Room × EnvInfo
  describe seen room =
      let (sessions, sockets) = look seen.asks (links room) ([], room.sockets) in
      (
        record room { sockets = sockets },
        record {
          id = spec.id;
          name = spec.name;
          backend = spec.backend;
          image = spec.image;
          status = status_text seen.status;
          workspace = spec.workspace;
          memory = spec.memory;
          ports = get_or [] seen.ports;
          sessions = sort_sessions sessions;
        },
      )

  -- `news.send(FromServer::Environment { environment: self.describe() })`
  abbrev pub announce : Seen → Room → Room
  announce seen room =
      let (room', info) = describe seen room in record room' { news = room'.news ++ info ∷ [] }

  -- `close`: a kill for each link, whatever comes of it.
  unfoldable pub close : Room → Room
  close room = record room { killed = room.killed ++ map (λ l. l.1) (links room) }

  -- `watch_what_is_already_running`
  unfoldable pub adopt : Room → Room
  adopt room = record room { watched = room.watched ++ map (λ l. l.1) (links room) }

  -- The task of `watch`, once it is connected: what the keeper is heard to do, with what is seen then.
  unfoldable pub watch : List (Stirred × Seen) → Seen → Room → Room
  watch [] at_end room = announce at_end room
  watch ((ended, seen) ∷ more) at_end room = announce seen room
  watch ((titled title, seen) ∷ more) at_end room = watch more at_end (announce seen room)

  unfoldable pub lend : List (Text × Text) → Text → List (Text × Text)
  lend secrets session =
      secrets
      ++ (codes "DEVPIPE", codes "1")
        ∷ (codes "DEVPIPE_SESSION", session)
        ∷ (codes "DEVPIPE_ENVIRONMENT", spec.name)
        ∷ []

  abbrev pub at_least_one : ℕ → ℕ
  at_least_one n = if ltb n 1 then 1 else n

  module _ (enter : EnvSpec → List Text → List (Text × Text) → Entry) where
    unfoldable pub keeper_spec : List (Text × Text) → Text → List Text → ℕ → ℕ → Spec
    keeper_spec secrets id argv cols rows =
        let entry = enter spec argv (lend secrets id) in
        record {
          id = id;
          environment = spec.id;
          argv = or_entry argv entry.argv;
          entry = entry;
          cols = at_least_one cols;
          rows = at_least_one rows;
        }

    abbrev bind_socket : Bool → Text → Room → Room
    bind_socket bound id room =
        if bound
        then record room { sockets = room.sockets ++ socket_name spec.id id ∷ [] }
        else room

    abbrev pub keep : Spec → Bool → Room → Room
    keep s bound room = bind_socket bound s.id (record room { keepers = room.keepers ++ s ∷ [] })

    abbrev pub settle : Starting → Ready → Spec → Room → Room × Result Error Text
    settle start not_started s room = (room, err no_keeper)
    settle start (stopped bound) s room = (keep s bound room, err stopped_before_start)
    settle start (timed_out bound) s room = (keep s bound room, err not_up)
    settle start ready s room =
        let kept = keep s true room in
        let watching = record kept { watched = room.watched ++ socket_name spec.id s.id ∷ [] } in
        (announce start.seen watching, ok s.id)

    unfoldable pub start_session : Starting → List Text → ℕ → ℕ → Room → Room × Result Error Text
    start_session start argv cols rows room =
        settle start start.outcome (keeper_spec start.secrets start.id argv cols rows) room

    abbrev pub resume : Text → Option Detail → Room → Room × Result Error Text
    resume id none room = (
      record room { sockets = forget (socket_name spec.id id) room.sockets },
      err no_such_session,
    )
    resume id (some d) room = (room, (if d.running then ok id else err session_finished))

    -- The session's id stands for the `Link`.
    unfoldable pub attach :
        (Text → Option Detail)
        → Starting
        → Option Text
        → List Text
        → ℕ
        → ℕ
        → Room
        → Room × Result Error Text
    attach asks start (some id) argv cols rows room = resume id (asks (socket_name spec.id id)) room
    attach asks start none argv cols rows room = start_session start argv cols rows room

  -- `clone_repo`: `files` says whether the workspace can be read and has anything in it, and `run` is
  -- `run_inside`, for an argv and the secrets.
  unfoldable pub clone_repo :
      Option Bool
      → (List Text → List (Text × Text) → Bool)
      → List (Text × Text)
      → Text
      → Result Error (Unit {0})
  clone_repo none run secrets repo = err workspace_unreadable
  clone_repo (some true) run secrets repo = err workspace_not_empty
  clone_repo (some false) run secrets repo =
      if run (codes "git" ∷ codes "clone" ∷ codes "--" ∷ repo ∷ codes "." ∷ []) secrets
      then ok tt
      else err clone_failed
