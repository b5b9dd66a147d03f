-- ===== src/Serve.antt =====
-- devpipe/src/serve.rs: one client's connection. The state is what the connection has (its open panes,
-- whether it watches, what was queued for the client) and what it shares with the others (the host,
-- the file of secrets, the runtime directory). The backend, what the keepers answer, and how each
-- send, write and start comes out are arguments. A handler runs to its end before the next frame is
-- read, as `talk` awaits it; the tasks that carry output (`relay`, `forward_news`) are functions of
-- what they receive.
pub mod Control
pub mod Talk
pub mod Replies
pub mod Panes
pub mod Feeding
pub mod Relaying
pub mod Greeting
pub mod Making
mod Tests
use devpipe.Host
use devpipe.Environment
use devpipe.Secrets
use devpipe.Proto
use devpipe.Backend.{EnvSpec, Entry}
use devpipe.Proto.{close_frame, decode, close_op, data_op, event, version, Op, control}
use devpipe.Prelude.{
  map, none, false, true, ◌++◌, ◌∷◌, [], List, some, Option, ◌||◌, not, Bool, ℕ, any, retain,
  if◌then◌else◌, ◌==◌,
}
use devpipe.Prelude.Text.{text_eq, codes, Text}
use devpipe.Proto.{close_op, data_op, event, Frame}
use devpipe.Host.{sort_by_name, Request, Host, Backend}
use devpipe.Keeper.Link.{Detail}
use devpipe.Environment.{clone_repo, Room, Starting, Ready, Seen}
use devpipe.Proto.Messages.{
  pong, remove_secret, set_secret, destroy_environment, stop_environment, start_environment,
  create_environment, welcome, EnvInfo, pty, Pane, FromServer, FromClient, Json, error, opened,
  environment, environment_gone, secrets, opens, closes, hello, watch, ping, describe, closed,
  stale, list_secrets,
}
use devpipe.Prelude.Result.{ok, err, Result}
use devpipe.Secrets.{load}
use devpipe.Proto.Control.{json_of}

pub data Why : Type 0 where
  not_available : (channel : ℕ) → Why
  by_host : Host.Error → Why
  by_environment : Environment.Error → Why
  by_secrets : Secrets.Error → Why
  no_secret : (key : Text) → Why
  link_gone : (session : Text) → Why
  not_a_message already_greeted want_hello not_authorized : Why
  other_version : (theirs : ℕ) → Why

-- What ends a conversation with an error.
pub data Stop : Type 0 where
  closed_before_hello expected_hello version_mismatch unauthorized : Stop
  not_a_frame broken queue_closed : Stop

-- The session, and the frames that were put into the channel toward it.
pub record OpenPane : Type 0 where
  pub channel : ℕ
  pub session : Text
  pub fed : List Frame

-- What the world gives while one frame is handled; a request that looks at a thing twice finds it the
-- same.
pub record Given : Type 0 where
  pub sends : Bool
  pub seen : Text → Seen
  pub asks : Text → Option Detail
  pub session_id : Text
  pub outcome : Ready
  pub linked : Bool
  pub feeds : Bool
  pub saves : Bool
  pub environment_id : Text
  pub workspaces : Text
  pub secrets_written : Bool
  pub files : Option Bool
  pub runs : List Text → List (Text × Text) → Bool

-- What does not change while the host runs.
pub record Facts : Type 0 where
  pub id : Text
  pub hostname : Text
  pub token : Text

abbrev pub at_channel : ℕ → OpenPane → Bool
at_channel channel p = p.channel == channel

abbrev pub has_pane : ℕ → List OpenPane → Bool
has_pane channel = any (at_channel channel)

abbrev pub without_pane : ℕ → List OpenPane → List OpenPane
without_pane channel = retain (λ p. not (at_channel channel p))

-- The keeper has one pane and numbers it zero.
abbrev pub feed_pane : ℕ → Frame → OpenPane → OpenPane
feed_pane channel frame p =
    if at_channel channel p
    then record p { fed = p.fed ++ record frame { channel = control } ∷ [] }
    else p

-- A message of the websocket, or what its stream says instead.
pub data Incoming : Type 0 where
  binary : (bytes : List ℕ) → Incoming
  closing other broken_off : Incoming

module _ (b : Backend) where
  pub record Conn : Type 0 where
    pub host : Host b
    pub secrets : Option Text
    pub room : Room
    pub panes : List OpenPane
    pub watching : Bool
    pub said : List (FromServer Why)

  abbrev pub Handled : Type 0
  Handled = Conn × Result Stop (Unit {0})

  abbrev pub say : Given → FromServer Why → Conn → Handled
  say g m c =
      if g.sends then (record c { said = c.said ++ m ∷ [] }, ok tt) else (c, err queue_closed)

  -- `let _ =`: a refusal that cannot be queued is dropped.
  abbrev pub refuse : Given → Why → Stop → Conn → Handled
  refuse g why stop c = ((say g (error why) c).0, err stop)

abbrev pub unless_ending : Op → List Frame → List Frame
unless_ending close_op rest = []
unless_ending _ rest = rest

-- `relay`: one session's output to the client, as far as its first `Close`; a `Close` is made up where
-- the socket goes without one.
unfoldable pub relay : ℕ → List Frame → List Frame
relay channel [] = close_frame channel ∷ []
relay channel (frame ∷ frames) =
    let rest = relay channel frames in
    record frame { channel = channel } ∷ unless_ending frame.op rest

-- What a receiver of the broadcast channel yields.
pub data Received : Type 0 where
  news : FromServer Why → Received
  lagged : Received

-- `forward_news`, until the channel closes.
unfoldable pub forward_news : List Received → List (FromServer Why)
forward_news [] = []
forward_news (news m ∷ more) = m ∷ forward_news more
forward_news (lagged ∷ more) = stale ∷ forward_news more
