-- ===== src/Serve/Tests.antt =====
-- The theorems about a client's connection at a host without environments and one client.
mod Wire
use devpipe.Host
use devpipe.Environment
use devpipe.Serve
use devpipe.Proto.{control, data_frame, close_frame, Frame, encode, version}
use devpipe.Proto.Messages.{FromClient, opens, hello, ping, pty, FromServer, welcome, pong, error}
use devpipe.Host.{Backend, Host, Request}
use devpipe.Serve.Tests.Wire.{client_json}
use devpipe.Serve.{
  relay, Why, Conn, Given, Facts, closing, binary, Incoming, OpenPane, not_authorized, unauthorized,
}
use devpipe.Backend.{enter_local, running}
use devpipe.Prelude.{arith, ◌∷◌, [], List, some, none, false, true, refl, ◌≡◌, suc, ℕ}
use devpipe.Prelude.Text.{codes}
use devpipe.Host.Race.{Works}
use devpipe.Serve.Talk.{talk_on, talk}
use devpipe.Serve.Panes.{talk_on-IsOpen, IsOpen}
use devpipe.Serve.Feeding.{handle_frame-fed, fed_at}
use devpipe.Serve.Relaying.{relay-frames, closes_last}
use devpipe.Serve.Greeting.{talk-IsTurnedAway, IsTurnedAway, greets}
use devpipe.Environment.{ready}
use devpipe.Serve.Control.{handle_frame, handle_control}
use devpipe.Proto.Control.{json_of-control_frame, control_frame}
use devpipe.Prelude.Result.{ok}
use devpipe.Serve.Replies.{handle_control-said}
use devpipe.Proto.Codec.{decode-encode}

abbrev counting : Backend
counting = record {
  World = ℕ;
  kind = codes "docker";
  create = λ spec n. (suc n, true);
  start = λ spec n. (suc n, true);
  stop = λ spec n. (suc n, true);
  destroy = λ spec n. (suc n, true);
}

abbrev counting_works : Works counting
counting_works = record { creates = λ spec n. refl; starts = λ spec n. refl }

abbrev facts : Facts
facts = record { id = codes "h1"; hostname = codes "box"; token = codes "right" }

abbrev given : Given
given = record {
  sends = true;
  seen = λ id. record { status = some running; ports = none; asks = λ name. none };
  asks = λ name. none;
  session_id = codes "s1";
  outcome = ready;
  linked = true;
  feeds = true;
  saves = true;
  environment_id = codes "a1";
  workspaces = codes "/w";
  secrets_written = true;
  files = some true;
  runs = λ argv env. true;
}

abbrev pane : ℕ → OpenPane
pane k = record { channel = k; session = codes "s1"; fed = [] }

abbrev conn : List OpenPane → Conn counting
conn panes = record {
  host = record {
    image = codes "ubuntu:24.04";
    memory = none;
    environments = [];
    saved = [];
    world = 0;
    announced = [];
    closed = [];
  };
  secrets = none;
  room = record { sockets = []; keepers = []; killed = []; watched = []; news = [] };
  panes = panes;
  watching = false;
  said = [];
}

abbrev request : Request counting
request = record { name = codes "web"; image = none; ports = []; workspace = none; memory = none }

abbrev says : FromClient → Given × Incoming
says m = (given, binary (encode (control_frame client_json m)))

handle_control-said_example :
    (m : FromServer Why) × ((handle_control counting enter_local client_json facts given
        (control_frame client_json ping)
        (conn [])).1
      ≡ ok tt)
    × ((handle_control counting enter_local client_json facts given
          (control_frame client_json ping)
          (conn [])).0.said
        ≡ m ∷ [])
handle_control-said_example =
    handle_control-said counting enter_local client_json facts given
      (control_frame client_json ping) (conn [])

two-IsOpen : IsOpen (pane 1 ∷ pane 2 ∷ [])
unfolding IsOpen
two-IsOpen = ((λ e. ground arith), refl, ((λ e. ground arith), refl, tt))

talk_on-IsOpen_example :
    IsOpen
      (talk_on counting enter_local client_json facts
        ((given, binary (encode (close_frame 1))) ∷ says ping ∷ (given, closing) ∷ [])
        (conn (pane 1 ∷ pane 2 ∷ []))).0.panes
talk_on-IsOpen_example =
    talk_on-IsOpen counting enter_local client_json facts
      ((given, binary (encode (close_frame 1))) ∷ says ping ∷ (given, closing) ∷ [])
      (conn (pane 1 ∷ pane 2 ∷ [])) two-IsOpen

handle_frame-fed_example :
    fed_at 2
      (handle_frame counting enter_local client_json facts given
        (data_frame 2 (104 ∷ []))
        (conn (pane 1 ∷ pane 2 ∷ []))).0.panes
    ≡ some (data_frame control (104 ∷ []) ∷ [])
handle_frame-fed_example =
    (handle_frame-fed counting enter_local client_json facts given (data_frame 2 (104 ∷ []))
      (conn (pane 1 ∷ pane 2 ∷ [])) 2 (λ e. cc)).2

not_greeting :
    greets facts client_json (says (hello version (codes "wrong") []) ∷ says ping ∷ []) ≡ false
unfolding control_frame
not_greeting =
    let wrong = hello version (codes "wrong") [] in
    rw
      (
        decode-encode (control_frame client_json wrong) (omega arith),
        json_of-control_frame client_json wrong,
      )
      refl

talk-IsTurnedAway_example : IsTurnedAway counting enter_local client_json facts (conn []) (
    talk counting enter_local client_json facts
      (says (hello version (codes "wrong") []) ∷ says ping ∷ [])
      (conn []))
talk-IsTurnedAway_example =
    talk-IsTurnedAway counting enter_local client_json facts
      (says (hello version (codes "wrong") []) ∷ says ping ∷ []) (conn []) not_greeting
