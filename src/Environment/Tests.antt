-- ===== src/Environment/Tests.antt =====
-- An environment with one running session, one dead socket, and another environment's.
use devpipe.Backend.{running}
use Prim.Native.String.{String}
use devpipe.Keeper.Link.{Detail}
use devpipe.Environment.{ready, look, Starting, Seen, Room, describe, attach}
use devpipe.Backend.{EnvSpec, enter_local}
use devpipe.Prelude.{◌++◌, ◌∷◌, [], some, none, Option, true, ◌≢◌, refl, ◌≡◌, any, if◌then◌else◌}
use devpipe.Prelude.Text.{text_eq_iff, text_eq, codes, Text}
use devpipe.Keeper.Sockets.{strip_suffix, sockets_for, session_of}
use devpipe.Environment.Listing.{describe-sessions, is_running}
use devpipe.Environment.Attaching.{attach_new, IsGiven, Outcome}
use devpipe.Keeper.Messages.{Spec}

abbrev web : EnvSpec
web = record {
  id = codes "a1";
  name = codes "web";
  backend = codes "local";
  image = codes "host";
  workspace = codes "/w/a1";
  ports = [];
  memory = none;
}

abbrev shell_detail : String → Detail
shell_detail id = record {
  id = codes id;
  argv = codes "sh" ∷ [];
  title = [];
  cols = 80;
  rows = 24;
  running = true;
}

-- Only the keeper of `s1` and the new one answer.
abbrev answers : Text → Option Detail
answers name =
    if text_eq name (codes "a1-s1.sock")
    then some (shell_detail "s1")
    else if text_eq name (codes "a1-s3.sock")
    then some (shell_detail "s3")
    else none

abbrev room : Room
room = record {
  sockets = codes "a1-s1.sock" ∷ codes "b2-s9.sock" ∷ codes "a1-s2.sock" ∷ [];
  keepers = [];
  killed = [];
  watched = [];
  news = [];
}

abbrev seen : Seen
seen = record { status = some running; ports = some []; asks = answers }

abbrev starting : Starting
starting = record {
  id = codes "s3";
  secrets = (codes "KEY", codes "v") ∷ [];
  outcome = ready;
  seen = seen;
}

removed : (describe web seen room).0.sockets ≡ codes "a1-s1.sock" ∷ codes "b2-s9.sock" ∷ []
unfolding describe look sockets_for session_of strip_suffix
removed = refl

a1-ne-b2 : codes "a1" ≢ codes "b2"
a1-ne-b2 e = cc ((text_eq_iff (codes "a1") (codes "b2")).1 e)

describe-sessions_example :
    any (λ s. text_eq s.id (codes "s1")) (describe web seen room).1.sessions
    ≡ any (is_running answers (codes "a1") (codes "s1")) room.sockets
describe-sessions_example = describe-sessions web seen room (codes "s1")

attach_new_example :
    let after = attach web enter_local answers starting none [] 80 24 room in
    (given : Spec) × IsGiven web enter_local starting [] 80 24 given
    × (after.0.keepers ≡ [] ++ given ∷ [])
    × Outcome web enter_local ready starting room after
attach_new_example = attach_new web enter_local answers starting [] 80 24 room
