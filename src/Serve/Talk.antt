-- ===== src/Serve/Talk.antt =====
-- `talk` and `converse` of devpipe/src/serve.rs: the greeting, and the loop over what the client says.
use devpipe.Proto
use devpipe.Backend.{EnvSpec, Entry}
use devpipe.Proto.{decode, version, Frame}
use devpipe.Host.{Backend}
use devpipe.Proto.Messages.{hello, FromClient, Json}
use devpipe.Serve.Control.{handle_frame, welcome_client}
use devpipe.Serve.{
  closed_before_hello, expected_hello, broken, not_a_frame, Incoming, Conn, Given, Handled, Facts,
  not_authorized, unauthorized, refuse, other_version, version_mismatch, want_hello, closing,
  broken_off, other, binary,
}
use devpipe.Prelude.{◌∷◌, [], List, some, none, Option, false, true, Bool, if◌then◌else◌, ◌==◌}
use devpipe.Prelude.Text.{text_eq, Text}
use devpipe.Prelude.Result.{ok, Result, err}
use devpipe.Proto.Control.{json_of}

module _ (b : Backend) (enter : EnvSpec → List Text → List (Text × Text) → Entry)
    (json : Json FromClient) (facts : Facts) where
  abbrev pub then_go : Handled b → (Conn b → Handled b) → Handled b
  then_go (c, err e) f = (c, err e)
  then_go (c, ok _) f = f c

  abbrev pub go_on : Result Proto.Error Frame → Given → Conn b → (Conn b → Handled b) → Handled b
  go_on (err e) g c f = (c, err not_a_frame)
  go_on (ok frame) g c f = then_go (handle_frame b enter json facts g frame c) f

  -- The loop of `talk`, with what the world gives at each message.
  unfoldable pub talk_on : List (Given × Incoming) → Conn b → Handled b
  talk_on [] c = (c, ok tt)
  talk_on ((g, closing) ∷ rest) c = (c, ok tt)
  talk_on ((g, broken_off) ∷ rest) c = (c, err broken)
  talk_on ((g, other) ∷ rest) c = talk_on rest c
  talk_on ((g, binary bytes) ∷ rest) c = go_on (decode bytes) g c (talk_on rest)

  abbrev pub authorized : Given → Bool → Conn b → (Conn b → Handled b) → Handled b
  authorized g true c f = then_go (welcome_client b enter json facts g c) f
  authorized g false c f = refuse b g not_authorized unauthorized c

  abbrev pub greeted : Given → Option FromClient → Conn b → (Conn b → Handled b) → Handled b
  greeted g none c f = (c, err expected_hello)
  greeted g (some (hello v token client)) c f =
      if v == version
      then authorized g (text_eq facts.token token) c f
      else refuse b g (other_version v) version_mismatch c
  greeted g (some _) c f = refuse b g want_hello expected_hello c

  abbrev pub greeted_by :
      Given → Result Proto.Error Frame → Conn b → (Conn b → Handled b) → Handled b
  greeted_by g (err e) c f = (c, err not_a_frame)
  greeted_by g (ok frame) c f = greeted g (json_of json frame) c f

  unfoldable pub talk : List (Given × Incoming) → Conn b → Handled b
  talk [] c = (c, err closed_before_hello)
  talk ((g, closing) ∷ rest) c = (c, err closed_before_hello)
  talk ((g, broken_off) ∷ rest) c = (c, err broken)
  talk ((g, other) ∷ rest) c = talk rest c
  talk ((g, binary bytes) ∷ rest) c = greeted_by g (decode bytes) c (talk_on rest)

  -- `converse`: at the end the client's panes are let go of; their sessions stay.
  unfoldable pub converse : List (Given × Incoming) → Conn b → Handled b
  converse messages c =
      let (after, result) = talk messages c in
      (record after { panes = []; watching = false }, result)
