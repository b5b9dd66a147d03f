-- ===== src/Client.antt =====
-- devpipe/src/client.rs: the greeting from the client's side, over the frames that the host sends.
pub mod Welcome
use devpipe.Proto
use devpipe.Proto.{control, Frame}
use devpipe.Proto.Control.{json_of}
use devpipe.Proto.Messages.{FromServer, welcome, error, HostInfo, Json}
use devpipe.Prelude.{◌∷◌, [], List, some, none, Option, if◌then◌else◌, ◌==◌}
use devpipe.Prelude.Result.{ok, err, Result}

pub data Error {ℓ} (E : Type ℓ) : Type ℓ where
  refused : E → Error E
  not_greeted bad_message : Error E

module _ {ℓ} {E : Type ℓ} (json : Json (FromServer E)) where
  abbrev pub message_of : Option (FromServer E) → Result (Error E) (Option (FromServer E))
  message_of none = err bad_message
  message_of (some m) = ok (some m)

  -- `Client::control`
  unfoldable pub next_control : List Frame → Result (Error E) (Option (FromServer E))
  next_control [] = ok none
  next_control (frame ∷ frames) =
      let later = next_control frames in
      if frame.channel == control then message_of (json_of json frame) else later

  abbrev pub greeted_back : Result (Error E) (Option (FromServer E)) → Result (Error E) HostInfo
  greeted_back (err e) = err e
  greeted_back (ok (some (welcome version host))) = ok host
  greeted_back (ok (some (error e))) = err (refused e)
  greeted_back (ok _) = err not_greeted

  -- `Client::over`, once its `Hello` is sent.
  unfoldable pub over : List Frame → Result (Error E) HostInfo
  over frames = greeted_back (next_control frames)
