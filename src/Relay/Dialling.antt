-- ===== src/Relay/Dialling.antt =====
-- The ends of devpipe/src/relay.rs that dial: a machine that enrols (`dial_out`, `enrolled`) and a client
-- that asks (`reach`, `online`), over what the relay's connection gives. Connecting, and serving on the
-- connection that answers a dial, are left out.
use devpipe.Proto
use devpipe.Proto.{encode, Frame, decode}
use devpipe.Proto.Control.{json_of}
use devpipe.Proto.Messages.{Json}
use devpipe.Relay.{FromRelay, Refusal, dial, reaching, online_now, error}
use devpipe.Prelude.{
  arith, ◌∷◌, [], List, some, ◌&&◌, not, false, true, Bool, refl, ◌≡◌, ◌<◌, ◌≤◌, ◌^◌, ◌*◌, ℕ, all,
  if◌then◌else◌, ltb,
}
use devpipe.Prelude.Result.{or_err, ok, err, Result}
use devpipe.Prelude.Text.{Text}
use devpipe.Proto.Codec.{decode-encode}

-- What the websocket gives.
pub data Heard : Type 0 where
  binary : (bytes : List ℕ) → Heard
  not_binary broken_off : Heard

pub data Error : Type 0 where
  refused : Refusal → Error
  broken not_a_frame not_a_message closed_early : Error

module _ (json : Json FromRelay) where
  abbrev pub message_in : Result Proto.Error Frame → Result Error FromRelay
  message_in (err e) = err not_a_frame
  message_in (ok frame) = or_err (json_of json frame) not_a_message

  abbrev pub dials_first :
      Text → List Text × Result Error (Unit {0}) → List Text × Result Error (Unit {0})
  dials_first ticket (tickets, result) = (ticket ∷ tickets, result)

  abbrev pub on_enrolled :
      Result Error FromRelay
      → List Text × Result Error (Unit {0})
      → List Text × Result Error (Unit {0})
  on_enrolled (err e) more = ([], err e)
  on_enrolled (ok (dial ticket)) more = dials_first ticket more
  on_enrolled (ok (error why)) more = ([], err (refused why))
  on_enrolled (ok _) more = more

  -- The loop of `enrolled`: the tickets that are answered, and how it ends.
  unfoldable pub stay_enrolled : List Heard → List Text × Result Error (Unit {0})
  stay_enrolled [] = ([], ok tt)
  stay_enrolled (not_binary ∷ heard) = stay_enrolled heard
  stay_enrolled (broken_off ∷ heard) = ([], err broken)
  stay_enrolled (binary bytes ∷ heard) =
      let more = stay_enrolled heard in on_enrolled (message_in (decode bytes)) more

  abbrev pub on_reaching :
      Result Error FromRelay → List Heard → Result Error (List Heard) → Result Error (List Heard)
  on_reaching (err e) heard more = err e
  on_reaching (ok (reaching machine)) heard more = ok heard
  on_reaching (ok (error why)) heard more = err (refused why)
  on_reaching (ok _) heard more = more

  -- `reach`: what the socket has for the client once it is put through.
  unfoldable pub reach : List Heard → Result Error (List Heard)
  reach [] = err closed_early
  reach (not_binary ∷ heard) = reach heard
  reach (broken_off ∷ heard) = err broken
  reach (binary bytes ∷ heard) =
      let more = reach heard in on_reaching (message_in (decode bytes)) heard more

  abbrev pub on_online :
      Result Error FromRelay → Result Error (List Text) → Result Error (List Text)
  on_online (err e) more = err e
  on_online (ok (online_now machines)) more = ok machines
  on_online (ok (error why)) more = err (refused why)
  on_online (ok _) more = more

  -- `online`
  unfoldable pub ask_online : List Heard → Result Error (List Text)
  ask_online [] = err closed_early
  ask_online (not_binary ∷ heard) = ask_online heard
  ask_online (broken_off ∷ heard) = err broken
  ask_online (binary bytes ∷ heard) =
      let more = ask_online heard in on_online (message_in (decode bytes)) more

  -- The relay's own frames stop where the host's begin: behind the `Reaching`, whatever comes is left for
  -- the caller.
  pub reach_rest :
      (frame : Frame) (machine : Text) (rest : List Heard)
      → frame.channel < 2 ^ 32
      → json_of json frame ≡ some (reaching machine)
      → reach (binary (encode frame) ∷ rest) ≡ ok rest
  unfolding reach
  reach_rest frame machine rest small is_reaching = rw (decode-encode frame small, is_reaching) refl

-- `min`
abbrev pub at_most_minute : ℕ → ℕ
at_most_minute n = if ltb 60 n then 60 else n

-- The seconds that `dial_out` sleeps after each connection; `true` is one that the relay closed.
unfoldable pub sleeps : ℕ → List Bool → List ℕ
sleeps backoff [] = []
sleeps backoff (true ∷ ended) = 1 ∷ sleeps (at_most_minute 2) ended
sleeps backoff (false ∷ ended) = backoff ∷ sleeps (at_most_minute (backoff * 2)) ended

abbrev pub is_patient : ℕ → Bool
is_patient n = ltb 0 n && not (ltb 60 n)

-- However often the relay is lost, the machine waits between a second and a minute before it dials again.
pub sleeps-is_patient :
    (backoff : ℕ) (ended : List Bool)
    → 0 < backoff
    → backoff ≤ 60
    → all is_patient (sleeps backoff ended) ≡ true
unfolding sleeps
sleeps-is_patient backoff [] low high = refl
sleeps-is_patient backoff (true ∷ ended) low high =
    sleeps-is_patient 2 ended (omega arith) (omega arith)
sleeps-is_patient backoff (false ∷ ended) low high = ground (
  arith,
  sleeps-is_patient (at_most_minute (backoff * 2)) ended (ground (arith, low)) (ground arith),
)
