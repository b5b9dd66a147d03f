-- ===== src/Marker.antt =====
-- devpipe/src/marker.rs: the scanner that watches a session's output for the escape sequence by
-- which a program asks for a browser, and the check on what it may ask for.
pub mod SafeUrl
pub mod Chunks
pub mod Bounded
pub mod Reference
pub mod Recovery
mod Tests
use devpipe.Prelude.{
  ℕ, Bool, true, false, not, ◌&&◌, ◌||◌, Option, none, some, List, [], ◌∷◌, ◌++◌, ltb, leb, ◌==◌,
  if◌then◌else◌, any, length, take,
}
use devpipe.Prelude.Text.{Text, codes, text_eq, strip_prefix, split_once, is_empty}
use devpipe.Prelude.Text.Utf8.{from_utf8, len, is_control}
use devpipe.Prelude.Text.Trim.{trim}

abbrev pub ceiling : ℕ
ceiling = 4096

abbrev pub prefix : List ℕ
prefix = codes "9998;devpipe;"

abbrev pub esc : ℕ
esc = 0x1b

abbrev pub bel : ℕ
bel = 0x07

pub data Marker : Type 0 where
  open_url : Text → Marker

pub data State : Type 0 where
  text : State
  escaped : State
  payload : (collected : List ℕ) (skipping : Bool) → State

pub record Scanner : Type 0 where
  pub state : State

abbrev pub new : Scanner
new = record { state = text }

-- What is left of a URL without its scheme.
abbrev pub without_scheme : Text → Option Text
without_scheme url = elim (strip_prefix (codes "https://") url) [
  | some rest ↦ some rest
  | none ↦ strip_prefix (codes "http://") url
]

abbrev pub check_rest : Text → Option Text → Option Text
check_rest url none = none
check_rest url (some rest) =
    if is_empty rest then none else if any is_control url then none else some url

unfoldable pub safe_url : Text → Option Text
safe_url given =
    let url = trim given in if ltb 2048 (len url) then none else check_rest url (without_scheme url)

abbrev pub open_marker : Option Text → Option Marker
open_marker none = none
open_marker (some url) = some (open_url url)

abbrev pub parse_verb : Option (Text × Text) → Option Marker
parse_verb none = none
parse_verb (some (verb, rest)) =
    if text_eq verb (codes "open") then open_marker (safe_url rest) else none

abbrev pub parse_text : Option Text → Option Marker
parse_text none = none
parse_text (some said) = parse_verb (split_once b';' said)

abbrev pub parse_rest : Option (List ℕ) → Option Marker
parse_rest none = none
parse_rest (some rest) = parse_text (from_utf8 rest)

unfoldable pub parse : List ℕ → Option Marker
parse collected = parse_rest (strip_prefix prefix collected)

-- `found.push(marker)` if there is one.
abbrev pub push_found : List Marker → Option Marker → List Marker
push_found found none = found
push_found found (some m) = found ++ m ∷ []

-- BEL, or the ESC of a String Terminator.
abbrev pub ends_payload : ℕ → Bool
ends_payload byte = byte == bel || byte == esc

-- `collected` after the push: too long for the ceiling, or no longer a prefix of ours.
abbrev pub gives_up : List ℕ → Bool
gives_up collected =
    ltb ceiling (length collected)
    || leb (length collected) (length prefix)
      && not (text_eq collected (take (length collected) prefix))

abbrev pub after_escape : ℕ → State
after_escape byte = if byte == b']' then payload [] false else if byte == esc then escaped else text

abbrev pub collect : List ℕ → State
collect collected = if gives_up collected then payload [] true else payload collected false

abbrev pub step_payload : List ℕ → Bool → ℕ → List Marker → State × List Marker
step_payload collected skipping byte found =
    if ends_payload byte
    then (
      (if byte == esc then escaped else text),
      (if not skipping then push_found found (parse collected) else found),
    )
    else if skipping
    then (payload collected true, found)
    else (collect (collected ++ byte ∷ []), found)

unfoldable pub step : State → ℕ → List Marker → State × List Marker
step text byte found = ((if byte == esc then escaped else text), found)
step escaped byte found = (after_escape byte, found)
step (payload collected skipping) byte found = step_payload collected skipping byte found

unfoldable pub feed_from : State → List ℕ → List Marker → State × List Marker
feed_from s [] found = (s, found)
feed_from s (byte ∷ bytes) found = let (s', found') = step s byte found in feed_from s' bytes found'

abbrev pub with_scanner : State × List Marker → Scanner × List Marker
with_scanner (s, found) = (record { state = s }, found)

unfoldable pub feed : Scanner → List ℕ → Scanner × List Marker
unfolding feed_from
feed scanner bytes = with_scanner (feed_from scanner.state bytes [])
