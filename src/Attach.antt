-- ===== src/Attach.antt =====
-- devpipe/src/attach.rs: a terminal attached to one pane. What each read of the keyboard gives, and what
-- the `select!` of `converse` sees in what order, are lists; what goes to the screen is a list too. Raw
-- mode and the connection are left out.
pub mod Keyboard
mod Tests
use devpipe.Proto
use devpipe.Proto.{control, data_frame, event_frame, Frame, Op, data_op, event, close_op}
use devpipe.Proto.Control.{json_of}
use devpipe.Proto.Messages.{
  FromServer, opened, error, PaneEvent, resize, exit, open_url, titled, Json,
}
use devpipe.Prelude.{◌++◌, ◌∷◌, [], List, some, none, Option, ℕ, if◌then◌else◌, ◌==◌}
use devpipe.Prelude.Text.{Text, split_once}
use devpipe.Prelude.Result.{ok, err, Result}

abbrev pub pane : ℕ
pane = 1

-- `DETACH` of devpipe/src/term.rs: ctrl-].
abbrev pub detach_byte : ℕ
detach_byte = 29

pub data Input : Type 0 where
  typed : (bytes : List ℕ) → Input
  detach : Input

abbrev pub unless_empty : List ℕ → List Input
unless_empty [] = []
unless_empty (b ∷ bytes) = typed (b ∷ bytes) ∷ []

abbrev pub typed_chunk : List ℕ → Option (List ℕ × List ℕ) → List Input → List Input
typed_chunk chunk none more = typed chunk ∷ more
typed_chunk chunk (some (before, _)) more = unless_empty before ++ detach ∷ []

-- `read_stdin`: an empty read is the end.
unfoldable pub read_stdin : List (List ℕ) → List Input
read_stdin [] = []
read_stdin ([] ∷ chunks) = []
read_stdin ((b ∷ chunk) ∷ chunks) =
    let more = read_stdin chunks in
    typed_chunk (b ∷ chunk) (split_once detach_byte (b ∷ chunk)) more

pub data Error {ℓ} (E : Type ℓ) : Type ℓ where
  refused : E → Error E
  closed_before_opening bad_message : Error E

module _ (json : Json (FromServer Text)) where
  abbrev pub is_opened :
      Option (FromServer Text)
      → List ℕ
      → List ℕ × Result (Error Text) (Text × Text)
      → List ℕ × Result (Error Text) (Text × Text)
  is_opened none early more = (early, err bad_message)
  is_opened (some (opened channel environment session)) early more =
      (early, ok (environment, session))
  is_opened (some (error message)) early more = (early, err (refused message))
  is_opened (some _) early more = more

  abbrev pub kept_early : Frame → Op → List ℕ → List ℕ
  kept_early frame data_op early = if frame.channel == pane then early ++ frame.payload else early
  kept_early frame _ early = early

  -- `opened`, over the frames up to the end of the connection.
  unfoldable pub wait_opened : List Frame → List ℕ → List ℕ × Result (Error Text) (Text × Text)
  wait_opened [] early = (early, err closed_before_opening)
  wait_opened (frame ∷ frames) early =
      let passed = wait_opened frames early in
      let kept = wait_opened frames (kept_early frame frame.op early) in
      if frame.channel == control then is_opened (json_of json frame) early passed else kept

pub data Ending : Type 0 where
  detached exited dropped : Ending

-- What the loop of `converse` sees; `hung_up` is the end of what is typed.
pub data Seen : Type 0 where
  input : Input → Seen
  hung_up : Seen
  resized : (cols rows : ℕ) → Seen
  frame : Frame → Seen
  gone : Seen

pub data Printed : Type 0 where
  output : (bytes : List ℕ) → Printed
  open_this : (url : Text) → Printed
  complaint : (message : Text) → Printed

-- What was sent, what was printed, and how it ended, if it did.
pub record Shown : Type 0 where
  pub sent : List Frame
  pub printed : List Printed
  pub ending : Option Ending

abbrev pub ends : Ending → Shown
ends e = record { sent = []; printed = []; ending = some e }

abbrev pub sends : Frame → Shown → Shown
sends f s = record s { sent = f ∷ s.sent }

abbrev pub prints : Printed → Shown → Shown
prints p s = record s { printed = p ∷ s.printed }

module _ (json : Json (FromServer Text)) (events : Json PaneEvent) where
  abbrev pub on_event : Option PaneEvent → Shown → Shown
  on_event (some exit) more = ends exited
  on_event (some (open_url url)) more = prints (open_this url) more
  on_event _ more = more

  abbrev pub on_pane : Frame → Op → Shown → Shown
  on_pane f data_op more = prints (output f.payload) more
  on_pane f close_op more = ends exited
  on_pane f event more = on_event (json_of events f) more

  abbrev pub on_control : Option (FromServer Text) → Shown → Shown
  on_control (some (error message)) more = prints (complaint message) more
  on_control _ more = more

  -- The loop of `converse`.
  unfoldable pub converse : List Seen → Shown
  converse [] = record { sent = []; printed = []; ending = none }
  converse (input (typed bytes) ∷ seen) = sends (data_frame pane bytes) (converse seen)
  converse (input detach ∷ seen) = ends detached
  converse (hung_up ∷ seen) = ends detached
  converse (resized cols rows ∷ seen) =
      sends (event_frame pane (events.to_vec (resize cols rows))) (converse seen)
  converse (gone ∷ seen) = ends dropped
  converse (frame f ∷ seen) =
      let more = converse seen in
      if f.channel == pane
      then on_pane f f.op more
      else if f.channel == control
      then on_control (json_of json f) more
      else more
