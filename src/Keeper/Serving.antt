-- ===== src/Keeper/Serving.antt =====
-- `serve_one` of devpipe/src/keeper.rs: what a keeper says on one connection. The frames are those that
-- it writes as long as the other end takes them: a write that fails ends the loop that it is in, and the
-- writes behind it fail too. What the session does meanwhile, in the order in which the `select!` sees it,
-- is a list.
pub mod Attached
pub mod Joined
mod Tests
use devpipe.Prelude.{
  map, false, true, ◌++◌, ◌∷◌, [], List, some, none, Option, Bool, ℕ, if◌then◌else◌,
}
use devpipe.Prelude.Text.{is_empty, text_eq, Text}
use devpipe.Proto.{data_frame, event_frame, close_frame, Frame, Op, data_op, event, close_op}
use devpipe.Proto.Control.{control_frame, json_of}
use devpipe.Proto.Messages.{PaneEvent, titled, resize, exit, open_url, Json}
use devpipe.Marker
use devpipe.Marker.{Marker, Scanner, feed, new}
use devpipe.Keeper.Messages
use devpipe.Keeper.Messages.{Saying, ended, info}

-- What is asked of `Session`.
pub record Session : Type 0 where
  pub id : Text
  pub argv : List Text
  pub title : Text
  pub cols : ℕ
  pub rows : ℕ
  pub alive : Bool
  pub screen : List ℕ

-- `Asking::Describe`
unfoldable pub described : Session → Saying
described s = info s.id s.argv s.title s.cols s.rows s.alive

-- What wakes the loop of `Asking::Watch`, with whether the child is still there when it goes round.
pub data Tick : Type 0 where
  stirred : (alive : Bool) → Tick
  slept : (alive : Bool) (title : Text) → Tick

-- `Asking::Watch`, from the title that was last seen; it breaks off where the keeper does.
unfoldable pub watched : Bool → Text → List Tick → List Saying
watched false last ticks = ended ∷ []
watched true last [] = []
watched true last (stirred alive ∷ ticks) = watched alive last ticks
watched true last (slept alive title ∷ ticks) =
    let same = watched alive last ticks in
    let other = watched alive title ticks in
    if text_eq title last then same else Messages.titled title ∷ other

-- What the loop of `Asking::Attach` sees.
pub data Seen : Type 0 where
  chunk : (bytes : List ℕ) → Seen
  lagged : (screen : List ℕ) → Seen
  closed woken gone : Seen

module _ (json : Json PaneEvent) where
  -- `Frame::event` of a `PaneEvent`.
  abbrev pub pane_event : PaneEvent → Frame
  pane_event e = event_frame 0 (json.to_vec e)

  abbrev pub open_event : Marker → Frame
  open_event (Marker.open_url url) = pane_event (open_url url)

  -- The loop, and then what follows it.
  unfoldable pub forward : Scanner → List Seen → List Frame → List Frame
  forward scanner [] after = []
  forward scanner (chunk bytes ∷ seen) after =
      let (scanner', found) = feed scanner bytes in
      data_frame 0 bytes ∷ map open_event found ++ forward scanner' seen after
  forward scanner (lagged screen ∷ seen) after = data_frame 0 screen ∷ forward scanner seen after
  forward scanner (woken ∷ seen) after = forward scanner seen after
  forward scanner (closed ∷ seen) after = after
  forward scanner (gone ∷ seen) after = after

  -- What is left in the channel, and the end.
  unfoldable pub drained : Bool → List (List ℕ) → List Frame
  drained alive left =
      map (data_frame 0) left ++ (if alive then [] else pane_event exit ∷ close_frame 0 ∷ [])

  abbrev pub title_event : Text → List Frame
  title_event title = if is_empty title then [] else pane_event (titled title) ∷ []

  -- `Asking::Attach`
  unfoldable pub attached : Session → List Seen → Bool → List (List ℕ) → List Frame
  attached s seen alive left =
      data_frame 0 s.screen ∷ title_event s.title ++ forward new seen (drained alive left)

  -- What a client's frames have the session do.
  pub data Done : Type 0 where
    written : (bytes : List ℕ) → Done
    resized : (cols rows : ℕ) → Done

  abbrev pub resized_by : Option PaneEvent → List Done
  resized_by (some (resize cols rows)) = resized cols rows ∷ []
  resized_by _ = []

  abbrev pub done_by : Frame → Op → List Done → List Done
  done_by frame data_op rest = written frame.payload ∷ rest
  done_by frame event rest = resized_by (json_of json frame) ++ rest
  done_by frame close_op rest = []

  -- The `inbound` task, up to a `Close` or the end of the stream.
  unfoldable pub inbound : List Frame → List Done
  inbound [] = []
  inbound (frame ∷ frames) = let rest = inbound frames in done_by frame frame.op rest
