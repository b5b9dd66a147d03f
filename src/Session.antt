-- ===== src/Session.antt =====
-- devpipe/src/session.rs: a terminal session: a pty, the thread that drives it, and the mirror of
-- what it has painted. The terminal emulator and the pty are not here: the one is an interface, and
-- what the other answers is an argument. The queue's lock is held while `write` appends and while the
-- thread writes out, so each is one act; so is each call on the mirror, the channel, the waker and the
-- pty, and what runs between two acts of the thread is any act of another's.
mod Bytes
mod Wakes
mod Ending
pub mod Mirror
mod Tests
use devpipe.Prelude.{
  ◌++◌, ◌∷◌, [], List, some, none, Option, ◌||◌, ◌&&◌, not, false, true, Bool, ◌≡◌, ◌<◌, ◌≤◌, ◌%◌,
  ◌-◌, suc, ℕ, All, drop, take, length, if◌then◌else◌, ◌==◌, ltb,
}
use devpipe.Prelude.Text.{codes, is_empty, Text}
use devpipe.Prelude.Result.{ok, ◌>>=◌, Result}
use devpipe.Backend.{Entry}

-- `vt::Terminal`, as the session uses it.
pub record Terminal (T : Type 0) : Type 0 where
  pub terminal_new : ℕ → ℕ → T
  pub feed : List ℕ → T → T
  pub resize_to : ℕ → ℕ → T → T
  pub cols : T → ℕ
  pub rows : T → ℕ
  pub title_of : T → Text
  pub screen_as_ansi : T → List ℕ

-- `pty::SpawnOptions`; no command is the user's shell.
pub record SpawnOptions : Type 0 where
  pub command : Option (List Text)
  pub winsize : ℕ × ℕ
  pub cwd : Option Text
  pub env : List (Text × Text)

pub record Ready : Type 0 where
  pub readable : Bool
  pub writable : Bool

-- Where the thread is in its loop: at the top, behind the test of `shutdown`, in `pump.wait` (with
-- `want_write`), before `pump.read`, between the mirror and the channel with a chunk, before the test
-- of what is writable, behind the loop, and at its end.
pub data Pump : Type 0 where
  top : Pump
  peeking : Pump
  waiting : (want_write : Bool) → Pump
  reading : (writable : Bool) → Pump
  sending : (writable : Bool) (chunk : List ℕ) → Pump
  writing : (writable : Bool) → Pump
  over : Pump
  reaped : Pump

-- What `pump.read` fills the buffer with, none at the end of the output, or why it does not.
pub data Read : Type 0 where
  bytes : (chunk : List ℕ) → Read
  would_block read_failed : Read

-- What `pump.write` does with the queue's front slice, of that length; the answers end where it would
-- block.
pub data Write : Type 0 where
  took : (slice n : ℕ) → Write
  write_failed : Write

abbrev pub buffer : ℕ
buffer = 65536

-- `ringing` counts the writers between their change and `waker.wake`, `woken` says that the waker has
-- been rung since `pump.wait` last returned. `sent` is what went into the broadcast channel and
-- `written` what the pty took.
pub record Session (T : Type 0) : Type 0 where
  pub id : Text
  pub argv : List Text
  pub sent : List (List ℕ)
  pub pending : List ℕ
  pub woken : Bool
  pub ringing : ℕ
  pub mirror : T
  pub alive : Bool
  pub shutdown : Bool
  pub written : List ℕ
  pub winsize : ℕ × ℕ
  pub pump : Pump

abbrev command_of : List Text → Option (List Text)
command_of [] = none
command_of (a ∷ argv) = some (a ∷ argv)

abbrev argv_of : Text → List Text → List Text
argv_of shell [] = shell ∷ []
argv_of shell (a ∷ argv) = a ∷ argv

-- `entry`'s environment comes last; `given` is the default's.
unfoldable pub options : List (Text × Text) → Text → Entry → ℕ → ℕ → SpawnOptions
options given id entry cols rows = record {
  command = command_of entry.argv;
  winsize = (cols, rows);
  cwd = entry.cwd;
  env =
      given
      ++ (codes "TERM", codes "xterm-256color")
        ∷ (codes "COLORTERM", codes "truecolor")
        ∷ (codes "DEVPIPE_SESSION", id)
        ∷ entry.env;
}

module _ {T : Type 0} (t : Terminal T) where
  unfoldable pub new_session : Text → Text → Entry → ℕ → ℕ → Session T
  new_session shell id entry cols rows = record {
    id = id;
    argv = argv_of shell entry.argv;
    sent = [];
    pending = [];
    woken = false;
    ringing = 0;
    mirror = t.terminal_new cols rows;
    alive = true;
    shutdown = false;
    written = [];
    winsize = (cols, rows);
    pump = top;
  }

  -- `Session::spawn`: whether the pty and its thread start is an argument.
  unfoldable pub spawn :
      (SpawnOptions → Result Text (Unit {0}))
      → List (Text × Text)
      → Text
      → Text
      → Entry
      → ℕ
      → ℕ
      → Result Text (Session T)
  spawn starts given shell id entry cols rows = do
    _ ← starts (options given id entry cols rows)
    ok (new_session shell id entry cols rows)

  unfoldable pub resize : ℕ → ℕ → Session T → Session T
  resize cols rows s =
      if cols == 0 || rows == 0
      then s
      else record s { winsize = (cols, rows); mirror = t.resize_to cols rows s.mirror }

  unfoldable pub size : Session T → ℕ × ℕ
  size s = (t.cols s.mirror % 65536, t.rows s.mirror % 65536)

  unfoldable pub title : Session T → Text
  title s = t.title_of s.mirror

  unfoldable pub replay : Session T → List ℕ
  replay s = t.screen_as_ansi s.mirror

-- `Session::write`, and `Session::kill`, up to `waker.wake`.
unfoldable pub write : {T : Type 0} → List ℕ → Session T → Session T
write [] s = s
write (b ∷ bs) s = record s { pending = s.pending ++ b ∷ bs; ringing = suc s.ringing }

unfoldable pub kill : {T : Type 0} → Session T → Session T
kill s = record s { shutdown = true; ringing = suc s.ringing }

unfoldable pub wake : {T : Type 0} → Session T → Session T
wake s = record s { woken = true; ringing = s.ringing - 1 }

unfoldable pub at_pump : {T : Type 0} → Pump → Session T → Session T
at_pump p s = record s { pump = p }

-- The top of the loop: `shutdown` is read, and then the queue.
unfoldable pub look : {T : Type 0} → Session T → Session T
look s = at_pump (if s.shutdown then over else peeking) s

unfoldable pub peek : {T : Type 0} → Session T → Session T
peek s = at_pump (waiting (not (is_empty s.pending))) s

-- `if ready.readable`
abbrev pub turned : Ready → Pump
turned ready = if ready.readable then reading ready.writable else writing ready.writable

-- `pump.wait` returns; `still` says that it left the waker rung.
unfoldable pub woke : {T : Type 0} → Bool → Option Ready → Session T → Session T
woke still none s = at_pump over s
woke still (some ready) s = at_pump (turned ready) (record s { woken = s.woken && still })

-- One `pump.read`, and what it read goes to the mirror; at its end, or where it fails, `break 'outer`.
unfoldable pub read_one : {T : Type 0} → Terminal T → Bool → Read → Session T → Session T
read_one t writable would_block s = at_pump (writing writable) s
read_one t writable read_failed s = at_pump over s
read_one t writable (bytes []) s = at_pump over s
read_one t writable (bytes (b ∷ bs)) s =
    at_pump (sending writable (b ∷ bs)) (record s { mirror = t.feed (b ∷ bs) s.mirror })

-- The chunk goes to whoever is attached, and a buffer that was full is read into again.
unfoldable pub send : {T : Type 0} → Bool → List ℕ → Session T → Session T
send writable chunk s =
    at_pump (if ltb (length chunk) buffer then writing writable else reading writable)
      (record s { sent = s.sent ++ chunk ∷ [] })

-- The pty takes the first `n` bytes of the slice that it is shown, and `q.drain(..n)` drops as many.
unfoldable pub drained : {T : Type 0} → ℕ → ℕ → Session T → Session T
drained slice n s = record s {
  written = s.written ++ take n (take slice s.pending);
  pending = drop n s.pending;
}

unfoldable pub write_out : {T : Type 0} → List Write → Session T → Session T
write_out [] s = at_pump top s
write_out (write_failed ∷ ws) s = if is_empty s.pending then at_pump top s else at_pump over s
write_out (took slice n ∷ ws) s =
    let rest = write_out ws (drained slice n s) in
    if is_empty s.pending || n == 0 then at_pump top s else rest

unfoldable pub write_if_writable : {T : Type 0} → Bool → List Write → Session T → Session T
write_if_writable true ws s = write_out ws s
write_if_writable false ws s = at_pump top s

-- Behind the loop the child is killed and waited for; the watchers are told last.
unfoldable pub reap : {T : Type 0} → Session T → Session T
reap s = record s { alive = false; pump = reaped }

-- `io::Write`: no more is taken than was shown.
abbrev pub IsWrite : Write → Type 0
IsWrite (took slice n) = n ≤ slice
IsWrite write_failed = Unit

-- What one of the session's callers, or its thread, does.
pub data Act {T : Type 0} (t : Terminal T) (s : Session T) : Session T → Type 0 where
  writes : (typed : List ℕ) → Act t s (write typed s)
  resizes : (cols rows : ℕ) → Act t s (resize t cols rows s)
  kills : Act t s (kill s)
  wakes : 0 < s.ringing → Act t s (wake s)
  looks : s.pump ≡ top → Act t s (look s)
  peeks : s.pump ≡ peeking → Act t s (peek s)
  is_woken :
      (want : Bool) (still : Bool) (ready : Option Ready)
      → s.pump ≡ waiting want
      → Act t s (woke still ready s)
  reads :
      (writable : Bool) (r : Read) → s.pump ≡ reading writable → Act t s (read_one t writable r s)
  sends :
      (writable : Bool) (chunk : List ℕ)
      → s.pump ≡ sending writable chunk
      → Act t s (send writable chunk s)
  writes_out :
      (writable : Bool) (ws : List Write)
      → s.pump ≡ writing writable
      → All IsWrite ws
      → Act t s (write_if_writable writable ws s)
  reaps : s.pump ≡ over → Act t s (reap s)

-- What was given to `write` in an act.
abbrev pub typed_in : {T : Type 0} {t : Terminal T} {s k : Session T} → Act t s k → List ℕ
typed_in (writes typed) = typed
typed_in _ = []

pub data Run {T : Type 0} (t : Terminal T) (s : Session T) : Session T → Type 0 where
  here : Run t s s
  next : {g k : Session T} → Run t s g → Act t g k → Run t s k

-- What was given to `write`, in order.
abbrev pub typed : {T : Type 0} {t : Terminal T} {s k : Session T} → Run t s k → List ℕ
typed here = []
typed (next r a) = typed r ++ typed_in a
