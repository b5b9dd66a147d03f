-- ===== src/Keeper/Serving/Joined.antt =====
-- `Asking::Attach` of `serve_one` (devpipe/src/keeper.rs) against the session that it shows: when it
-- subscribes, when it takes the mirror's screen, and what the channel gives it then. The channel is the
-- list of all that was sent and the receiver a place in it; one that has fallen behind what the channel
-- keeps is told so, and goes on with the oldest chunk that is kept.
mod Shows
pub mod Output
use devpipe.Session
use devpipe.Session.{Act, Terminal, replay}
use devpipe.Keeper.Serving.{Seen, chunk, lagged, closed, gone}
use devpipe.Prelude.{
  ◌++◌, ◌∷◌, [], List, some, false, true, Bool, ◌≡◌, ◌≤◌, ◌<◌, suc, ℕ, length, get_elem?,
}

-- `due` says that the mirror's screen is to be taken next, `got` is what was seen, screens included.
pub record Client (T : Type 0) : Type 0 where
  pub session : Session.Session T
  pub place : ℕ
  pub due : Bool
  pub got : List Seen

-- `session.subscribe()`
abbrev pub subscribed : {T : Type 0} → Session.Session T → Client T
subscribed s = record { session = s; place = length s.sent; due = true; got = [] }

-- `session.replay()`, at the start and behind a `Lagged`.
unfoldable pub screened : {T : Type 0} → Terminal T → Client T → Client T
screened t c = record c { due = false; got = c.got ++ lagged (replay t c.session) ∷ [] }

-- `output.recv()` gives the next chunk.
unfoldable pub received : {T : Type 0} → List ℕ → Client T → Client T
received bytes c = record c { place = suc c.place; got = c.got ++ chunk bytes ∷ [] }

-- `output.recv()` gives `Lagged`.
unfoldable pub overtaken : {T : Type 0} → ℕ → Client T → Client T
overtaken oldest c = record c { place = oldest; due = true }

-- What the session's callers and its thread do comes between any two steps of the loop.
pub data Join {T : Type 0} (t : Terminal T) (s : Session.Session T) : Client T → Type 0 where
  subscribes : Join t s (subscribed s)
  acts :
      {c : Client T} {k : Session.Session T}
      → Join t s c
      → Act t c.session k
      → Join t s (record c { session = k })
  screens : {c : Client T} → Join t s c → c.due ≡ true → Join t s (screened t c)
  receives :
      {c : Client T} (bytes : List ℕ)
      → Join t s c
      → c.due ≡ false
      → get_elem? c.session.sent c.place ≡ some bytes
      → Join t s (received bytes c)
  lags :
      {c : Client T} (oldest : ℕ)
      → Join t s c
      → c.due ≡ false
      → c.place < oldest
      → oldest ≤ length c.session.sent
      → Join t s (overtaken oldest c)

-- How the loop ends: the channel is closed, or the child is found to be gone.
abbrev pub end_by : Bool → Seen
end_by true = closed
end_by false = gone
