-- ===== src/Session/Wakes.antt =====
-- The waker of devpipe/src/session.rs: the thread blocks in `pump.wait`, and whoever gives it
-- something to do rings.
use devpipe.Session.{
  top, peeking, resize, write_if_writable, reap, woke, drained, wake, Read, Write, new_session,
  kill, read_one, send, at_pump, Terminal, write_out, look, peek, write, Session, Pump,
  write_failed, read_failed, would_block, took, bytes, writes, resizes, kills, wakes, looks, peeks,
  is_woken, reads, sends, writes_out, reaps, here, next, Act, Run, waiting,
}
use devpipe.Prelude.{
  arith, ◌∷◌, [], List, some, none, ◌||◌, not, false, true, Bool, inr, inl, refl, ◌≡◌, ℕ,
  Bool-cases, ◌==◌,
}
use devpipe.Prelude.Text.{Text, is_empty}
use devpipe.Backend.{Entry}

-- The thread has read `shutdown`, or the queue as well, and has not yet come back from `pump.wait`.
abbrev is_waiting : Pump → Bool
is_waiting (waiting want) = true
is_waiting peeking = true
is_waiting _ = false

-- What the thread has read, while no wake-up is under way.
abbrev Heeds : Pump → Bool → List ℕ → Type 0
Heeds (waiting want) shutdown pending = (shutdown ≡ false) × (want ≡ not (is_empty pending))
Heeds peeking shutdown pending = shutdown ≡ false
Heeds _ shutdown pending = Unit

abbrev IsHeeded : {T : Type 0} → Session T → Type 0
IsHeeded s = s.ringing ≡ 0 → s.woken ≡ false → Heeds s.pump s.shutdown s.pending

Heeds-elsewhere :
    (p : Pump) (shutdown : Bool) (pending : List ℕ)
    → is_waiting p ≡ false
    → Heeds p shutdown pending
Heeds-elsewhere p shutdown pending away = ground arith

elsewhere : {T : Type 0} (k : Session T) → is_waiting k.pump ≡ false → IsHeeded k
elsewhere k away quiet asleep = Heeds-elsewhere k.pump k.shutdown k.pending away

write-IsHeeded : {T : Type 0} (bs : List ℕ) (s : Session T) → IsHeeded s → IsHeeded (write bs s)
unfolding write
write-IsHeeded [] s h = h
write-IsHeeded (b ∷ bs) s h = λ none_rings. absurd (ground arith)

look-IsHeeded : {T : Type 0} (s : Session T) → IsHeeded (look s)
unfolding look at_pump
look-IsHeeded s quiet asleep = elim (Bool-cases s.shutdown) [
  | inl ends ↦ rw ends tt
  | inr goes_on ↦ rw goes_on refl
]

peek-IsHeeded : {T : Type 0} (s : Session T) → s.pump ≡ peeking → IsHeeded s → IsHeeded (peek s)
unfolding peek at_pump
peek-IsHeeded s there h quiet asleep = (rw there at (h quiet asleep), refl)

write_out-is_waiting :
    {T : Type 0} (ws : List Write) (s : Session T) → is_waiting (write_out ws s).pump ≡ false
unfolding write_out at_pump
write_out-is_waiting [] s = refl
write_out-is_waiting (write_failed ∷ ws) s = ground arith
write_out-is_waiting (took slice n ∷ ws) s =
    ground (arith, write_out-is_waiting ws (drained slice n s))

module _ {T : Type 0} (t : Terminal T) where
  read_one-is_waiting :
      (writable : Bool) (r : Read) (s : Session T)
      → is_waiting (read_one t writable r s).pump ≡ false
  unfolding read_one at_pump
  read_one-is_waiting w would_block s = refl
  read_one-is_waiting w read_failed s = refl
  read_one-is_waiting w (bytes []) s = refl
  read_one-is_waiting w (bytes (b ∷ bs)) s = refl

  Act-IsHeeded : {s k : Session T} → Act t s k → IsHeeded s → IsHeeded k
  unfolding kill wake woke reap at_pump send write_if_writable resize
  Act-IsHeeded {s} (writes bs) h = write-IsHeeded bs s h
  Act-IsHeeded {s} (resizes cols rows) h = elim (Bool-cases (cols == 0 || rows == 0)) [
    | inl nothing ↦ rw (nothing, resize) h
    | inr real ↦ rw (real, resize) h
  ]
  Act-IsHeeded {s} kills h = λ quiet. absurd (ground arith)
  Act-IsHeeded {s} (wakes some_rings) h = λ quiet asleep. absurd (ground arith)
  Act-IsHeeded {s} (looks at) h = look-IsHeeded s
  Act-IsHeeded {s} (peeks at) h = peek-IsHeeded s at h
  Act-IsHeeded {s} (is_woken want still none at) h = elsewhere (woke still none s) refl
  Act-IsHeeded {s} (is_woken want still (some ready) at) h =
      elsewhere (woke still (some ready) s) (ground arith)
  Act-IsHeeded {s} (reads writable r at) h =
      elsewhere (read_one t writable r s) (read_one-is_waiting writable r s)
  Act-IsHeeded {s} (sends writable chunk at) h = elsewhere (send writable chunk s) (ground arith)
  Act-IsHeeded {s} (writes_out true ws at good) h =
      elsewhere (write_out ws s) (write_out-is_waiting ws s)
  Act-IsHeeded {s} (writes_out false ws at good) h = elsewhere (at_pump top s) refl
  Act-IsHeeded {s} (reaps at) h = elsewhere (reap s) refl

  run_on : {s k : Session T} → Run t s k → IsHeeded s → IsHeeded k
  run_on here h = h
  run_on (next r a) h = Act-IsHeeded a (run_on r h)

  -- From a new session, through any interleaving of the session's callers with its thread: no
  -- wake-up is lost. Whenever the thread blocks with the waker not rung and no caller about to ring
  -- it, the session is not shut down, and the thread waits for the pty to take input exactly if there
  -- is some for it.
  pub Run-IsHeeded :
      (shell id : Text) (entry : Entry) (cols rows : ℕ) (k : Session T) (want : Bool)
      → Run t (new_session t shell id entry cols rows) k
      → k.pump ≡ waiting want
      → k.ringing ≡ 0
      → k.woken ≡ false
      → (k.shutdown ≡ false) × (want ≡ not (is_empty k.pending))
  unfolding new_session
  Run-IsHeeded shell id entry cols rows k want r there quiet asleep =
      let heeds = run_on r (elsewhere (new_session t shell id entry cols rows) refl) quiet asleep in
      rw there at heeds
