-- ===== src/Session/Ending.antt =====
-- The end of a session (devpipe/src/session.rs): its thread tells the watchers last.
use devpipe.Session.{
  write_if_writable, reap, woke, resize, look, peek, Read, Write, wake, drained, new_session, kill,
  read_one, send, at_pump, Terminal, write_out, write, Session, Pump, write_failed, read_failed,
  would_block, took, bytes, writes, resizes, kills, wakes, looks, peeks, is_woken, reads, sends,
  writes_out, reaps, here, next, Act, Run, reaped,
}
use devpipe.Prelude.{
  arith, ◌∷◌, [], List, some, none, not, false, true, Bool, ◌∙◌, sym, refl, ◌≡◌, ℕ,
}
use devpipe.Prelude.Text.{Text}
use devpipe.Backend.{Entry}

abbrev is_reaped : Pump → Bool
is_reaped reaped = true
is_reaped _ = false

abbrev IsTold : {T : Type 0} → Session T → Type 0
IsTold s = s.alive ≡ not (is_reaped s.pump)

-- What a thread at its end leaves alone for good.
abbrev pub SameOutput : {T : Type 0} → Session T → Session T → Type 0
SameOutput s k = (k.alive ≡ s.alive) × (k.sent ≡ s.sent) × (k.written ≡ s.written)

write-IsTold : {T : Type 0} (bs : List ℕ) (s : Session T) → IsTold s → IsTold (write bs s)
unfolding write
write-IsTold [] s h = h
write-IsTold (b ∷ bs) s h = h

write-SameOutput : {T : Type 0} (bs : List ℕ) (s : Session T) → SameOutput s (write bs s)
unfolding write
write-SameOutput [] s = (refl, refl, refl)
write-SameOutput (b ∷ bs) s = (refl, refl, refl)

write-pump : {T : Type 0} (bs : List ℕ) (s : Session T) → (write bs s).pump ≡ s.pump
unfolding write
write-pump [] s = refl
write-pump (b ∷ bs) s = refl

write_out-IsTold :
    {T : Type 0} (ws : List Write) (s : Session T) → s.alive ≡ true → IsTold (write_out ws s)
unfolding write_out at_pump drained
write_out-IsTold [] s h = h
write_out-IsTold (write_failed ∷ ws) s h = ground arith
write_out-IsTold (took slice n ∷ ws) s h = ground (arith, write_out-IsTold ws (drained slice n s) h)

module _ {T : Type 0} (t : Terminal T) where
  read_one-IsTold :
      (writable : Bool) (r : Read) (s : Session T)
      → s.alive ≡ true
      → IsTold (read_one t writable r s)
  unfolding read_one at_pump
  read_one-IsTold w would_block s h = h
  read_one-IsTold w read_failed s h = h
  read_one-IsTold w (bytes []) s h = h
  read_one-IsTold w (bytes (b ∷ bs)) s h = h

  Act-IsTold : {s k : Session T} → Act t s k → IsTold s → IsTold k
  unfolding kill wake look peek woke reap at_pump send write_if_writable resize
  Act-IsTold {s} (writes bs) h = write-IsTold bs s h
  Act-IsTold {s} (resizes cols rows) h = ground arith
  Act-IsTold {s} kills h = h
  Act-IsTold {s} (wakes some_rings) h = h
  Act-IsTold {s} (looks at) h = ground arith
  Act-IsTold {s} (peeks at) h = ground arith
  Act-IsTold {s} (is_woken want still none at) h = ground arith
  Act-IsTold {s} (is_woken want still (some ready) at) h = ground arith
  Act-IsTold {s} (reads writable r at) h = read_one-IsTold writable r s (ground arith)
  Act-IsTold {s} (sends writable chunk at) h = ground arith
  Act-IsTold {s} (writes_out true ws at good) h = write_out-IsTold ws s (ground arith)
  Act-IsTold {s} (writes_out false ws at good) h = ground arith
  Act-IsTold {s} (reaps at) h = refl

  run_on : {s k : Session T} → Run t s k → IsTold s → IsTold k
  run_on here h = h
  run_on (next r a) h = Act-IsTold a (run_on r h)

  Act-SameOutput :
      {s k : Session T} → Act t s k → s.pump ≡ reaped → (k.pump ≡ reaped) × SameOutput s k
  unfolding kill wake resize
  Act-SameOutput {s} (writes bs) h = (write-pump bs s ∙ h, write-SameOutput bs s)
  Act-SameOutput {s} (resizes cols rows) h = ground arith
  Act-SameOutput {s} kills h = (h, (refl, refl, refl))
  Act-SameOutput {s} (wakes some_rings) h = (h, (refl, refl, refl))
  Act-SameOutput {s} (looks at) h = absurd (ground arith)
  Act-SameOutput {s} (peeks at) h = absurd (ground arith)
  Act-SameOutput {s} (is_woken want still ready at) h = absurd (ground arith)
  Act-SameOutput {s} (reads writable r at) h = absurd (ground arith)
  Act-SameOutput {s} (sends writable chunk at) h = absurd (ground arith)
  Act-SameOutput {s} (writes_out writable ws at good) h = absurd (ground arith)
  Act-SameOutput {s} (reaps at) h = absurd (ground arith)

  rests :
      (s : Session T) {k : Session T}
      → Run t s k
      → s.pump ≡ reaped
      → (k.pump ≡ reaped) × SameOutput s k
  rests s here h = (h, (refl, refl, refl))
  rests s (next r a) h =
      let before = rests s r h in
      let after = Act-SameOutput a before.0 in
      (after.0, (after.1.0 ∙ before.1.0, after.1.1 ∙ before.1.1, after.1.2 ∙ before.1.2))

  reaped_of : (p : Pump) → not (is_reaped p) ≡ false → p ≡ reaped
  reaped_of p h = ground arith

  -- From a new session, through any interleaving: once its watchers are told that the child is dead
  -- they are never told otherwise, and whatever is called on the session then, not a byte more goes
  -- to those attached or to the pty. Who sees the end has been sent everything.
  pub Run-told_last :
      (shell id : Text) (entry : Entry) (cols rows : ℕ) (s k : Session T)
      → Run t (new_session t shell id entry cols rows) s
      → s.alive ≡ false
      → Run t s k
      → (k.alive ≡ false) × (k.sent ≡ s.sent) × (k.written ≡ s.written)
  unfolding new_session
  Run-told_last shell id entry cols rows s k r dead later =
      let told = run_on r refl in
      let after = rests s later (reaped_of s.pump (sym told ∙ dead)) in
      (after.1.0 ∙ dead, after.1.1, after.1.2)
