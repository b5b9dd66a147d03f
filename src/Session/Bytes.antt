-- ===== src/Session/Bytes.antt =====
-- The input queue of devpipe/src/session.rs, through any interleaving of the session's callers with
-- its thread.
use devpipe.Session.{
  new_session, write_failed, read_failed, would_block, took, bytes, writes, resizes, kills, wakes,
  looks, peeks, is_woken, reads, sends, writes_out, reaps, here, next, Act, Run, resize,
  write_if_writable, reap, typed_in, woke, Read, look, peek, IsWrite, typed, wake, send, Write,
  kill, read_one, at_pump, Terminal, write, write_out, drained, Session,
}
use devpipe.Prelude.{
  arith, append_assoc, append-nil, ◌++◌, ◌∷◌, [], List, some, none, false, true, Bool, ◌∙◌, ap, sym,
  refl, ◌≡◌, ◌≤◌, suc, zero, ℕ, All, drop, take,
}
use devpipe.Prelude.Text.{Text}
use devpipe.Backend.{Entry}

-- What the pty took, and what waits for it.
abbrev pub bytes_of : {T : Type 0} → Session T → List ℕ
bytes_of s = s.written ++ s.pending

take-take-drop : (n k : ℕ) (q : List ℕ) → n ≤ k → take n (take k q) ++ drop n q ≡ q
take-take-drop zero k q h = refl
take-take-drop (suc n) zero q h = absurd (omega arith)
take-take-drop (suc n) (suc k) [] h = refl
take-take-drop (suc n) (suc k) (x ∷ q) h = ap (◌∷◌ x) (take-take-drop n k q (omega arith))

drained-bytes_of :
    {T : Type 0} (slice n : ℕ) (s : Session T)
    → n ≤ slice
    → bytes_of (drained slice n s) ≡ bytes_of s
unfolding drained
drained-bytes_of slice n s h =
    append_assoc s.written _ _ ∙ ap (λ q. s.written ++ q) (take-take-drop n slice s.pending h)

write_out-bytes_of :
    {T : Type 0} (ws : List Write) (s : Session T)
    → All IsWrite ws
    → bytes_of (write_out ws s) ≡ bytes_of s
unfolding write_out at_pump
write_out-bytes_of [] s h = refl
write_out-bytes_of (write_failed ∷ ws) s h = ground arith
write_out-bytes_of (took slice n ∷ ws) s h =
    ground (arith, write_out-bytes_of ws (drained slice n s) h.1, drained-bytes_of slice n s h.0)

write-bytes_of :
    {T : Type 0} (bs : List ℕ) (s : Session T) → bytes_of (write bs s) ≡ bytes_of s ++ bs
unfolding write
write-bytes_of [] s = sym (append-nil _)
write-bytes_of (b ∷ bs) s = sym (append_assoc s.written s.pending (b ∷ bs))

module _ {T : Type 0} (t : Terminal T) where
  read_one-bytes_of :
      (writable : Bool) (r : Read) (s : Session T) → bytes_of (read_one t writable r s) ≡ bytes_of s
  unfolding read_one at_pump
  read_one-bytes_of writable would_block s = refl
  read_one-bytes_of writable read_failed s = refl
  read_one-bytes_of writable (bytes []) s = refl
  read_one-bytes_of writable (bytes (b ∷ bs)) s = refl

  Act-bytes_of : {s k : Session T} (a : Act t s k) → bytes_of k ≡ bytes_of s ++ typed_in a
  unfolding kill wake look woke reap peek at_pump send write_if_writable resize
  Act-bytes_of {s} (writes bs) = write-bytes_of bs s
  Act-bytes_of {s} (resizes cols rows) = ground (arith, append-nil (bytes_of s))
  Act-bytes_of {s} kills = sym (append-nil _)
  Act-bytes_of {s} (wakes h) = sym (append-nil _)
  Act-bytes_of {s} (looks h) = sym (append-nil _)
  Act-bytes_of {s} (peeks h) = sym (append-nil _)
  Act-bytes_of {s} (is_woken want still none h) = sym (append-nil _)
  Act-bytes_of {s} (is_woken want still (some ready) h) = sym (append-nil _)
  Act-bytes_of {s} (reads writable r h) = read_one-bytes_of writable r s ∙ sym (append-nil _)
  Act-bytes_of {s} (sends writable chunk h) = sym (append-nil _)
  Act-bytes_of {s} (writes_out true ws h good) = write_out-bytes_of ws s good ∙ sym (append-nil _)
  Act-bytes_of {s} (writes_out false ws h good) = sym (append-nil _)
  Act-bytes_of {s} (reaps h) = sym (append-nil _)

  run_on : (s k : Session T) (r : Run t s k) → bytes_of s ≡ [] → bytes_of k ≡ typed r
  run_on s k here empty = empty
  run_on s k (next {g} r a) empty =
      Act-bytes_of a ∙ ap (λ bs. bs ++ typed_in a) (run_on s g r empty)

  -- From a new session, through any interleaving of the session's callers with its thread, whatever
  -- the pty answers: what the pty took, followed by what waits for it, is what was given to `write`,
  -- in order, with nothing lost, doubled or swapped.
  pub Run-typed :
      (shell id : Text) (entry : Entry) (cols rows : ℕ) (k : Session T)
      → (r : Run t (new_session t shell id entry cols rows) k) → k.written ++ k.pending ≡ typed r
  unfolding new_session
  Run-typed shell id entry cols rows k r = run_on _ k r refl
