-- ===== src/Session/Mirror.antt =====
-- The mirror of devpipe/src/session.rs against what is sent to those attached. The thread feeds a chunk
-- to the mirror and then sends it, and holds no lock over both.
use devpipe.Session.{
  write_failed, read_failed, would_block, took, bytes, writes, resizes, kills, wakes, looks, peeks,
  is_woken, reads, sends, writes_out, reaps, here, next, Act, Run, resize, write_if_writable, reap,
  woke, Read, look, peek, Pump, top, reading, sending, turned, wake, send, Write, kill, read_one,
  at_pump, Terminal, write, write_out, drained, Session,
}
use devpipe.Prelude.{
  arith, some, none, or-eq-false, append_assoc, append-nil, ◌++◌, ◌∷◌, [], List, ◌||◌, ◌==◌, false,
  true, Bool, inr, inl, ◌∙◌, ap, sym, refl, ◌≡◌, ℕ, Bool-cases,
}

-- The chunk that the mirror has and that is not yet sent.
abbrev pub in_hand : Pump → List (List ℕ)
in_hand (sending writable chunk) = chunk ∷ []
in_hand _ = []

write_out-in_hand :
    {T : Type 0} (ws : List Write) (s : Session T) → in_hand (write_out ws s).pump ≡ []
unfolding write_out at_pump
write_out-in_hand [] s = refl
write_out-in_hand (write_failed ∷ ws) s = ground arith
write_out-in_hand (took slice n ∷ ws) s = ground (arith, write_out-in_hand ws (drained slice n s))

write_out-same :
    {T : Type 0} (ws : List Write) (s : Session T)
    → ((write_out ws s).sent ≡ s.sent) × ((write_out ws s).mirror ≡ s.mirror)
unfolding write_out at_pump drained
write_out-same [] s = (refl, refl)
write_out-same (write_failed ∷ ws) s = ground arith
write_out-same (took slice n ∷ ws) s = ground (arith, write_out-same ws (drained slice n s))

turned-in_hand :
    (readable writable : Bool)
    → in_hand (turned (record { readable = readable; writable = writable })) ≡ []
turned-in_hand readable writable = ground arith

module _ {T : Type 0} (t : Terminal T) where
  abbrev pub feed_all : List (List ℕ) → T → T
  feed_all [] m = m
  feed_all (c ∷ cs) m = feed_all cs (t.feed c m)

  -- What an act feeds to the mirror, and what it sends.
  abbrev pub read_in : Read → List (List ℕ)
  read_in (bytes (b ∷ bs)) = (b ∷ bs) ∷ []
  read_in _ = []

  abbrev pub painted_in : {s k : Session T} → Act t s k → List (List ℕ)
  painted_in (reads writable r at) = read_in r
  painted_in _ = []

  abbrev pub sent_in : {s k : Session T} → Act t s k → List (List ℕ)
  sent_in (sends writable chunk at) = chunk ∷ []
  sent_in _ = []

  abbrev pub resizes_in : {s k : Session T} → Act t s k → Bool
  resizes_in (resizes cols rows) = true
  resizes_in _ = false

  abbrev pub painted : {s k : Session T} → Run t s k → List (List ℕ)
  painted here = []
  painted (next r a) = painted r ++ painted_in a

  abbrev pub sent : {s k : Session T} → Run t s k → List (List ℕ)
  sent here = []
  sent (next r a) = sent r ++ sent_in a

  abbrev pub resized : {s k : Session T} → Run t s k → Bool
  resized here = false
  resized (next r a) = resized r || resizes_in a

  feed_all-append :
      (cs ds : List (List ℕ)) (m : T) → feed_all (cs ++ ds) m ≡ feed_all ds (feed_all cs m)
  feed_all-append [] ds m = refl
  feed_all-append (c ∷ cs) ds m = feed_all-append cs ds (t.feed c m)

  -- One act: what is sent, what is in hand, and what the mirror is fed.
  abbrev Passes : Session T → Session T → List (List ℕ) → List (List ℕ) → Type 0
  Passes s k fed out = (k.sent ≡ s.sent ++ out) × (in_hand s.pump ++ fed ≡ out ++ in_hand k.pump)

  -- Nothing is read or sent.
  silent : (s k : Session T) → k.sent ≡ s.sent → in_hand k.pump ≡ in_hand s.pump → Passes s k [] []
  silent s k same same_hand =
      (same ∙ sym (append-nil s.sent), append-nil (in_hand s.pump) ∙ sym same_hand)

  read_one-Passes :
      (writable : Bool) (r : Read) (s : Session T)
      → s.pump ≡ reading writable
      → Passes s (read_one t writable r s) (read_in r) []
  unfolding read_one at_pump
  read_one-Passes w would_block s at =
      silent s (read_one t w would_block s) refl (ap in_hand (sym at))
  read_one-Passes w read_failed s at =
      silent s (read_one t w read_failed s) refl (ap in_hand (sym at))
  read_one-Passes w (bytes []) s at =
      silent s (read_one t w (bytes []) s) refl (ap in_hand (sym at))
  read_one-Passes w (bytes (b ∷ bs)) s at =
      (sym (append-nil s.sent), ap (λ p. in_hand p ++ (b ∷ bs) ∷ []) at)

  write-Passes : (bs : List ℕ) (s : Session T) → Passes s (write bs s) [] []
  unfolding write
  write-Passes [] s = silent s s refl refl
  write-Passes (b ∷ bs) s = silent s (write (b ∷ bs) s) refl refl

  pub Act-Passes :
      {s k : Session T} (a : Act t s k)
      → (k.sent ≡ s.sent ++ sent_in a)
        × (in_hand s.pump ++ painted_in a ≡ sent_in a ++ in_hand k.pump)
  unfolding kill wake look peek woke reap at_pump send write_if_writable resize
  Act-Passes {s} (writes bs) = write-Passes bs s
  Act-Passes {s} (resizes cols rows) = elim (Bool-cases (cols == 0 || rows == 0)) [
    | inl nothing ↦ rw (nothing, resize) (silent s s refl refl)
    | inr real ↦ rw (real, resize) (silent s s refl refl)
  ]
  Act-Passes {s} kills = silent s s refl refl
  Act-Passes {s} (wakes some_rings) = silent s s refl refl
  Act-Passes {s} (looks at) = silent s (look s) refl (ground arith)
  Act-Passes {s} (peeks at) = silent s (peek s) refl (ap in_hand (sym at))
  Act-Passes {s} (is_woken want still none at) =
      silent s (woke still none s) refl (ap in_hand (sym at))
  Act-Passes {s} (is_woken want still (some ready) at) =
      silent s (woke still (some ready) s) refl
        (turned-in_hand ready.readable ready.writable ∙ ap in_hand (sym at))
  Act-Passes {s} (reads writable r at) = read_one-Passes writable r s at
  Act-Passes {s} (sends writable chunk at) = (refl, ground arith)
  Act-Passes {s} (writes_out true ws at good) =
      silent s (write_out ws s) (write_out-same ws s).0
        (write_out-in_hand ws s ∙ ap in_hand (sym at))
  Act-Passes {s} (writes_out false ws at good) = silent s (at_pump top s) refl (ap in_hand (sym at))
  Act-Passes {s} (reaps at) = silent s (reap s) refl (ap in_hand (sym at))

  write-mirror : (bs : List ℕ) (s : Session T) → (write bs s).mirror ≡ s.mirror
  unfolding write
  write-mirror [] s = refl
  write-mirror (b ∷ bs) s = refl

  read_one-mirror :
      (writable : Bool) (r : Read) (s : Session T)
      → (read_one t writable r s).mirror ≡ feed_all (read_in r) s.mirror
  unfolding read_one at_pump
  read_one-mirror w would_block s = refl
  read_one-mirror w read_failed s = refl
  read_one-mirror w (bytes []) s = refl
  read_one-mirror w (bytes (b ∷ bs)) s = refl

  Act-mirror :
      {s k : Session T} (a : Act t s k)
      → resizes_in a ≡ false
      → k.mirror ≡ feed_all (painted_in a) s.mirror
  unfolding kill wake look peek woke reap at_pump send write_if_writable
  Act-mirror {s} (writes bs) h = write-mirror bs s
  Act-mirror {s} (resizes cols rows) h = absurd (ground arith)
  Act-mirror {s} kills h = refl
  Act-mirror {s} (wakes some_rings) h = refl
  Act-mirror {s} (looks at) h = refl
  Act-mirror {s} (peeks at) h = refl
  Act-mirror {s} (is_woken want still none at) h = refl
  Act-mirror {s} (is_woken want still (some ready) at) h = refl
  Act-mirror {s} (reads writable r at) h = read_one-mirror writable r s
  Act-mirror {s} (sends writable chunk at) h = refl
  Act-mirror {s} (writes_out true ws at good) h = (write_out-same ws s).1
  Act-mirror {s} (writes_out false ws at good) h = refl
  Act-mirror {s} (reaps at) h = refl

  -- The same of a run.
  pub Run-sent : (s k : Session T) (r : Run t s k) → k.sent ≡ s.sent ++ sent r
  Run-sent s k here = sym (append-nil s.sent)
  Run-sent s k (next {g} r a) =
      (Act-Passes a).0
      ∙ (ap (λ x. x ++ sent_in a) (Run-sent s g r) ∙ append_assoc s.sent (sent r) (sent_in a))

  pub Run-in_hand :
      (s k : Session T) (r : Run t s k) → in_hand s.pump ++ painted r ≡ sent r ++ in_hand k.pump
  Run-in_hand s k here = append-nil (in_hand s.pump)
  Run-in_hand s k (next {g} r a) =
      sym (append_assoc (in_hand s.pump) (painted r) (painted_in a))
      ∙ (ap (λ x. x ++ painted_in a) (Run-in_hand s g r)
          ∙ (append_assoc (sent r) (in_hand g.pump) (painted_in a)
              ∙ (ap (λ x. sent r ++ x) (Act-Passes a).1
                  ∙ sym (append_assoc (sent r) (sent_in a) (in_hand k.pump)))))

  pub Run-mirror :
      (s k : Session T) (r : Run t s k)
      → resized r ≡ false
      → k.mirror ≡ feed_all (painted r) s.mirror
  Run-mirror s k here still = refl
  Run-mirror s k (next {g} r a) still =
      let calm = or-eq-false (resized r) (resizes_in a) still in
      Act-mirror a calm.1
      ∙ (ap (feed_all (painted_in a)) (Run-mirror s g r calm.0)
          ∙ sym (feed_all-append (painted r) (painted_in a) s.mirror))

  -- Who subscribes at one moment and takes the mirror's screen at a later one, whatever the others and
  -- the thread do before, between and after, where nobody resizes the session once the screen is taken:
  -- what comes to it, with the chunk that the thread has painted and is about to send, is first what
  -- that screen shows already (a chunk that was in hand when it subscribed, and what was painted until
  -- it took the screen: the end of all that was painted by then), and then exactly what has been painted
  -- since, in that order; and the mirror is that screen fed with what has been painted since. So nothing
  -- is lost between the screen and what follows it.
  pub Run-Follows :
      (s g k : Session T) (before : Run t s g) (after : Run t g k)
      → resized after ≡ false
      → (received : List (List ℕ)) × (k.sent ≡ s.sent ++ received)
        × (received ++ in_hand k.pump ≡ (in_hand s.pump ++ painted before) ++ painted after)
        × (g.sent ++ in_hand g.pump ≡ s.sent ++ (in_hand s.pump ++ painted before))
        × (k.mirror ≡ feed_all (painted after) g.mirror)
  Run-Follows s g k before after still =
      let first = Run-in_hand s g before in
      (
        sent before ++ sent after,
        Run-sent g k after
            ∙ (ap (λ x. x ++ sent after) (Run-sent s g before)
                ∙ append_assoc s.sent (sent before) (sent after)),
        append_assoc (sent before) (sent after) (in_hand k.pump)
            ∙ (ap (λ x. sent before ++ x) (sym (Run-in_hand g k after))
                ∙ (sym (append_assoc (sent before) (in_hand g.pump) (painted after))
                    ∙ ap (λ x. x ++ painted after) (sym first))),
        ap (λ x. x ++ in_hand g.pump) (Run-sent s g before)
            ∙ (append_assoc s.sent (sent before) (in_hand g.pump)
                ∙ ap (λ x. s.sent ++ x) (sym first)),
        Run-mirror g k after still,
      )
