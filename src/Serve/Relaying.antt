-- ===== src/Serve/Relaying.antt =====
-- What of a session's output reaches the client.
use devpipe.Proto.{event, close_op, data_op, Op, close_op, Frame}
use devpipe.Prelude.{
  refl, arith, map, ◌≡◌, ℕ, all, ◌==◌, ◌∷◌, [], List, ◌&&◌, not, false, true, Bool, if◌then◌else◌,
}
use devpipe.Serve.{unless_ending, relay}

abbrev ends : Op → Bool
ends close_op = true
ends _ = false

abbrev pub is_close : Frame → Bool
is_close frame = ends frame.op

-- `Close` comes once, and last.
abbrev pub closes_last : List Frame → Bool
closes_last [] = false
closes_last (frame ∷ []) = is_close frame
closes_last (frame ∷ next ∷ frames) = not (is_close frame) && closes_last (next ∷ frames)

-- The frames of the session before its first `Close`.
abbrev pub before_close : List Frame → List Frame
before_close [] = []
before_close (frame ∷ frames) = if is_close frame then [] else frame ∷ before_close frames

abbrev pub is_on : ℕ → Frame → Bool
is_on channel frame = frame.channel == channel

cons-closes_last :
    (f : Frame) (fs : List Frame)
    → is_close f ≡ false
    → closes_last fs ≡ true
    → closes_last (f ∷ fs) ≡ true
cons-closes_last f [] e h = absurd (ground arith)
cons-closes_last f (g ∷ fs) e h = rw e h

step-closes_last :
    (f : Frame) (op : Op) (rest : List Frame)
    → f.op ≡ op
    → closes_last rest ≡ true
    → closes_last (f ∷ unless_ending op rest) ≡ true
step-closes_last f close_op rest e h = rw e refl
step-closes_last f data_op rest e h = cons-closes_last f rest (rw e refl) h
step-closes_last f event rest e h = cons-closes_last f rest (rw e refl) h

relay-closes_last : (channel : ℕ) (frames : List Frame) → closes_last (relay channel frames) ≡ true
unfolding relay
relay-closes_last channel [] = refl
relay-closes_last channel (f ∷ frames) =
    step-closes_last (record f { channel = channel }) f.op (relay channel frames) refl
      (relay-closes_last channel frames)

all-unless_ending :
    (p : Frame → Bool) (op : Op) (rest : List Frame)
    → all p rest ≡ true
    → all p (unless_ending op rest) ≡ true
all-unless_ending p close_op rest h = refl
all-unless_ending p data_op rest h = h
all-unless_ending p event rest h = h

relay-is_on :
    (channel : ℕ) (frames : List Frame) → all (is_on channel) (relay channel frames) ≡ true
unfolding relay
relay-is_on channel [] = ground arith
relay-is_on channel (f ∷ frames) = ground (
  arith,
  all-unless_ending (is_on channel) f.op (relay channel frames) (relay-is_on channel frames),
)

abbrev pub payloads : List Frame → List (List ℕ)
payloads = map (λ f. f.payload)

step-payloads :
    (f g : Frame) (op : Op) (rest frames : List Frame)
    → f.op ≡ op
    → g.op ≡ op
    → f.payload ≡ g.payload
    → payloads (before_close rest) ≡ payloads (before_close frames)
    → payloads (before_close (f ∷ unless_ending op rest)) ≡ payloads (before_close (g ∷ frames))
step-payloads f g close_op rest frames e d p h = rw (e, d) refl
step-payloads f g data_op rest frames e d p h = rw (e, d, p, h) refl
step-payloads f g event rest frames e d p h = rw (e, d, p, h) refl

relay-payloads :
    (channel : ℕ) (frames : List Frame)
    → payloads (before_close (relay channel frames)) ≡ payloads (before_close frames)
unfolding relay
relay-payloads channel [] = refl
relay-payloads channel (f ∷ frames) =
    step-payloads (record f { channel = channel }) f f.op (relay channel frames) frames refl refl
      refl (relay-payloads channel frames)

-- What the client gets of one pane carries the pane's channel and ends with the one `Close`, whether
-- the keeper said so or went away without; before it comes what the session put out, in order.
pub relay-frames :
    (channel : ℕ) (frames : List Frame)
    → (all (is_on channel) (relay channel frames) ≡ true)
      × (closes_last (relay channel frames) ≡ true)
      × (payloads (before_close (relay channel frames)) ≡ payloads (before_close frames))
relay-frames channel frames =
    (relay-is_on channel frames, relay-closes_last channel frames, relay-payloads channel frames)
