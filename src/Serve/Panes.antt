-- ===== src/Serve/Panes.antt =====
-- The panes that a client has open, through all that it says.
use devpipe.Proto
use devpipe.Proto.{data_op, close_op, event, decode, Op, control, Frame}
use devpipe.Prelude.{
  ◌==◌, arith, map, ◌++◌, ◌∷◌, [], List, not, false, true, Bool, inr, inl, ◌≢◌, ◌∙◌, refl, ◌≡◌, ℕ,
  any-append, Bool-cases, if◌then◌else◌,
}
use devpipe.Serve.{
  binary, closing, broken_off, other, Incoming, Conn, Given, Handled, Facts, at_channel, feed_pane,
  without_pane, has_pane, OpenPane,
}
use devpipe.Host.{Backend}
use devpipe.Backend.{Entry, EnvSpec}
use devpipe.Prelude.Text.{Text}
use devpipe.Proto.Messages.{FromClient, Json}
use devpipe.Serve.Control.{to_pane, handle_frame}
use devpipe.Prelude.Result.{err, ok, Result}
use devpipe.Serve.Talk.{go_on, then_go, talk_on}
use devpipe.Serve.Replies.{control-panes}

-- No pane is numbered like the control channel, and no two have the same number.
unfoldable pub IsOpen : List OpenPane → Type 0
IsOpen [] = Unit
IsOpen (p ∷ ps) = (p.channel ≢ control) × (has_pane p.channel ps ≡ false) × IsOpen ps

has_pane-without_pane :
    (i k : ℕ) (ps : List OpenPane) → has_pane i ps ≡ false → has_pane i (without_pane k ps) ≡ false
has_pane-without_pane i k [] h = refl
has_pane-without_pane i k (p ∷ ps) h = ground (arith, has_pane-without_pane i k ps)

without_pane-IsOpen : (k : ℕ) (ps : List OpenPane) → IsOpen ps → IsOpen (without_pane k ps)
unfolding IsOpen
without_pane-IsOpen k [] h = tt
without_pane-IsOpen k (p ∷ ps) h = elim (Bool-cases (not (at_channel k p))) [
  | inl keep ↦ rw keep (h.0, has_pane-without_pane p.channel k ps h.1, without_pane-IsOpen k ps h.2)
  | inr dropped ↦ rw dropped (without_pane-IsOpen k ps h.2)
]

append-IsOpen :
    (p : OpenPane) (ps : List OpenPane)
    → p.channel ≢ control
    → has_pane p.channel ps ≡ false
    → IsOpen ps
    → IsOpen (ps ++ p ∷ [])
unfolding IsOpen
append-IsOpen p [] n f h = (n, refl, tt)
append-IsOpen p (q ∷ ps) n f h = (
  h.0,
  any-append (at_channel q.channel) ps (p ∷ []) ∙ ground arith,
  append-IsOpen p ps n (ground arith) h.2,
)

feed_pane-channel :
    (k : ℕ) (frame : Frame) (p : OpenPane) → (feed_pane k frame p).channel ≡ p.channel
feed_pane-channel k frame p = go (at_channel k p)
  where
    go :
        (t : Bool)
        → (if t
            then record p { fed = p.fed ++ record frame { channel = control } ∷ [] }
            else p).channel
          ≡ p.channel
    go true = refl
    go false = refl

has_pane-feed :
    (i k : ℕ) (frame : Frame) (ps : List OpenPane)
    → has_pane i (map (feed_pane k frame) ps) ≡ has_pane i ps
has_pane-feed i k frame [] = refl
has_pane-feed i k frame (p ∷ ps) = rw (feed_pane-channel k frame p, has_pane-feed i k frame ps) refl

feed-IsOpen :
    (k : ℕ) (frame : Frame) (ps : List OpenPane) → IsOpen ps → IsOpen (map (feed_pane k frame) ps)
unfolding IsOpen
feed-IsOpen k frame [] h = tt
feed-IsOpen k frame (p ∷ ps) h =
    rw (feed_pane-channel k frame p, has_pane-feed p.channel k frame ps)
      (h.0, h.1, feed-IsOpen k frame ps h.2)

module _ (b : Backend) (enter : EnvSpec → List Text → List (Text × Text) → Entry)
    (json : Json FromClient) (facts : Facts) where
  Sound : Handled b → Type 0
  Sound h = IsOpen h.0.panes

  if-Sound : (test : Bool) (h k : Handled b) → Sound h → Sound k → Sound (if test then h else k)
  if-Sound true h k p q = p
  if-Sound false h k p q = q

  fed-Sound :
      (feeds : Bool) (frame : Frame) (c : Conn b)
      → IsOpen c.panes
      → IsOpen
          (if feeds
            then record c { panes = map (feed_pane frame.channel frame) c.panes }
            else c).panes
  fed-Sound true frame c p = feed-IsOpen frame.channel frame c.panes p
  fed-Sound false frame c p = p

  to_pane-Sound :
      (g : Given) (frame : Frame) (op : Op) (c : Conn b)
      → IsOpen c.panes
      → Sound (to_pane b enter json facts g frame op c, ok tt)
  unfolding Sound
  to_pane-Sound g frame close_op c p = without_pane-IsOpen frame.channel c.panes p
  to_pane-Sound g frame data_op c p = fed-Sound g.feeds frame c p
  to_pane-Sound g frame event c p = fed-Sound g.feeds frame c p

  handle_frame-Sound :
      (g : Given) (frame : Frame) (c : Conn b)
      → IsOpen c.panes
      → Sound (handle_frame b enter json facts g frame c)
  unfolding handle_frame Sound
  handle_frame-Sound g frame c p =
      if-Sound (frame.channel == control) _ _
        (control-panes b enter json facts IsOpen append-IsOpen without_pane-IsOpen g frame c p)
        (go (has_pane frame.channel c.panes))
    where
      go :
          (t : Bool)
          → Sound ((if t then to_pane b enter json facts g frame frame.op c else c), ok tt)
      go true = to_pane-Sound g frame frame.op c p
      go false = p

  then_go-Sound :
      (h : Handled b) (f : Conn b → Handled b)
      → Sound h
      → ((c : Conn b) → IsOpen c.panes → Sound (f c))
      → Sound (then_go b enter json facts h f)
  unfolding Sound
  then_go-Sound (c, err e) f p next = p
  then_go-Sound (c, ok _) f p next = next c p

  go_on-Sound :
      (r : Result Proto.Error Frame) (g : Given) (c : Conn b) (f : Conn b → Handled b)
      → IsOpen c.panes
      → ((d : Conn b) → IsOpen d.panes → Sound (f d))
      → Sound (go_on b enter json facts r g c f)
  unfolding Sound
  go_on-Sound (err e) g c f p next = p
  go_on-Sound (ok frame) g c f p next =
      then_go-Sound (handle_frame b enter json facts g frame c) f (handle_frame-Sound g frame c p)
        next

  -- However the conversation goes on after the greeting, and wherever it breaks off: if the open panes
  -- have different channels, none of them the control channel, they still do.
  pub talk_on-IsOpen :
      (messages : List (Given × Incoming)) (c : Conn b)
      → IsOpen c.panes
      → IsOpen (talk_on b enter json facts messages c).0.panes
  unfolding talk_on Sound
  talk_on-IsOpen [] c p = p
  talk_on-IsOpen ((g, closing) ∷ rest) c p = p
  talk_on-IsOpen ((g, broken_off) ∷ rest) c p = p
  talk_on-IsOpen ((g, other) ∷ rest) c p = talk_on-IsOpen rest c p
  talk_on-IsOpen ((g, binary bytes) ∷ rest) c p =
      go_on-Sound (decode bytes) g c (talk_on b enter json facts rest) p
        (λ d. talk_on-IsOpen rest d)
