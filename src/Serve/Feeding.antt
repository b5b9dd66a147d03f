-- ===== src/Serve/Feeding.antt =====
-- What a frame for a pane's channel does.
use devpipe.Proto.{control, Op, data_op, event, close_op, Frame}
use devpipe.Proto.Messages.{FromClient, Json}
use devpipe.Host.{Backend}
use devpipe.Prelude.{
  true, ◌≢◌, arith, map, ◌++◌, ◌∷◌, [], List, some, none, Option, false, Bool, refl, ◌≡◌, ℕ,
  if◌then◌else◌, ◌==◌,
}
use devpipe.Serve.{Conn, Given, Facts, has_pane, without_pane, feed_pane, at_channel, OpenPane}
use devpipe.Backend.{Entry, EnvSpec}
use devpipe.Prelude.Text.{Text}
use devpipe.Serve.Control.{to_pane, handle_frame}
use devpipe.Prelude.Result.{ok}

-- What has been put toward the session of the first pane of that number.
abbrev pub fed_at : ℕ → List OpenPane → Option (List Frame)
fed_at k [] = none
fed_at k (p ∷ ps) = if at_channel k p then some p.fed else fed_at k ps

abbrev pub more_fed : Frame → Option (List Frame) → Option (List Frame)
more_fed frame none = none
more_fed frame (some fed) = some (fed ++ record frame { channel = control } ∷ [])

-- What a frame makes of what was put toward the session of its own channel.
abbrev pub fed_by : Bool → Frame → Op → Option (List Frame) → Option (List Frame)
fed_by feeds frame close_op fed = none
fed_by feeds frame _ fed = if feeds then more_fed frame fed else fed

fed_at-feed :
    (i : ℕ) (frame : Frame) (ps : List OpenPane)
    → fed_at i (map (feed_pane frame.channel frame) ps)
      ≡ (if i == frame.channel then more_fed frame (fed_at i ps) else fed_at i ps)
fed_at-feed i frame [] = ground arith
fed_at-feed i frame (p ∷ ps) = ground (arith, fed_at-feed i frame ps)

fed_at-without :
    (i k : ℕ) (ps : List OpenPane)
    → fed_at i (without_pane k ps) ≡ (if i == k then none else fed_at i ps)
fed_at-without i k [] = ground arith
fed_at-without i k (p ∷ ps) = ground (arith, fed_at-without i k ps)

fed_at-absent : (k : ℕ) (ps : List OpenPane) → has_pane k ps ≡ false → fed_at k ps ≡ none
fed_at-absent k [] h = refl
fed_at-absent k (p ∷ ps) h = ground (arith, fed_at-absent k ps)

module _ (b : Backend) (enter : EnvSpec → List Text → List (Text × Text) → Entry)
    (json : Json FromClient) (facts : Facts) where
  fed_panes :
      (feeds : Bool) (frame : Frame) (c : Conn b) (i : ℕ)
      → fed_at i
          (if feeds
            then record c { panes = map (feed_pane frame.channel frame) c.panes }
            else c).panes
        ≡ (if i == frame.channel
            then if feeds then more_fed frame (fed_at i c.panes) else fed_at i c.panes
            else fed_at i c.panes)
  fed_panes true frame c i = fed_at-feed i frame c.panes
  fed_panes false frame c i = ground arith

  to_pane-fed :
      (g : Given) (frame : Frame) (op : Op) (c : Conn b) (i : ℕ)
      → fed_at i (to_pane b enter json facts g frame op c).panes ≡ (
          if i == frame.channel
          then fed_by g.feeds frame op (fed_at i c.panes)
          else fed_at i c.panes)
  to_pane-fed g frame close_op c i = fed_at-without i frame.channel c.panes
  to_pane-fed g frame data_op c i = fed_panes g.feeds frame c i
  to_pane-fed g frame event c i = fed_panes g.feeds frame c i

  -- Nothing but the panes is another.
  abbrev pub IsSameButPanes : Conn b → Conn b → Type 0
  IsSameButPanes c d = d ≡ record c { panes = d.panes }

  if-IsSameButPanes :
      (test : Bool) (c d e : Conn b)
      → IsSameButPanes c d
      → IsSameButPanes c e
      → IsSameButPanes c (if test then d else e)
  if-IsSameButPanes true c d e p q = p
  if-IsSameButPanes false c d e p q = q

  to_pane-IsSameButPanes :
      (g : Given) (frame : Frame) (op : Op) (c : Conn b)
      → IsSameButPanes c (to_pane b enter json facts g frame op c)
  to_pane-IsSameButPanes g frame close_op c = refl
  to_pane-IsSameButPanes g frame data_op c = if-IsSameButPanes g.feeds c _ _ refl refl
  to_pane-IsSameButPanes g frame event c = if-IsSameButPanes g.feeds c _ _ refl refl

  fed_by-none : (feeds : Bool) (frame : Frame) (op : Op) → fed_by feeds frame op none ≡ none
  fed_by-none feeds frame close_op = refl
  fed_by-none feeds frame data_op = ground arith
  fed_by-none feeds frame event = ground arith

  -- A channel without a pane.
  nothing_fed :
      (feeds : Bool) (frame : Frame) (op : Op) (ps : List OpenPane) (i : ℕ)
      → has_pane frame.channel ps ≡ false
      → fed_at i ps
        ≡ (if i == frame.channel then fed_by feeds frame op (fed_at i ps) else fed_at i ps)
  nothing_fed feeds frame op ps i e =
      ground (arith, fed_at-absent frame.channel ps e, fed_by-none feeds frame op)

  frame-fed :
      (g : Given) (frame : Frame) (c : Conn b) (i : ℕ) (there : Bool)
      → has_pane frame.channel c.panes ≡ there
      → fed_at i (if there then to_pane b enter json facts g frame frame.op c else c).panes ≡ (
          if i == frame.channel
          then fed_by g.feeds frame frame.op (fed_at i c.panes)
          else fed_at i c.panes)
  frame-fed g frame c i true e = to_pane-fed g frame frame.op c i
  frame-fed g frame c i false e = nothing_fed g.feeds frame frame.op c.panes i e

  -- A frame on a pane's channel says nothing to the client and changes nothing but the panes, never
  -- fails, and touches no pane of another channel. Data and events are put toward the session of that
  -- channel, behind what was put before, numbered zero; `Close` lets go of the pane.
  pub handle_frame-fed :
      (g : Given) (frame : Frame) (c : Conn b) (i : ℕ)
      → frame.channel ≢ control
      → let h = handle_frame b enter json facts g frame c in
        (h.1 ≡ ok tt)
        × IsSameButPanes c h.0
        × (fed_at i h.0.panes ≡ (
            if i == frame.channel
            then fed_by g.feeds frame frame.op (fed_at i c.panes)
            else fed_at i c.panes))
  unfolding handle_frame
  handle_frame-fed g frame c i pane =
      let there = has_pane frame.channel c.panes in
      let on_pane : (frame.channel == control) ≡ false = ground (arith, pane) in
      rw on_pane (
        refl,
        if-IsSameButPanes there c _ c (to_pane-IsSameButPanes g frame frame.op c) refl,
        frame-fed g frame c i there refl,
      )
