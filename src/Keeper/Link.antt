-- ===== src/Keeper/Link.antt =====
-- `Link` of devpipe/src/keeper.rs: the daemon's end of a keeper's socket. What the socket takes and what
-- arrives on it before it ends are arguments.
use devpipe.Prelude.{
  inr, inl, ap, Bool-cases, arith, refl, ◌≡◌, ◌≤◌, ◌+◌, length, map, false, true, ◌++◌, ◌∷◌, [],
  List, some, none, Option, Bool, ℕ, if◌then◌else◌, ◌&&◌,
}
use devpipe.Proto.{Frame}
use devpipe.Proto.Control.{control_frame, json_of, json_of-control_frame}
use devpipe.Proto.Messages.{Json}
use devpipe.Keeper.Messages
use devpipe.Keeper.Messages.{Saying, Asking, info}
use devpipe.Keeper.Framing.{ReadError, read_frame, write_frame, read_frame-write_frame, ceiling}
use devpipe.Keeper.Serving.{stirred, slept, Session, described, Tick, watched}
use devpipe.Prelude.Text.{text_eq_iff, text_eq, Text}
use devpipe.Prelude.Result.{ok, Result}

-- `Detail`, as a keeper reports it.
pub record Detail : Type 0 where
  pub id : Text
  pub argv : List Text
  pub title : Text
  pub cols : ℕ
  pub rows : ℕ
  pub running : Bool

pub data Stirred : Type 0 where
  titled : Text → Stirred
  ended : Stirred

abbrev pub detail_of : Option Saying → Option Detail
detail_of (some (info id argv title cols rows running)) =
    some
      (record { id = id; argv = argv; title = title; cols = cols; rows = rows; running = running })
detail_of _ = none

abbrev pub stirred_by : Option Saying → List Stirred → List Stirred
stirred_by (some (Messages.titled title)) rest = titled title ∷ rest
stirred_by (some Messages.ended) rest = ended ∷ []
stirred_by _ rest = rest

abbrev pub title_told : Text → List Stirred → Text
title_told last [] = last
title_told last (titled title ∷ heard) = title_told title heard
title_told last (ended ∷ heard) = title_told last heard

abbrev pub end_told : List Stirred → Bool
end_told [] = false
end_told (titled title ∷ heard) = end_told heard
end_told (ended ∷ heard) = true

-- What the keeper sees while the child is there.
abbrev pub latest : Bool → Text → List Tick → Text
latest false last ticks = last
latest true last [] = last
latest true last (stirred alive ∷ ticks) = latest alive last ticks
latest true last (slept alive title ∷ ticks) = latest alive title ticks

abbrev pub is_over : Bool → List Tick → Bool
is_over false ticks = true
is_over true [] = false
is_over true (stirred alive ∷ ticks) = is_over alive ticks
is_over true (slept alive title ∷ ticks) = is_over alive ticks

module _ (json : Json Saying) where
  abbrev pub answered : Result ReadError (Option (Frame × List ℕ)) → Option Detail
  answered (ok (some (frame, _))) = detail_of (json_of json frame)
  answered _ = none

  -- `Link::detail`: whether the socket can be connected to and written to, and what comes back.
  unfoldable pub detail : Bool → Bool → List ℕ → Option Detail
  detail connects writes bytes = if connects && writes then answered (read_frame bytes) else none

  -- The task of `Link::watch`, over the frames that it reads.
  unfoldable pub stirs : List Frame → List Stirred
  stirs [] = []
  stirs (frame ∷ frames) = let rest = stirs frames in stirred_by (json_of json frame) rest

  -- What a keeper answers to `Describe` is what the session is, where its frame is within the ceiling.
  pub detail-described :
      (s : Session) (rest : List ℕ)
      → 5 + length (json.to_vec (described s)) ≤ ceiling
      → detail true true (write_frame (control_frame json (described s)) ++ rest)
        ≡ some (record {
          id = s.id;
          argv = s.argv;
          title = s.title;
          cols = s.cols;
          rows = s.rows;
          running = s.alive;
        })
  unfolding detail described control_frame json_of
  detail-described s rest fits =
      rw
        (
          read_frame-write_frame (control_frame json (described s)) rest (omega arith) fits,
          json.from_slice-to_vec (described s),
        )
        refl

  stirs-said :
      (said : Saying) (more : List Saying)
      → stirs (map (control_frame json) (said ∷ more))
        ≡ stirred_by (some said) (stirs (map (control_frame json) more))
  unfolding stirs
  stirs-said said more =
      ap (λ o. stirred_by o (stirs (map (control_frame json) more)))
        (json_of-control_frame json said)

  -- Whoever watches a session and takes what is told for its title has the title that the keeper saw
  -- last, and hears of the end where the keeper saw the child gone.
  pub stirs-watched :
      (alive : Bool) (last : Text) (ticks : List Tick)
      → let heard = stirs (map (control_frame json) (watched alive last ticks)) in
        (title_told last heard ≡ latest alive last ticks) × (end_told heard ≡ is_over alive ticks)
  unfolding watched
  stirs-watched false last ticks = rw (stirs-said Messages.ended []) (refl, refl)
  stirs-watched true last [] = unfold stirs in (refl, refl)
  stirs-watched true last (stirred alive ∷ ticks) = stirs-watched alive last ticks
  stirs-watched true last (slept alive title ∷ ticks) = elim (Bool-cases (text_eq title last)) [
    | inl same ↦ rw (same, (text_eq_iff title last).0 same) (stirs-watched alive last ticks)
    | inr other ↦
        rw (other, stirs-said (Messages.titled title) (watched alive title ticks))
          (stirs-watched alive title ticks)
  ]
