-- ===== src/Marker/Reference.antt =====
-- The scanner against a reference that keeps every payload whole and judges it at its end.
use mathlib.Core.List.{append_assoc}
use devpipe.Prelude.{
  append-nil, subst, Option-cases, ℕ, ◌≤◌, Bool, true, false, List, [], ◌∷◌, ◌++◌, ◌≡◌, inl, inr,
  refl, sym, arith, Option, none, some, if◌then◌else◌, ◌==◌, ltb, length, length-append, take,
  Bool-cases, subst,
}
use devpipe.Prelude.Text.{strip_prefix, text_eq_iff}
use devpipe.Marker.{
  collect, step_payload, new, Marker, State, text, escaped, payload, step, feed_from, feed, parse,
  push_found, ceiling, prefix, esc, ends_payload, gives_up, new,
}

pub data Whole : Type 0 where
  outside : Whole
  opened : Whole
  inside : (collected : List ℕ) → Whole

-- A payload over the ceiling is never a marker.
abbrev pub judge : List ℕ → Option Marker
judge collected = if ltb ceiling (length collected) then none else parse collected

pub whole_step : Whole → ℕ → List Marker → Whole × List Marker
whole_step outside byte found = ((if byte == esc then opened else outside), found)
whole_step opened byte found =
    ((if byte == b']' then inside [] else if byte == esc then opened else outside), found)
whole_step (inside c) byte found =
    if ends_payload byte
    then ((if byte == esc then opened else outside), push_found found (judge c))
    else (inside (c ++ byte ∷ []), found)

pub whole_feed : Whole → List ℕ → List Marker → Whole × List Marker
whole_feed w [] found = (w, found)
whole_feed w (byte ∷ bytes) found =
    let (w', found') = whole_step w byte found in whole_feed w' bytes found'

-- No payload that begins this way can be a marker.
abbrev Hopeless : List ℕ → Type 0
Hopeless c = (more : List ℕ) → judge (c ++ more) ≡ none

strip_prefix-take :
    (q p more r : List ℕ)
    → length p ≤ length q
    → strip_prefix q (p ++ more) ≡ some r
    → take (length p) q ≡ p
strip_prefix-take q [] more r h e = refl
strip_prefix-take [] (c ∷ p) more r h e = absurd (omega arith)
strip_prefix-take (d ∷ q) (c ∷ p) more r h e =
    ground (arith, strip_prefix-take q p more r (omega arith))

-- The two reasons to give up are the two reasons for which no longer payload is a marker.
gives_up-Hopeless : (c : List ℕ) → gives_up c ≡ true → Hopeless c
gives_up-Hopeless c h more = elim (Bool-cases (ltb ceiling (length c))) [
  | inl long ↦ ground (arith, length-append c more)
  | inr short ↦ elim (Option-cases (strip_prefix prefix (c ++ more))) [
    | inl no_match ↦ unfold parse in rw no_match (ground arith)
    | inr (r, e) ↦
        let same = strip_prefix-take prefix c more r (ground arith) e in
        ground (arith, (text_eq_iff c (take (length c) prefix)).1 (sym same))
  ]
]

Hopeless-append : (c : List ℕ) (b : ℕ) → Hopeless c → Hopeless (c ++ b ∷ [])
Hopeless-append c b h more = rw append_assoc (h (b ∷ more))

gives_up-judge : (c : List ℕ) → gives_up c ≡ false → judge c ≡ parse c
gives_up-judge c h = ground arith

-- Which state of the reference a state of the scanner stands for.
abbrev pub Stands : State → Whole → Type 0
Stands text outside = Unit
Stands escaped opened = Unit
Stands (payload c false) (inside w) = (c ≡ w) × (gives_up c ≡ false)
Stands (payload c true) (inside w) = Hopeless w
Stands _ _ = ⊥

abbrev Agree : State × List Marker → Whole × List Marker → Type 0
Agree (s, found) (w, found') = Stands s w × (found ≡ found')

-- Both machines leave a payload by the same door.
ended :
    (by_escape : Bool) (found found' : List Marker)
    → found ≡ found'
    → Agree
        ((if by_escape then escaped else text), found)
        ((if by_escape then opened else outside), found')
ended true found found' e = (tt, e)
ended false found found' e = (tt, e)

collected : (c : List ℕ) (found : List Marker) → Agree (collect c, found) (inside c, found)
collected c found = elim (Bool-cases (gives_up c)) [
  | inl e ↦ rw (e, collect) (gives_up-Hopeless c e, refl)
  | inr e ↦ rw (e, collect) ((refl, e), refl)
]

open_payload :
    (c : List ℕ) (byte : ℕ) (found : List Marker)
    → gives_up c ≡ false
    → Agree (step_payload c false byte found) (whole_step (inside c) byte found)
unfolding whole_step
open_payload c byte found fits = elim (Bool-cases (ends_payload byte)) [
  | inl e ↦ rw e (ended (byte == esc) _ _ (rw (gives_up-judge c fits) refl))
  | inr e ↦ rw e (collected (c ++ byte ∷ []) found)
]

step-Agree :
    (s : State) (w : Whole) (byte : ℕ) (found : List Marker)
    → Stands s w
    → Agree (step s byte found) (whole_step w byte found)
unfolding step whole_step
step-Agree text outside byte found h = ground arith
step-Agree text opened byte found h = absurd h
step-Agree text (inside w) byte found h = absurd h
step-Agree escaped outside byte found h = absurd h
step-Agree escaped opened byte found h = ground arith
step-Agree escaped (inside w) byte found h = absurd h
step-Agree (payload c true) outside byte found h = absurd h
step-Agree (payload c true) opened byte found h = absurd h
step-Agree (payload c false) outside byte found h = absurd h
step-Agree (payload c false) opened byte found h = absurd h
step-Agree (payload c true) (inside w) byte found h = elim (Bool-cases (ends_payload byte)) [
  | inl e ↦
      rw e
        (ended (byte == esc) found (push_found found (judge w)) (rw (rw append-nil at (h [])) refl))
  | inr e ↦ rw e (Hopeless-append w byte h, refl)
]
step-Agree (payload c false) (inside w) byte found (same, fits) =
    subst (λ w. Agree (step_payload c false byte found) (whole_step (inside w) byte found)) same
      (open_payload c byte found fits)

feed_from-Agree :
    (s : State) (w : Whole) (bytes : List ℕ) (found found' : List Marker)
    → Stands s w
    → found ≡ found'
    → Agree (feed_from s bytes found) (whole_feed w bytes found')
unfolding feed_from whole_feed
feed_from-Agree s w [] found found' h e = (h, e)
feed_from-Agree s w (b ∷ bytes) found found' h e =
    let next = step-Agree s w b found h in
    subst (λ f. Agree (feed_from s (b ∷ bytes) found) (whole_feed w (b ∷ bytes) f)) e
      (feed_from-Agree (step s b found).0 (whole_step w b found).0 bytes (step s b found).1
        (whole_step w b found).1 next.0 next.1)

-- The scanner, which drops a payload as soon as it cannot be a marker, finds in any stream the
-- markers that the reference finds, which keeps each payload to its end and parses those of at
-- most `CEILING` bytes.
pub feed-whole_feed : (bytes : List ℕ) → (feed new bytes).1 ≡ (whole_feed outside bytes []).1
unfolding feed
feed-whole_feed bytes = (feed_from-Agree text outside bytes [] [] tt refl).1
