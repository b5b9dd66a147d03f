-- ===== src/Marker/Bounded.antt =====
-- The memory that one scanner holds, whatever is printed at it.
use devpipe.Prelude.{ℕ, List, [], ◌∷◌, ◌≡◌, ◌≤◌, arith, true, false, length}
use devpipe.Marker.{
  Marker, State, text, escaped, payload, Scanner, step, feed_from, feed, ceiling, gives_up,
}

-- A payload being collected fits and may still be ours; a skipped one is not kept.
abbrev pub Holds : State → Type 0
Holds text = Unit
Holds escaped = Unit
Holds (payload collected true) = collected ≡ []
Holds (payload collected false) = gives_up collected ≡ false

step-Holds : (s : State) (byte : ℕ) (found : List Marker) → Holds s → Holds (step s byte found).0
unfolding step
step-Holds text byte found h = ground arith
step-Holds escaped byte found h = ground arith
step-Holds (payload c true) byte found h = ground arith
step-Holds (payload c false) byte found h = ground arith

feed_from-Holds :
    (s : State) (bytes : List ℕ) (found : List Marker) → Holds s → Holds (feed_from s bytes found).0
unfolding feed_from
feed_from-Holds s [] found h = h
feed_from-Holds s (b ∷ bytes) found h =
    feed_from-Holds (step s b found).0 bytes (step s b found).1 (step-Holds s b found h)

abbrev pub held : State → List ℕ
held text = []
held escaped = []
held (payload collected skipping) = collected

Holds-bounded : (s : State) → Holds s → length (held s) ≤ ceiling
Holds-bounded text h = omega arith
Holds-bounded escaped h = omega arith
Holds-bounded (payload c true) h = ground arith
Holds-bounded (payload c false) h = ground arith

-- From a state that satisfies `Holds` (a new scanner's does), any input leads to such a state
-- again, with at most `CEILING` bytes collected.
pub feed-Holds :
    (scanner : Scanner) (bytes : List ℕ)
    → Holds scanner.state
    → Holds (feed scanner bytes).0.state × (length (held (feed scanner bytes).0.state) ≤ ceiling)
unfolding feed
feed-Holds scanner bytes h =
    let after = feed_from-Holds scanner.state bytes [] h in (after, Holds-bounded _ after)
