-- ===== src/Marker/Tests.antt =====
-- The tests of devpipe/src/marker.rs as evaluations, and the theorems at concrete inputs.
use devpipe.Prelude.{[], ◌∷◌, ◌++◌, ◌≡◌, refl, arith, false, inl}
use devpipe.Prelude.Text.{codes}
use devpipe.Prelude.Text.Utf8.{from_utf8}
use devpipe.Prelude.Text.Trim.{trim}
use devpipe.Marker.{open_url, text, payload, Scanner, new, feed, step, parse, safe_url, esc, bel}
use devpipe.Marker.Recovery.{sequence, feed-request}
use devpipe.Marker.SafeUrl.{feed-AllSafe, AllSafe}
use devpipe.Marker.Reference.{feed-whole_feed, outside, whole_feed}

abbrev halfway : Scanner
halfway = record { state = payload (codes "9998;dev") false }

whole_marker :
    (feed new (sequence (codes "https://claude.ai/oauth") ++ esc ∷ b'\\' ∷ [])).1
    ≡ open_url (codes "https://claude.ai/oauth") ∷ []
unfolding feed step parse safe_url from_utf8 trim
whole_marker = refl

scripts_do_not_open : (feed new (sequence (codes "javascript:alert(1)") ++ bel ∷ [])).1 ≡ []
unfolding feed step parse safe_url from_utf8 trim
scripts_do_not_open = refl

feed-request_example :
    feed halfway (sequence (codes "https://ok/") ++ bel ∷ [])
    ≡ (record { state = text }, (feed halfway (esc ∷ [])).1 ++ open_url (codes "https://ok/") ∷ [])
feed-request_example =
    feed-request halfway (codes "https://") b'o' (codes "k/") bel (inl refl) (omega arith)
      (omega arith) (inl refl)

feed-AllSafe_example : AllSafe (feed halfway (codes "pipe;open;https://ok/" ++ bel ∷ [])).1
feed-AllSafe_example = feed-AllSafe halfway (codes "pipe;open;https://ok/" ++ bel ∷ [])

feed-whole_feed_example :
    (feed new (sequence (codes "https://ok/") ++ bel ∷ [])).1
    ≡ (whole_feed outside (sequence (codes "https://ok/") ++ bel ∷ []) []).1
feed-whole_feed_example = feed-whole_feed (sequence (codes "https://ok/") ++ bel ∷ [])
