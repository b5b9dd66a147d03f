-- ===== src/Marker/Chunks.antt =====
-- `Scanner::feed` over the chunks that a pty happens to produce.
use devpipe.Prelude.{
  ℕ, List, [], ◌∷◌, ◌++◌, ◌≡◌, refl, sym, ap, ◌∙◌, arith, append_assoc, append-nil, Option, none,
  some,
}
use devpipe.Marker.{
  Marker, State, text, escaped, payload, Scanner, step, feed_from, feed, with_scanner, push_found,
  parse,
}

push_found-append :
    (before found : List Marker) (m : Option Marker)
    → push_found (before ++ found) m ≡ before ++ push_found found m
push_found-append before found none = refl
push_found-append before found (some m) = append_assoc before found (m ∷ [])

abbrev behind : List Marker → State × List Marker → State × List Marker
behind before (s, found) = (s, before ++ found)

step-behind :
    (s : State) (byte : ℕ) (before found : List Marker)
    → step s byte (before ++ found) ≡ behind before (step s byte found)
unfolding step
step-behind text byte before found = refl
step-behind escaped byte before found = refl
step-behind (payload c skipping) byte before found =
    ground (arith, push_found-append before found (parse c))

feed_from-behind :
    (s : State) (bytes : List ℕ) (before found : List Marker)
    → feed_from s bytes (before ++ found) ≡ behind before (feed_from s bytes found)
unfolding feed_from
feed_from-behind s [] before found = refl
feed_from-behind s (byte ∷ bytes) before found =
    rw (step-behind s byte before found)
      (feed_from-behind (step s byte found).0 bytes before (step s byte found).1)

pub feed_from-append :
    (s : State) (xs ys : List ℕ) (found : List Marker)
    → feed_from s (xs ++ ys) found ≡ feed_from (feed_from s xs found).0 ys (feed_from s xs found).1
unfolding feed_from
feed_from-append s [] ys found = refl
feed_from-append s (x ∷ xs) ys found = feed_from-append (step s x found).0 xs ys (step s x found).1

-- The markers found so far only stand in front.
pub feed_from-found :
    (s : State) (bytes : List ℕ) (found : List Marker)
    → feed_from s bytes found ≡ ((feed_from s bytes []).0, found ++ (feed_from s bytes []).1)
feed_from-found s bytes found =
    ap (feed_from s bytes) (sym (append-nil found)) ∙ feed_from-behind s bytes found []

-- What a client of the scanner does: one call for each chunk, the finds in order.
unfoldable pub feed_chunks : Scanner → List (List ℕ) → Scanner × List Marker
feed_chunks scanner [] = (scanner, [])
feed_chunks scanner (chunk ∷ chunks) =
    let (scanner', found) = feed scanner chunk in
    let (last, later) = feed_chunks scanner' chunks in (last, found ++ later)

abbrev pub concat : List (List ℕ) → List ℕ
concat [] = []
concat (chunk ∷ chunks) = chunk ++ concat chunks

pub feed-append :
    (scanner : Scanner) (xs ys : List ℕ)
    → feed scanner (xs ++ ys)
      ≡ ((feed (feed scanner xs).0 ys).0, (feed scanner xs).1 ++ (feed (feed scanner xs).0 ys).1)
unfolding feed
feed-append scanner xs ys = ap with_scanner (
    feed_from-append scanner.state xs ys []
    ∙ feed_from-found (feed_from scanner.state xs []).0 ys (feed_from scanner.state xs []).1)

-- However the output is cut into chunks, the scanner finds the same markers in the same order and
-- ends in the same state as on the whole.
pub feed_chunks-concat :
    (scanner : Scanner) (chunks : List (List ℕ))
    → feed_chunks scanner chunks ≡ feed scanner (concat chunks)
unfolding feed_chunks
feed_chunks-concat scanner [] = unfold feed feed_from in refl
feed_chunks-concat scanner (chunk ∷ chunks) =
    rw (feed_chunks-concat (feed scanner chunk).0 chunks)
      (sym (feed-append scanner chunk (concat chunks)))
