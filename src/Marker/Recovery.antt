-- ===== src/Marker/Recovery.antt =====
-- A well-formed request for a browser is reported, whatever came before it.
use devpipe.Prelude.{
  ℕ, ◌+◌, ◌<◌, ◌≤◌, true, false, List, [], ◌∷◌, ◌++◌, ◌≡◌, ◌⊎◌, inl, inr, refl, ap, ◌∙◌, arith,
  some, if◌then◌else◌, ◌==◌, length, length-append, All, All-append, any, append_assoc, append-nil,
}
use devpipe.Prelude.Text.{Text, codes}
use devpipe.Prelude.Text.Utf8.{from_utf8-ascii, len, is_control}
use devpipe.Prelude.Text.Trim.{is_whitespace, trim-no_whitespace}
use devpipe.Marker.{
  with_scanner, step_payload, Marker, open_url, State, text, escaped, payload, Scanner, step,
  feed_from, feed, parse, ceiling, prefix, esc, bel, ends_payload, safe_url, without_scheme,
}

-- The ASCII characters that show: neither blank nor control.
abbrev pub IsPrinting : Text → Type 0
IsPrinting = All (λ c. (0x20 < c) × (c < 0x7f))

IsPrinting-ascii : (s : Text) → IsPrinting s → All (λ c. c < 0x80) s
IsPrinting-ascii [] h = tt
IsPrinting-ascii (c ∷ s) h = (omega arith, IsPrinting-ascii s h.1)

IsPrinting-len : (s : Text) → IsPrinting s → len s ≡ length s
IsPrinting-len [] h = refl
IsPrinting-len (c ∷ s) h = ground (arith, IsPrinting-len s h.1)

IsPrinting-no_control : (s : Text) → IsPrinting s → any is_control s ≡ false
IsPrinting-no_control [] h = refl
IsPrinting-no_control (c ∷ s) h = ground (arith, IsPrinting-no_control s h.1)

IsPrinting-no_whitespace : (s : Text) → IsPrinting s → any is_whitespace s ≡ false
IsPrinting-no_whitespace [] h = refl
IsPrinting-no_whitespace (c ∷ s) h = ground (arith, IsPrinting-no_whitespace s h.1)

abbrev pub IsScheme : Text → Type 0
IsScheme scheme = (scheme ≡ codes "https://") ⊎ (scheme ≡ codes "http://")

IsScheme-IsPrinting : (scheme : Text) → IsScheme scheme → IsPrinting scheme
IsScheme-IsPrinting scheme (inl e) = rw e (omega arith)
IsScheme-IsPrinting scheme (inr e) = rw e (omega arith)

IsScheme-length : (scheme : Text) → IsScheme scheme → length scheme ≤ 8
IsScheme-length scheme (inl e) = rw e (omega arith)
IsScheme-length scheme (inr e) = rw e (omega arith)

IsScheme-without_scheme :
    (scheme rest : Text) → IsScheme scheme → without_scheme (scheme ++ rest) ≡ some rest
IsScheme-without_scheme scheme rest (inl e) = rw e refl
IsScheme-without_scheme scheme rest (inr e) = rw e refl

safe_url-accepts :
    (scheme : Text) (c : ℕ) (rest : Text)
    → IsScheme scheme
    → IsPrinting (c ∷ rest)
    → length (c ∷ rest) ≤ 2040
    → safe_url (scheme ++ c ∷ rest) ≡ some (scheme ++ c ∷ rest)
unfolding safe_url
safe_url-accepts scheme c rest s p short =
    let url = scheme ++ c ∷ rest in
    let printing = All-append _ scheme (c ∷ rest) (IsScheme-IsPrinting scheme s) p in
    rw
      (
        trim-no_whitespace url (IsPrinting-no_whitespace url printing),
        IsPrinting-len url printing,
        IsScheme-without_scheme scheme (c ∷ rest) s,
        IsPrinting-no_control url printing,
      )
      (ground (arith, length-append scheme (c ∷ rest), IsScheme-length scheme s))

abbrev request : Text → List ℕ
request url = prefix ++ codes "open;" ++ url

parse-request :
    (url : Text)
    → IsPrinting url
    → safe_url url ≡ some url
    → parse (request url) ≡ some (open_url url)
unfolding parse
parse-request url p safe =
    rw
      (from_utf8-ascii (codes "open;" ++ url)
        (All-append _ (codes "open;") url (omega arith) (IsPrinting-ascii url p)))
      (rw safe refl)

collects :
    (c : List ℕ) (b : ℕ) (found : List Marker)
    → length prefix ≤ length c
    → length c < ceiling
    → (0x20 < b) × (b < 0x7f)
    → step_payload c false b found ≡ (payload (c ++ b ∷ []) false, found)
collects c b found long fits p = ground (arith, length-append c (b ∷ []))

-- Past the prefix only the ceiling matters.
feed_from-payload :
    (c w more : List ℕ) (found : List Marker)
    → length prefix ≤ length c
    → length c + length w ≤ ceiling
    → IsPrinting w
    → feed_from (payload c false) (w ++ more) found ≡ feed_from (payload (c ++ w) false) more found
unfolding feed_from step
feed_from-payload c [] more found long fits p = rw append-nil
feed_from-payload c (b ∷ w) more found long fits p =
    ap (λ r. feed_from r.0 (w ++ more) r.1) (collects c b found long (omega arith) p.0)
    ∙ feed_from-payload (c ++ b ∷ []) w more found (omega (arith, length-append c (b ∷ [])))
        (omega (arith, length-append c (b ∷ []))) p.1
    ∙ ap (λ d. feed_from (payload d false) more found) (append_assoc c (b ∷ []) w)

escape_from : (s : State) (found : List Marker) → (step s esc found).0 ≡ escaped
unfolding step
escape_from text found = refl
escape_from escaped found = refl
escape_from (payload c skipping) found = refl

-- The whole sequence: `ESC ] 9998;devpipe;open;` and the URL. What ends it stands behind it.
abbrev pub sequence : Text → List ℕ
sequence url = esc ∷ b']' ∷ request url

feed_from-opening :
    (rest : List ℕ) (found : List Marker)
    → feed_from escaped (b']' ∷ (prefix ++ codes "open;" ++ rest)) found
      ≡ feed_from (payload (prefix ++ codes "open;") false) rest found
unfolding feed_from step
feed_from-opening rest found = refl

feed_from-closing :
    (c : List ℕ) (stop : ℕ) (found : List Marker) {m : Marker}
    → parse c ≡ some m
    → ends_payload stop ≡ true
    → feed_from (payload c false) (stop ∷ []) found
      ≡ ((if stop == esc then escaped else text), found ++ m ∷ [])
unfolding feed_from step
feed_from-closing c stop found e ends = ground arith

feed_from-request :
    (s : State) (url : Text) (stop : ℕ) (found : List Marker)
    → IsPrinting url
    → length url ≤ 2048
    → safe_url url ≡ some url
    → ends_payload stop ≡ true
    → feed_from s (sequence url ++ stop ∷ []) found
      ≡ ((if stop == esc then escaped else text), (step s esc found).1 ++ open_url url ∷ [])
unfolding feed_from
feed_from-request s url stop found p short safe ends =
    let before = (step s esc found).1 in
    ap (λ q. feed_from q (b']' ∷ (request url ++ stop ∷ [])) before) (escape_from s found)
    ∙ feed_from-opening (url ++ stop ∷ []) before
    ∙ feed_from-payload (prefix ++ codes "open;") url (stop ∷ []) before (omega arith) (omega arith)
        p
    ∙ feed_from-closing (request url) stop before (parse-request url p safe) ends

-- In whatever state the scanner is, an `open` request that carries https:// or http:// and at
-- least one and at most 2040 printing ASCII characters, ended by BEL or by ESC, is reported, after
-- what its first ESC completes, and leaves the scanner outside any payload.
pub feed-request :
    (scanner : Scanner) (scheme : Text) (c : ℕ) (rest : Text) (stop : ℕ)
    → IsScheme scheme
    → IsPrinting (c ∷ rest)
    → length (c ∷ rest) ≤ 2040
    → (stop ≡ bel) ⊎ (stop ≡ esc)
    → let url = scheme ++ c ∷ rest in
      feed scanner (sequence url ++ stop ∷ []) ≡ (
        record { state = if stop == esc then escaped else text },
        (feed scanner (esc ∷ [])).1 ++ open_url url ∷ [],
      )
unfolding feed
feed-request scanner scheme c rest stop s p short ends =
    let url = scheme ++ c ∷ rest in
    unfold feed_from in
    ap with_scanner (
      feed_from-request scanner.state url stop []
        (All-append _ scheme (c ∷ rest) (IsScheme-IsPrinting scheme s) p)
        (omega (arith, length-append scheme (c ∷ rest), IsScheme-length scheme s))
        (safe_url-accepts scheme c rest s p short) (ground arith))
