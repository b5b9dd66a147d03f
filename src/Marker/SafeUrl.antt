-- ===== src/Marker/SafeUrl.antt =====
-- `safe_url`: what a person may be asked to open.
use devpipe.Prelude.{
  ltb, ℕ, false, List, [], ◌∷◌, ◌++◌, ◌≡◌, ◌≢◌, ◌≤◌, ◌⊎◌, inl, inr, refl, arith, Option, none, some,
  any, Bool-cases,
}
use devpipe.Prelude.Text.{Text, codes, strip_prefix, strip_prefix-eq-some, split_once, text_eq}
use devpipe.Prelude.Text.Utf8.{from_utf8, len, is_control}
use devpipe.Prelude.Text.Trim.{trim}
use devpipe.Marker.{
  Marker, open_url, State, text, escaped, payload, Scanner, step, feed_from, feed, parse,
  parse_rest, parse_text, parse_verb, open_marker, push_found, safe_url, without_scheme, check_rest,
  prefix,
}

pub record IsSafe (url : Text) : Type 0 where
  pub rest : Text
  pub is_web : (url ≡ codes "https://" ++ rest) ⊎ (url ≡ codes "http://" ++ rest)
  pub not_bare : rest ≢ []
  pub no_control : any is_control url ≡ false
  pub short : len url ≤ 2048

abbrev pub AllSafe : List Marker → Type 0
AllSafe [] = Unit
AllSafe (open_url url ∷ found) = IsSafe url × AllSafe found

abbrev SafeResult : Option Marker → Type 0
SafeResult none = Unit
SafeResult (some (open_url url)) = IsSafe url

AllSafe-append : (xs ys : List Marker) → AllSafe xs → AllSafe ys → AllSafe (xs ++ ys)
AllSafe-append [] ys hx hy = hy
AllSafe-append (open_url url ∷ xs) ys hx hy = (hx.0, AllSafe-append xs ys hx.1 hy)

push_found-AllSafe :
    (found : List Marker) (m : Option Marker)
    → AllSafe found
    → SafeResult m
    → AllSafe (push_found found m)
push_found-AllSafe found none h s = h
push_found-AllSafe found (some (open_url url)) h s =
    AllSafe-append found (open_url url ∷ []) h (s, tt)

without_scheme-cases :
    (url rest : Text)
    → without_scheme url ≡ some rest
    → (url ≡ codes "https://" ++ rest) ⊎ (url ≡ codes "http://" ++ rest)
without_scheme-cases url rest h =
    go (strip_prefix (codes "https://") url) (λ r. strip_prefix-eq-some (codes "https://") url r) h
  where
    go :
        (o : Option Text)
        → ((r : Text) → o ≡ some r → url ≡ codes "https://" ++ r)
        → elim o [ some r ↦ some r | none ↦ strip_prefix (codes "http://") url ] ≡ some rest
        → (url ≡ codes "https://" ++ rest) ⊎ (url ≡ codes "http://" ++ rest)
    go (some r) https h = inl (https rest h)
    go none https h = inr (strip_prefix-eq-some (codes "http://") url rest h)

check_rest-IsSafe :
    (url : Text) (r : Option Text)
    → ((rest : Text)
        → r ≡ some rest
        → (url ≡ codes "https://" ++ rest) ⊎ (url ≡ codes "http://" ++ rest))
    → len url ≤ 2048
    → SafeResult (open_marker (check_rest url r))
check_rest-IsSafe url none web short = tt
check_rest-IsSafe url (some []) web short = tt
check_rest-IsSafe url (some (c ∷ rest)) web short = elim (Bool-cases (any is_control url)) [
  | inl bad ↦ rw (bad, check_rest) tt
  | inr good ↦
      rw (good, check_rest)
        (record {
          rest = c ∷ rest;
          is_web = web (c ∷ rest) refl;
          not_bare = λ e. cc e;
          no_control = good;
          short = short;
        })
]

safe_url-IsSafe : (given : Text) → SafeResult (open_marker (safe_url given))
unfolding safe_url
safe_url-IsSafe given = elim (Bool-cases (ltb 2048 (len (trim given)))) [
  | inl long ↦ rw long tt
  | inr short ↦ rw short (
      check_rest-IsSafe (trim given) (without_scheme (trim given))
        (without_scheme-cases (trim given)) (ground arith))
]

parse-SafeResult : (collected : List ℕ) → SafeResult (parse collected)
unfolding parse
parse-SafeResult collected = in_rest (strip_prefix prefix collected)
  where
    in_verb : (o : Option (Text × Text)) → SafeResult (parse_verb o)
    in_verb none = tt
    in_verb (some (verb, rest)) = elim (Bool-cases (text_eq verb (codes "open"))) [
      | inl e ↦ rw (e, parse_verb) (safe_url-IsSafe rest)
      | inr e ↦ rw (e, parse_verb) tt
    ]

    in_text : (o : Option Text) → SafeResult (parse_text o)
    in_text none = tt
    in_text (some said) = in_verb (split_once b';' said)

    in_rest : (o : Option (List ℕ)) → SafeResult (parse_rest o)
    in_rest none = tt
    in_rest (some rest) = in_text (from_utf8 rest)

step-AllSafe :
    (s : State) (byte : ℕ) (found : List Marker) → AllSafe found → AllSafe (step s byte found).1
unfolding step
step-AllSafe text byte found h = h
step-AllSafe escaped byte found h = h
step-AllSafe (payload c skipping) byte found h =
    ground (arith, push_found-AllSafe found (parse c) h (parse-SafeResult c))

feed_from-AllSafe :
    (s : State) (bytes : List ℕ) (found : List Marker)
    → AllSafe found
    → AllSafe (feed_from s bytes found).1
unfolding feed_from
feed_from-AllSafe s [] found h = h
feed_from-AllSafe s (b ∷ bytes) found h =
    feed_from-AllSafe (step s b found).0 bytes (step s b found).1 (step-AllSafe s b found h)

-- Whatever is printed, in whatever state the scanner is, each marker it reports carries a URL that
-- begins with https:// or http://, goes on after that, holds no control character and is at most
-- 2048 bytes long.
pub feed-AllSafe : (scanner : Scanner) (bytes : List ℕ) → AllSafe (feed scanner bytes).1
unfolding feed
feed-AllSafe scanner bytes = feed_from-AllSafe scanner.state bytes [] tt
