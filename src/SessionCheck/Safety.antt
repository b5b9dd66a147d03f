-- ===== src/SessionCheck/Safety.antt =====
-- What the session check may be made to say, and to whom.
use devpipe.SessionCheck.{
  header_line, crlf, clean_agent, request, request_text, authority_of, host_port, checked_host,
  Asking, is_loopback, parse,
}
use devpipe.SessionCheck.{parse_rest}
use devpipe.Prelude.{
  ap, ◌++◌, ◌||◌, not, ◌+◌, zero, retain, take, or-eq-false, ltb, arith, ◌∷◌, [], some, none,
  Option, false, true, inr, inl, ◌⊎◌, subst, refl, ◌≡◌, suc, ℕ, Option-cases, Bool-cases,
  if◌then◌else◌, ◌==◌,
}
use devpipe.Prelude.Text.{
  is_empty, strip_prefix, text_eq_iff, split_once-eq-some, text_eq, codes, contains, split_once,
  Text,
}
use devpipe.Prelude.Result.{ok}
use devpipe.Prelude.Text.Utf8.{len, is_control}

loopback_cases :
    (host : Text)
    → is_loopback host ≡ true
    → contains b':' host ≡ false
    → (host ≡ codes "127.0.0.1") ⊎ (host ≡ codes "localhost")
loopback_cases host h plain = elim (Bool-cases (text_eq host (codes "127.0.0.1"))) [
  | inl first ↦ inl ((text_eq_iff host (codes "127.0.0.1")).0 first)
  | inr other ↦ elim (Bool-cases (text_eq host (codes "localhost"))) [
    | inl second ↦ inr ((text_eq_iff host (codes "localhost")).0 second)
    | inr neither ↦
        let six = (text_eq_iff host (codes "::1")).0 (ground arith) in absurd (cc (six, plain))
  ]
]

checked_host-host :
    (hp : Text × ℕ) (path : Text) (a : Asking)
    → contains b':' hp.0 ≡ false
    → checked_host hp path ≡ ok a
    → (a.host ≡ codes "127.0.0.1") ⊎ (a.host ≡ codes "localhost")
checked_host-host (host, port) path a plain h = elim (Bool-cases (is_loopback host)) [
  | inl good ↦
      let same : host ≡ a.host = cc (good, h) in
      subst (λ x. (x ≡ codes "127.0.0.1") ⊎ (x ≡ codes "localhost")) same
        (loopback_cases host good plain)
  | inr bad ↦ absurd (cc (bad, h))
]

contains_of_none : (c : ℕ) (s : Text) → split_once c s ≡ none → contains c s ≡ false
contains_of_none c [] h = refl
contains_of_none c (d ∷ s) h = elim (Option-cases (split_once c s)) [
  | inl later ↦ ground (arith, contains_of_none c s later)
  | inr ((x, y), later) ↦ ground arith
]

host_port-plain : (authority : Text) → contains b':' (host_port authority).0 ≡ false
host_port-plain authority = elim (Option-cases (split_once b':' authority)) [
  | inl whole ↦ rw (whole, host_port) (contains_of_none b':' authority whole)
  | inr ((host, port), parts) ↦
      rw (parts, host_port) (split_once-eq-some b':' authority host port parts).1
]

-- An address that is accepted is on this machine, by one of two names. (The third that the check
-- allows, `::1`, cannot be what stands before the first colon.)
pub parse-loopback :
    (url : Text) (a : Asking)
    → parse url ≡ ok a
    → (a.host ≡ codes "127.0.0.1") ⊎ (a.host ≡ codes "localhost")
unfolding parse
parse-loopback url a h = go (strip_prefix (codes "http://") url) h
  where
    go :
        (o : Option Text)
        → parse_rest o ≡ ok a
        → (a.host ≡ codes "127.0.0.1") ⊎ (a.host ≡ codes "localhost")
    go none h = absurd (cc h)
    go (some rest) h =
        let (authority, path) = authority_of rest in
        checked_host-host (host_port authority) path a (host_port-plain authority) h

abbrev pub count : ℕ → Text → ℕ
count c [] = 0
count c (d ∷ s) = if d == c then suc (count c s) else count c s

count-append : (c : ℕ) (s t : Text) → count c (s ++ t) ≡ count c s + count c t
count-append c [] t = omega arith
count-append c (d ∷ s) t = ground (arith, count-append c s t)

count_of_none : (c : ℕ) (s : Text) → contains c s ≡ false → count c s ≡ 0
count_of_none c [] h = refl
count_of_none c (d ∷ s) h = ground (arith, count_of_none c s)

count-take : (c : ℕ) (n : ℕ) (s : Text) → count c s ≡ 0 → count c (take n s) ≡ 0
count-take c zero s h = refl
count-take c (suc n) [] h = refl
count-take c (suc n) (d ∷ s) h = ground (arith, count-take c n s)

count_controls : (s : Text) → count 10 (retain (λ c. not (is_control c)) s) ≡ 0
count_controls [] = refl
count_controls (d ∷ s) = ground (arith, count_controls s)

count_then : (c n : ℕ) (s t : Text) → count c s ≡ 0 → count c t ≡ n → count c (s ++ t) ≡ n
count_then c n s t hs ht = omega (arith, count-append c s t)

count-header_line :
    (n : ℕ) (name value rest : Text)
    → count 10 name ≡ 0
    → count 10 value ≡ 0
    → count 10 rest ≡ n
    → count 10 (header_line name value rest) ≡ suc n
count-header_line n name value rest hn hv hr =
    count_then 10 (suc n) name (value ++ (crlf ++ rest)) hn
      (count_then 10 (suc n) value (crlf ++ rest) hv (ap suc hr))

count-request_text :
    (a : Asking) (cookie agent : Text)
    → count 10 a.path ≡ 0
    → count 10 a.host ≡ 0
    → count 10 cookie ≡ 0
    → count 10 agent ≡ 0
    → count 10 (request_text a cookie agent) ≡ 7
count-request_text a cookie agent p h c g =
    let ends =
      header_line (codes "Accept: ") (codes "application/json")
        (header_line (codes "Connection: ") (codes "close") crlf) in
    let from_agent = header_line (codes "User-Agent: ") agent ends in
    let from_cookie = header_line (codes "Cookie: ") cookie from_agent in
    count-header_line 6 (codes "GET ") (a.path ++ codes " HTTP/1.1")
      (header_line (codes "Host: ") a.host from_cookie) refl
      (count_then 10 0 a.path (codes " HTTP/1.1") p refl)
      (count-header_line 5 (codes "Host: ") a.host from_cookie refl h (
        count-header_line 4 (codes "Cookie: ") cookie from_agent refl c
          (count-header_line 3 (codes "User-Agent: ") agent ends refl g refl)))

-- Whatever a browser presents as its cookie and its agent, a request that is written has seven line
-- ends, those of its own five lines and of the end of its header, where the configured address has
-- none: nobody adds a line to it.
pub count-request :
    (a : Asking) (cookie agent said : Text)
    → contains 10 a.path ≡ false
    → contains 10 a.host ≡ false
    → request a cookie agent ≡ ok said
    → count 10 said ≡ 7
unfolding request
count-request a cookie agent said path host h =
    elim (Bool-cases (is_empty cookie || ltb 8192 (len cookie))) [
      | inl unusable ↦ absurd (cc (rw unusable at h))
      | inr usable ↦ elim (Bool-cases (contains 13 cookie || contains 10 cookie)) [
        | inl forged ↦ absurd (cc (rw (usable, forged) at h))
        | inr clean ↦
            let written : request_text a cookie (clean_agent agent) ≡ said =
              cc (rw (usable, clean) at h) in
            subst (λ t. count 10 t ≡ 7) written
              (count-request_text a cookie (clean_agent agent) (count_of_none 10 a.path path)
                (count_of_none 10 a.host host)
                (count_of_none 10 cookie (or-eq-false (contains 13 cookie) _ clean).1)
                (count-take 10 512 (retain (λ c. not (is_control c)) agent) (count_controls agent)))
      ]
    ]
