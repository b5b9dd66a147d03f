-- ===== src/SessionCheck.antt =====
-- devpipe/src/session_check.rs: asking the app whose a browser's session is: the address that may be
-- asked, the request that is written, and the cookie that is taken. The reading of
-- the answer is in the child Answer.
pub mod Safety
pub mod Answer
mod Tests
use devpipe.Prelude.{
  ◌++◌, ◌∷◌, [], List, some, none, Option, ◌||◌, not, Bool, ℕ, retain, take, if◌then◌else◌, ltb,
  or_else, get_or,
}
use devpipe.Prelude.Text.{contains, is_empty, split, strip_prefix, codes, text_eq, split_once, Text}
use devpipe.Prelude.Result.{err, ok, Result}
use devpipe.Prelude.Text.Utf8.{len, is_control}
use devpipe.Prelude.Text.Decimal.{parse_u16}
use devpipe.Prelude.Text.Trim.{trim}

pub data Error : Type 0 where
  not_plain_http : Error
  not_loopback : (host : Text) → Error
  no_usable_session not_a_cookie : Error

pub record Asking : Type 0 where
  pub host : Text
  pub port : ℕ
  pub path : Text

abbrev pub authority_of : Text → Text × Text
authority_of rest = elim (split_once b'/' rest) [
  | some (authority, path) ↦ (authority, b'/' ∷ path)
  | none ↦ (rest, codes "/")
]

abbrev pub host_port : Text → Text × ℕ
host_port authority = elim (split_once b':' authority) [
  | some (host, port) ↦ (host, get_or 80 (parse_u16 port))
  | none ↦ (authority, 80)
]

abbrev pub is_loopback : Text → Bool
is_loopback host =
    text_eq host (codes "127.0.0.1")
    || (text_eq host (codes "localhost") || text_eq host (codes "::1"))

abbrev pub checked_host : Text × ℕ → Text → Result Error Asking
checked_host (host, port) path =
    if is_loopback host
    then ok (record { host = host; port = port; path = path })
    else err (not_loopback host)

abbrev pub parse_rest : Option Text → Result Error Asking
parse_rest none = err not_plain_http
parse_rest (some rest) =
    let (authority, path) = authority_of rest in checked_host (host_port authority) path

-- `Asking::parse`
unfoldable pub parse : Text → Result Error Asking
parse url = parse_rest (strip_prefix (codes "http://") url)

-- The agent as it is sent on.
abbrev pub clean_agent : Text → Text
clean_agent agent = take 512 (retain (λ c. not (is_control c)) agent)

abbrev pub crlf : Text
crlf = 13 ∷ 10 ∷ []

abbrev pub header_line : Text → Text → Text → Text
header_line name value rest = name ++ (value ++ (crlf ++ rest))

abbrev pub request_text : Asking → Text → Text → Text
request_text asking cookie agent = header_line (codes "GET ") (asking.path ++ codes " HTTP/1.1") (
    header_line (codes "Host: ") asking.host (
      header_line (codes "Cookie: ") cookie (
        header_line (codes "User-Agent: ") agent (
          header_line (codes "Accept: ") (codes "application/json")
            (header_line (codes "Connection: ") (codes "close") crlf)))))

-- `who` up to its `write_all`: what is written, unless it is refused.
unfoldable pub request : Asking → Text → Text → Result Error Text
request asking cookie agent =
    if is_empty cookie || ltb 8192 (len cookie)
    then err no_usable_session
    else if contains 13 cookie || contains 10 cookie
    then err not_a_cookie
    else ok (request_text asking cookie (clean_agent agent))

abbrev pub cookie_value : Text → Text → Option Text
cookie_value name pair = elim (strip_prefix name (trim pair)) [
  | some r ↦ strip_prefix (codes "=") r
  | none ↦ none
]

abbrev first_value : Text → List Text → Option Text
first_value name [] = none
first_value name (pair ∷ pairs) = or_else (cookie_value name pair) (first_value name pairs)

unfoldable pub cookie_named : Text → Text → Option Text
cookie_named header name = first_value name (split b';' header)
