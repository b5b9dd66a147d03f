-- ===== src/SessionCheck/Answer.antt =====
-- The rest of `who` of devpipe/src/session_check.rs: the reading of the app's answer, and the account in
-- it. What each read of the socket gives, the decoding of an answer that is not UTF-8 and the JSON
-- library are arguments.
pub mod Bounds
mod Tests
use devpipe.Prelude.Text.Decimal.{parse_below, parse_u16}
use devpipe.Secrets.{lines}
use devpipe.Prelude.{
  not, retain, get_elem?, drop, get_or, map, ◌++◌, ◌∷◌, [], List, some, none, Option, false, true,
  Bool, ◌^◌, ◌%◌, ◌-◌, ◌+◌, suc, ℕ, take, length, or_else, if◌then◌else◌, within, ◌==◌, leb, ltb,
}
use devpipe.Prelude.Text.{split_cons, is_empty, codes, text_eq, starts_with, Text}
use devpipe.Prelude.Result.{or_err, ok, err, Result}
use devpipe.Prelude.Text.Utf8.{from_utf8, len, len_utf8}
use devpipe.Prelude.Text.Trim.{is_whitespace, trim}

pub data Error : Type 0 where
  gave_up said_too_much no_status not_signed_in no_body nobody : Error
  -- A slice of a text that does not end between two characters.
  panicked : Error

abbrev pub ceiling : ℕ
ceiling = 65536

-- `haystack.windows(needle.len()).position(…)`
abbrev pub find_text : Text → Text → Option ℕ
find_text [] needle = none
find_text (c ∷ text) needle =
    if starts_with needle (c ∷ text)
    then some 0
    else elim (find_text text needle) [ some at ↦ some (suc at) | none ↦ none ]

abbrev pub blank_line : Text
blank_line = 13 ∷ 10 ∷ 13 ∷ 10 ∷ []

-- `&line[..n]` and `&line[n..]`, at a number of bytes.
abbrev pub after_char : ℕ → Option (Text × Text) → Option (Text × Text)
after_char c none = none
after_char c (some (before, rest)) = some (c ∷ before, rest)

abbrev pub split_bytes : ℕ → Text → Option (Text × Text)
split_bytes n [] = if n == 0 then some ([], []) else none
split_bytes n (c ∷ text) =
    let later = split_bytes (n - len_utf8 c) text in
    if n == 0 then some ([], c ∷ text) else if ltb n (len_utf8 c) then none else after_char c later

-- `eq_ignore_ascii_case`
abbrev pub lower : ℕ → ℕ
lower c = if within b'A' b'Z' c then c + 32 else c

abbrev pub same_word : Text → Text → Bool
same_word a b = text_eq (map lower a) (map lower b)

abbrev pub value_of : Option (Text × Text) → Result Error (Option Text)
value_of none = err panicked
value_of (some (name, value)) =
    ok (if same_word name (codes "content-length:") then some value else none)

-- What stands behind the header's name, where the line is that header.
abbrev pub length_line : Text → Result Error (Option Text)
length_line line = if ltb 15 (len line) then value_of (split_bytes 15 line) else ok none

abbrev pub first_line :
    Result Error (Option Text) → Result Error (Option Text) → Result Error (Option Text)
first_line (err e) rest = err e
first_line (ok (some value)) rest = ok (some value)
first_line (ok none) rest = rest

abbrev pub length_value : List Text → Result Error (Option Text)
length_value [] = ok none
length_value (line ∷ rest) = first_line (length_line line) (length_value rest)

abbrev pub parsed_length : Result Error (Option Text) → Result Error (Option ℕ)
parsed_length (err e) = err e
parsed_length (ok none) = ok none
parsed_length (ok (some value)) = ok (parse_below (2 ^ 64) (trim value))

abbrev pub length_in : Option Text → Result Error (Option ℕ)
length_in none = ok none
length_in (some text) = parsed_length (length_value (lines text))

unfoldable pub content_length : List ℕ → Result Error (Option ℕ)
content_length headers = length_in (from_utf8 headers)

-- Whether what was read holds the whole answer; the sum wraps around.
abbrev pub holds : ℕ → ℕ → Result Error (Option ℕ) → Result Error Bool
holds read start (err e) = err e
holds read start (ok none) = ok false
holds read start (ok (some length)) = ok (leb ((start + length) % 2 ^ 64) read)

abbrev pub is_whole : List ℕ → Option ℕ → Result Error Bool
is_whole said none = ok false
is_whole said (some start) = holds (length said) start (content_length (take start said))

abbrev pub plus_four : Option ℕ → Option ℕ
plus_four none = none
plus_four (some at) = some (at + 4)

-- Where the headers end, once that has been read.
abbrev pub headers_end : List ℕ → Option ℕ → Option ℕ
headers_end said known = or_else known (plus_four (find_text said blank_line))

abbrev pub unless_whole : List ℕ → Result Error Bool → Result Error (List ℕ) → Result Error (List ℕ)
unless_whole said (err e) more = err e
unless_whole said (ok true) more = ok said
unless_whole said (ok false) more = more

-- The loop; `none` is a read that fails or takes too long, and no more reads are the end of the stream.
unfoldable pub gather : List ℕ → Option ℕ → List (Option (List ℕ)) → Result Error (List ℕ)
gather said ends [] = ok said
gather said ends (none ∷ reads) = err gave_up
gather said ends (some [] ∷ reads) = ok said
gather said ends (some (b ∷ chunk) ∷ reads) =
    let now = said ++ b ∷ chunk in
    let known = headers_end now ends in
    let more = gather now known reads in
    if ltb ceiling (length now)
    then err said_too_much
    else unless_whole now (is_whole now known) more

-- `serde_json` on a value, as `account_in` uses it, and `String::from_utf8_lossy`.
pub record Library : Type 1 where
  pub Value : Type 0
  pub from_str : Text → Option Value
  pub field : Value → Text → Option Value
  pub string_of : Value → Option Text
  pub number_of : Value → Option Text
  pub lossy : List ℕ → Text

module _ (l : Library) where
  open l use {Value, from_str, field, string_of, number_of, lossy}

  abbrev pub named : Option Text → Option Text → Option Text
  named (some s) number = if is_empty s then none else some s
  named none number = number

  abbrev pub name_in : Option Value → Option Text
  name_in none = none
  name_in (some value) = named (string_of value) (number_of value)

  abbrev pub first_name : Value → List Text → Option Text
  first_name person [] = none
  first_name person (key ∷ keys) = or_else (name_in (field person key)) (first_name person keys)

  abbrev pub account_of : Option Value → Option Text
  account_of none = none
  account_of (some value) =
      first_name (get_or value (field value (codes "user")))
        (codes "username" ∷ codes "email" ∷ codes "id" ∷ [])

  unfoldable pub account_in : Text → Option Text
  account_in body = account_of (from_str (trim body))

-- `split_whitespace`
abbrev pub split_white : Text → List Text
split_white [] = [] ∷ []
split_white (c ∷ text) =
    if is_whitespace c then [] ∷ split_white text else split_cons c (split_white text)

abbrev pub words : Text → List Text
words text = retain (λ w. not (is_empty w)) (split_white text)

abbrev pub status_of : Option Text → Option ℕ
status_of none = none
status_of (some word) = parse_u16 word

-- `split_once("\r\n\r\n")`
abbrev pub body_of : Text → Option Text
body_of text = elim (find_text text blank_line) [
  | some at ↦ some (drop (at + 4) text)
  | none ↦ none
]

module _ (l : Library) where
  abbrev pub account_or : Option Text → Result Error Text
  account_or none = err no_body
  account_or (some body) = or_err (account_in l body) nobody

  abbrev pub with_status : Text → Option ℕ → Result Error Text
  with_status text none = err no_status
  with_status text (some status) =
      if status == 200 then account_or (body_of text) else err not_signed_in

  unfoldable pub answer : List ℕ → Result Error Text
  answer said = let text = l.lossy said in with_status text (status_of (get_elem? (words text) 1))

  abbrev pub answered : Result Error (List ℕ) → Result Error Text
  answered (err e) = err e
  answered (ok said) = answer said

  -- `who`, once the request is written: what the reads of the socket make of it.
  unfoldable pub who : List (Option (List ℕ)) → Result Error Text
  who reads = answered (gather [] none reads)
