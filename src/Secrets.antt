-- ===== src/Secrets.antt =====
-- devpipe/src/secrets.rs: the host's `KEY=value` file. The file is what `read_to_string` gives:
-- `none` where it is missing or not text. A write is `host::write_private`, which replaces the file
-- whole or leaves it (Store), and whose outcome is an argument.
pub mod Lines
pub mod Rewrite
mod Tests
use devpipe.Prelude.{
  all, length, not, ◌++◌, ◌==◌, retain, map, if◌then◌else◌, true, some, none, [], ◌∷◌, false, ◌||◌,
  within, Bool, Option, ℕ, List,
}
use devpipe.Prelude.Text.{is_empty, text_eq, split_once, contains, Text}
use devpipe.Prelude.Result.{bail_if, ◌>>◌, err, ok, Result}
use devpipe.Prelude.Text.Decimal.{is_digit}
use devpipe.Prelude.Text.Trim.{trim}

pub data Error : Type 0 where
  no_name starts_with_digit bad_character : Error
  newline : Error
  not_written : Error

abbrev pub Pairs : Type 0
Pairs = List (Text × Text)

abbrev pub is_ascii_alphanumeric : ℕ → Bool
is_ascii_alphanumeric c = within b'0' b'9' c || within b'A' b'Z' c || within b'a' b'z' c

abbrev pub key_char : ℕ → Bool
key_char c = is_ascii_alphanumeric c || c == b'_'

abbrev first_is_digit : Text → Bool
first_is_digit [] = false
first_is_digit (c ∷ s) = is_digit c

unfoldable pub valid_key : Text → Result Error (Unit {0})
valid_key key = do
  bail_if (is_empty key) no_name
  bail_if (first_is_digit key) starts_with_digit
  bail_if (not (all key_char key)) bad_character

-- `text.lines()`: without the line ends, and no line behind the last of them.
abbrev pub strip_return : Text → Text
strip_return [] = []
strip_return (c ∷ []) = if c == b'\r' then [] else c ∷ []
strip_return (c ∷ d ∷ s) = c ∷ strip_return (d ∷ s)

abbrev pub end_line : Text → List Text → List Text
end_line line rest = strip_return line ∷ rest

abbrev pub last_line : Text → List Text
last_line [] = []
last_line (c ∷ line) = (c ∷ line) ∷ []

-- The line being read comes second; a last line without an end stands as it is.
unfoldable pub lines_from : Text → Text → List Text
lines_from [] line = last_line line
lines_from (c ∷ s) line =
    let rest = lines_from s [] in
    let longer = lines_from s (line ++ c ∷ []) in
    if c == b'\n' then strip_return line ∷ rest else longer

unfoldable pub lines : Text → List Text
lines text = lines_from text []

-- `strip_suffix` for a character.
abbrev pub strip_last : ℕ → Text → Option Text
strip_last q [] = none
strip_last q (c ∷ []) = if c == q then some [] else none
strip_last q (c ∷ d ∷ s) = elim (strip_last q (d ∷ s)) [ none ↦ none | some t ↦ some (c ∷ t) ]

abbrev pub between : ℕ → Text → Option Text
between q [] = none
between q (c ∷ s) = if c == q then strip_last q s else none

unfoldable pub unquote : Text → Text
unquote value = elim (between b'"' value) [
  | some v ↦ v
  | none ↦ elim (between b'\'' value) [ some v ↦ v | none ↦ value ]
]

abbrev pub is_comment : Text → Bool
is_comment [] = true
is_comment (c ∷ s) = c == b'#'

abbrev pub is_ok {ℓ} : {A : Type ℓ} → Result Error A → Bool
is_ok (ok a) = true
is_ok (err e) = false

abbrev pub parse_pair : Option (Text × Text) → Option (Text × Text)
parse_pair none = none
parse_pair (some (key, value)) =
    if is_ok (valid_key (trim key)) then some (trim key, unquote (trim value)) else none

unfoldable pub parse_line : Text → Option (Text × Text)
parse_line line = if is_comment (trim line) then none else parse_pair (split_once b'=' (trim line))

abbrev pub keep_some : Option (Text × Text) → Pairs → Pairs
keep_some none ps = ps
keep_some (some p) ps = p ∷ ps

abbrev pub parse_lines : List Text → Pairs
parse_lines [] = []
parse_lines (line ∷ ls) = keep_some (parse_line line) (parse_lines ls)

unfoldable pub parse : Text → Pairs
parse text = parse_lines (lines text)

unfoldable pub load : Option Text → Pairs
load none = []
load (some text) = parse text

abbrev pub names : Option Text → List Text
names file = map (λ p. p.0) (load file)

unfoldable pub print : Pairs → Text
print [] = []
print ((k, v) ∷ ps) = k ++ b'=' ∷ (v ++ b'\n' ∷ print ps)

-- What is left of the pairs without those of a name.
abbrev pub without : Text → Pairs → Pairs
without key = retain (λ p. not (text_eq p.0 key))

unfoldable pub write : Bool → Pairs → Option Text → Option Text × Result Error (Unit {0})
write succeeds pairs file =
    if succeeds then (some (print pairs), ok tt) else (file, err not_written)

unfoldable pub set : Bool → Option Text → Text → Text → Option Text × Result Error (Unit {0})
set succeeds file key value = elim (valid_key key) [
  | err e ↦ (file, err e)
  | ok _ ↦
      if contains b'\n' value
      then (file, err newline)
      else write succeeds (without key (load file) ++ (key, value) ∷ []) file
]

abbrev removed : Option Text × Result Error (Unit {0}) → Option Text × Result Error Bool
removed (file, ok _) = (file, ok true)
removed (file, err e) = (file, err e)

unfoldable pub remove : Bool → Option Text → Text → Option Text × Result Error Bool
remove succeeds file key =
    let after = without key (load file) in
    if length after == length (load file)
    then (file, ok false)
    else removed (write succeeds after file)
