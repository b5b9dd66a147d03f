-- ===== src/Secrets/Lines.antt =====
-- What `parse` reads from what `write` prints, a line at a time.
use devpipe.Prelude.Text.{split_once-append, contains, Text}
use devpipe.Secrets.{
  keep_some, parse_lines, Pairs, lines, print, parse, is_comment, parse_line, strip_return, unquote,
  key_char, valid_key, lines_from,
}
use devpipe.Prelude.{
  ◌∙◌, sym, All, some, ap, any, append_assoc, refl, append-nil, arith, [], all, ◌==◌, ◌∷◌, ◌++◌,
  true, false, ◌≡◌, ℕ,
}
use devpipe.Prelude.Text.Trim.{
  trim-no_whitespace, trim_end-of_trim, trim_end-append, trim-cons, trim_end, keep_end,
  is_whitespace, trim,
}
use devpipe.Prelude.Result.{ok}

-- A value that a line can carry as it is: trimmed, not quoted, on one line.
pub record IsPlain (value : Text) : Type 0 where
  pub trimmed : trim value ≡ value
  pub unquoted : unquote value ≡ value
  pub one_line : contains b'\n' value ≡ false

abbrev pub IsPair : Text × Text → Type 0
IsPair (key, value) = (valid_key key ≡ ok tt) × IsPlain value

lines_from-append :
    (l rest line : Text)
    → contains b'\n' l ≡ false
    → lines_from (l ++ b'\n' ∷ rest) line ≡ strip_return (line ++ l) ∷ lines_from rest []
unfolding lines_from
lines_from-append [] rest line h = rw append-nil refl
lines_from-append (c ∷ l) rest line h =
    ground (arith, lines_from-append l rest (line ++ c ∷ []), append_assoc line (c ∷ []) l)

keep_end-inv : (c d : ℕ) (t s : Text) → keep_end c t ≡ c ∷ d ∷ s → t ≡ d ∷ s
keep_end-inv c d [] s h = ground arith
keep_end-inv c d (e ∷ t) s h = cc

-- The `\r` that a line end may have is white space.
strip_return-trimmed : (s : Text) → trim_end s ≡ s → strip_return s ≡ s
strip_return-trimmed [] h = refl
strip_return-trimmed (c ∷ []) h = unfold trim_end in ground arith
strip_return-trimmed (c ∷ d ∷ s) h =
    ap (◌∷◌ c)
      (strip_return-trimmed (d ∷ s) (keep_end-inv c d (trim_end (d ∷ s)) s (unfold trim_end in h)))

record NameFacts (key : Text) : Type 0 where
  no_whitespace : any is_whitespace key ≡ false
  no_newline : contains b'\n' key ≡ false
  no_equals : contains b'=' key ≡ false

NameFacts-chars : (key : Text) → all key_char key ≡ true → NameFacts key
NameFacts-chars [] h = record { no_whitespace = refl; no_newline = refl; no_equals = refl }
NameFacts-chars (c ∷ s) h =
    let rest = NameFacts-chars s (ground arith) in
    record { no_whitespace = ground arith; no_newline = ground arith; no_equals = ground arith }

valid_key-chars : (key : Text) → valid_key key ≡ ok tt → all key_char key ≡ true
unfolding valid_key
valid_key-chars [] h = cc
valid_key-chars (c ∷ s) h = ground arith

not_empty : ¬ (valid_key [] ≡ ok tt)
unfolding valid_key
not_empty h = cc

abbrev pub line_of : Text → Text → Text
line_of key value = key ++ b'=' ∷ value

first_char :
    (c : ℕ) (key : Text)
    → valid_key (c ∷ key) ≡ ok tt
    → (is_whitespace c ≡ false) × ((c == b'#') ≡ false)
unfolding valid_key
first_char c key h = ground arith

line_trimmed :
    (key value : Text)
    → valid_key key ≡ ok tt
    → IsPlain value
    → trim (line_of key value) ≡ line_of key value
line_trimmed [] value h p = absurd (not_empty h)
line_trimmed (c ∷ key) value h p =
    trim-cons c (line_of key value) (first_char c key h).0
      (trim_end-append (c ∷ key) b'=' value refl (trim_end-of_trim value p.trimmed))

line_kept :
    (key value : Text) → IsPlain value → strip_return (line_of key value) ≡ line_of key value
line_kept key value p =
    strip_return-trimmed (line_of key value)
      (trim_end-append key b'=' value refl (trim_end-of_trim value p.trimmed))

line_not_comment :
    (key value : Text) → valid_key key ≡ ok tt → is_comment (line_of key value) ≡ false
line_not_comment [] value h = absurd (not_empty h)
line_not_comment (c ∷ key) value h = (first_char c key h).1

parse_line-line_of :
    (key value : Text)
    → valid_key key ≡ ok tt
    → IsPlain value
    → parse_line (strip_return (line_of key value)) ≡ some (key, value)
unfolding parse_line
parse_line-line_of key value h p =
    let facts = NameFacts-chars key (valid_key-chars key h) in
    rw
      (
        line_kept key value p,
        line_trimmed key value h p,
        line_not_comment key value h,
        split_once-append b'=' key value facts.no_equals,
        trim-no_whitespace key facts.no_whitespace,
        p.trimmed,
        p.unquoted,
        h,
      )
      refl

no_newline-line_of :
    (key value : Text)
    → contains b'\n' key ≡ false
    → contains b'\n' value ≡ false
    → contains b'\n' (line_of key value) ≡ false
no_newline-line_of [] value k v = v
no_newline-line_of (c ∷ key) value k v = ground (arith, no_newline-line_of key value)

-- Plain pairs are read back as they were printed.
pub parse-print : (ps : Pairs) → All IsPair ps → parse (print ps) ≡ ps
unfolding parse print lines
parse-print [] h = unfold lines_from in refl
parse-print ((key, value) ∷ ps) h =
    let valid : valid_key key ≡ ok tt = h.0.0 in
    let plain : IsPlain value = h.0.1 in
    let facts = NameFacts-chars key (valid_key-chars key valid) in
    let shape = append_assoc key (b'=' ∷ value) (b'\n' ∷ print ps) in
    let split =
      lines_from-append (line_of key value) (print ps) []
        (no_newline-line_of key value facts.no_newline plain.one_line) in
    ap (λ t. parse_lines (lines_from t [])) (sym shape)
    ∙ ap parse_lines split
    ∙ ap (λ o. keep_some o (parse_lines (lines_from (print ps) [])))
        (parse_line-line_of key value valid plain)
    ∙ ap (◌∷◌ (key, value)) (parse-print ps h.1)
