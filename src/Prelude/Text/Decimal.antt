-- ===== src/Prelude/Text/Decimal.antt =====
-- `str::parse::<u16>` and the printing of numbers.
use devpipe.Prelude.{
  ◌%◌, ◌++◌, ◌/◌, zero, suc, ℕ, ◌+◌, ◌-◌, ◌*◌, ◌<◌, ◌≡◌, refl, Bool, Option, none, some, [], ◌∷◌,
  arith, within, ◌==◌, if◌then◌else◌, ltb,
}
use devpipe.Prelude.Text.{Text, codes}

abbrev pub is_digit : ℕ → Bool
is_digit c = within b'0' b'9' c

-- The digits after the first, most significant first; `none` at a character that is no digit, and
-- where the value leaves the type (checked after each digit, as the library does).
unfoldable pub digits_below : ℕ → ℕ → Text → Option ℕ
digits_below bound acc [] = some acc
digits_below bound acc (c ∷ s) =
    let rest = digits_below bound (acc * 10 + (c - b'0')) s in
    if is_digit c then if ltb (acc * 10 + (c - b'0')) bound then rest else none else none

digits_some : ℕ → Text → Option ℕ
unfolding digits_below
digits_some bound [] = none
digits_some bound (c ∷ s) = digits_below bound 0 (c ∷ s)

-- An optional `+`, then at least one digit.
unfoldable pub parse_below : ℕ → Text → Option ℕ
unfolding digits_some
parse_below bound [] = none
parse_below bound (c ∷ s) = if c == b'+' then digits_some bound s else digits_some bound (c ∷ s)

abbrev pub u16_bound : ℕ
u16_bound = 65536

unfoldable pub parse_u16 : Text → Option ℕ
unfolding parse_below
parse_u16 s = parse_below u16_bound s

digits_below-lt :
    (bound acc : ℕ) (s : Text) (n : ℕ) → acc < bound → digits_below bound acc s ≡ some n → n < bound
unfolding digits_below
digits_below-lt bound acc [] n h e = ground arith
digits_below-lt bound acc (c ∷ s) n h e =
    ground (arith, digits_below-lt bound (acc * 10 + (c - b'0')) s n)

pub parse_u16-lt : (s : Text) (n : ℕ) → parse_u16 s ≡ some n → n < u16_bound
unfolding parse_u16
parse_u16-lt [] n e = cc
parse_u16-lt (c ∷ []) n e = ground (arith, digits_below-lt u16_bound 0 (c ∷ []) n (omega arith))
parse_u16-lt (c ∷ d ∷ s) n e = ground (
  arith,
  digits_below-lt u16_bound 0 (c ∷ d ∷ s) n (omega arith),
  digits_below-lt u16_bound 0 (d ∷ s) n (omega arith),
)

largest : parse_u16 (codes "65535") ≡ some 65535
unfolding parse_u16
largest = refl

too_large : parse_u16 (codes "65536") ≡ none
unfolding parse_u16
too_large = refl

-- `Display` of an unsigned integer of at most `fuel` digits.
unfoldable pub digits : ℕ → ℕ → Text
digits zero n = []
digits (suc fuel) n =
    let before = digits fuel (n / 10) in
    if ltb n 10 then (b'0' + n) ∷ [] else before ++ (b'0' + n % 10) ∷ []

unfoldable pub show_u16 : ℕ → Text
unfolding digits
show_u16 = digits 5

shows : show_u16 65535 ≡ codes "65535"
unfolding show_u16
shows = refl
