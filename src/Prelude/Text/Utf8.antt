-- ===== src/Prelude/Text/Utf8.antt =====
-- `str::from_utf8`, `str::len` and `char::is_control`: the standard library's UTF-8 decoder as a
-- machine that reads a byte at a time.
use devpipe.Prelude.{
  ℕ, zero, suc, ◌+◌, ◌-◌, ◌*◌, ◌<◌, ◌≡◌, refl, Bool, ◌||◌, Option, none, some, List, [], ◌∷◌, arith,
  ltb, within, ◌==◌, if◌then◌else◌, All,
}
use devpipe.Prelude.Text.{Text}

-- Between characters, or `more` continuation bytes short of one: `acc` holds the bits read so far
-- and the next byte lies in `lo..=hi`.
pub data Decoding : Type 0 where
  between : Decoding
  inside : (more acc lo hi : ℕ) → Decoding

-- The first byte of a character. The narrowed ranges keep out overlong forms, surrogates and
-- numbers past 0x10ffff.
lead : ℕ → Option (Decoding × Option ℕ)
lead b =
    if ltb b 0x80
    then some (between, some b)
    else if within 0xc2 0xdf b
    then some (inside 1 (b - 0xc0) 0x80 0xbf, none)
    else if b == 0xe0
    then some (inside 2 0 0xa0 0xbf, none)
    else if b == 0xed
    then some (inside 2 13 0x80 0x9f, none)
    else if within 0xe1 0xef b
    then some (inside 2 (b - 0xe0) 0x80 0xbf, none)
    else if b == 0xf0
    then some (inside 3 0 0x90 0xbf, none)
    else if within 0xf1 0xf3 b
    then some (inside 3 (b - 0xf0) 0x80 0xbf, none)
    else if b == 0xf4
    then some (inside 3 4 0x80 0x8f, none)
    else none

continuation : ℕ → ℕ → ℕ → Option (Decoding × Option ℕ)
continuation zero acc b = none
continuation (suc zero) acc b = some (between, some (acc * 64 + (b - 0x80)))
continuation (suc (suc more)) acc b =
    some (inside (suc more) (acc * 64 + (b - 0x80)) 0x80 0xbf, none)

decode_step : Decoding → ℕ → Option (Decoding × Option ℕ)
unfolding lead continuation
decode_step between b = lead b
decode_step (inside more acc lo hi) b = if within lo hi b then continuation more acc b else none

emit : Option ℕ → Option Text → Option Text
emit o none = none
emit none (some t) = some t
emit (some c) (some t) = some (c ∷ t)

decode_from : Decoding → List ℕ → Option Text
unfolding decode_step emit
decode_from between [] = some []
decode_from (inside _ _ _ _) [] = none
decode_from d (b ∷ bs) = elim (decode_step d b) [
  | none ↦ none
  | some (d', out) ↦ emit out (decode_from d' bs)
]

unfoldable pub from_utf8 : List ℕ → Option Text
unfolding decode_from
from_utf8 bytes = decode_from between bytes

-- ASCII bytes are their own text.
pub from_utf8-ascii : (bs : List ℕ) → All (λ b. b < 0x80) bs → from_utf8 bs ≡ some bs
unfolding from_utf8
from_utf8-ascii [] h = refl
from_utf8-ascii (b ∷ bs) h = ground (arith, from_utf8-ascii bs h.1)

-- `c.len_utf8()`, and `s.len()`, which counts bytes.
abbrev pub len_utf8 : ℕ → ℕ
len_utf8 c = if ltb c 0x80 then 1 else if ltb c 0x800 then 2 else if ltb c 0x10000 then 3 else 4

abbrev pub len : Text → ℕ
len [] = 0
len (c ∷ s) = len_utf8 c + len s

-- `char::is_control`: the category Cc.
abbrev pub is_control : ℕ → Bool
is_control c = ltb c 0x20 || within 0x7f 0x9f c

two_bytes : from_utf8 (0xc3 ∷ 0xa9 ∷ 0x21 ∷ []) ≡ some (0xe9 ∷ 0x21 ∷ [])
unfolding from_utf8
two_bytes = refl

surrogate_refused : from_utf8 (0xed ∷ 0xa0 ∷ 0x80 ∷ []) ≡ none
unfolding from_utf8
surrogate_refused = refl
