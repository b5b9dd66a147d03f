-- ===== src/Prelude/Text/Trim.antt =====
-- `str::trim`, over `char::is_whitespace`, and `str::lines`.
use devpipe.Prelude.{
  ◌∙◌, sym, ◌++◌, ap, ℕ, ◌≡◌, refl, Bool, false, ◌||◌, [], ◌∷◌, arith, within, ◌==◌, if◌then◌else◌,
  any,
}
use devpipe.Prelude.Text.{Text, codes}

-- The Unicode property White_Space.
abbrev pub is_whitespace : ℕ → Bool
is_whitespace c =
    within 9 13 c
    || c == 32
    || c == 0x85
    || c == 0xa0
    || c == 0x1680
    || within 0x2000 0x200a c
    || c == 0x2028
    || c == 0x2029
    || c == 0x202f
    || c == 0x205f
    || c == 0x3000

unfoldable pub trim_start : Text → Text
trim_start [] = []
trim_start (c ∷ s) = if is_whitespace c then trim_start s else c ∷ s

-- A character stays if anything after it does, or if it is no white space.
abbrev pub keep_end : ℕ → Text → Text
keep_end c [] = if is_whitespace c then [] else c ∷ []
keep_end c (d ∷ s) = c ∷ d ∷ s

unfoldable pub trim_end : Text → Text
trim_end [] = []
trim_end (c ∷ s) = keep_end c (trim_end s)

unfoldable pub trim : Text → Text
unfolding trim_start trim_end
trim s = trim_end (trim_start s)

pub trim_end-no_whitespace : (s : Text) → any is_whitespace s ≡ false → trim_end s ≡ s
unfolding trim_end
trim_end-no_whitespace [] h = refl
trim_end-no_whitespace (c ∷ []) h = ground arith
trim_end-no_whitespace (c ∷ d ∷ s) h = ground (arith, trim_end-no_whitespace (d ∷ s))

pub trim-no_whitespace : (s : Text) → any is_whitespace s ≡ false → trim s ≡ s
unfolding trim
trim-no_whitespace [] h = refl
trim-no_whitespace (c ∷ s) h = ground (arith, trim_end-no_whitespace (c ∷ s) h)

trim_end-keep_end : (c : ℕ) (t : Text) → trim_end t ≡ t → trim_end (keep_end c t) ≡ keep_end c t
unfolding trim_end
trim_end-keep_end c [] h = ground arith
trim_end-keep_end c (d ∷ t) h = ap (keep_end c) h

trim_end_idem : (s : Text) → trim_end (trim_end s) ≡ trim_end s
unfolding trim_end
trim_end_idem [] = refl
trim_end_idem (c ∷ s) = trim_end-keep_end c (trim_end s) (trim_end_idem s)

trim_end-trim : (s : Text) → trim_end (trim s) ≡ trim s
unfolding trim
trim_end-trim s = trim_end_idem (trim_start s)

pub trim_end-of_trim : (s : Text) → trim s ≡ s → trim_end s ≡ s
trim_end-of_trim s h = ap trim_end (sym h) ∙ trim_end-trim s ∙ h

keep_end-cons : (x : ℕ) (a : Text) (c : ℕ) (b : Text) → keep_end x (a ++ c ∷ b) ≡ x ∷ (a ++ c ∷ b)
keep_end-cons x [] c b = refl
keep_end-cons x (d ∷ a) c b = refl

pub trim_end-append :
    (a : Text) (c : ℕ) (b : Text)
    → is_whitespace c ≡ false
    → trim_end b ≡ b
    → trim_end (a ++ c ∷ b) ≡ a ++ c ∷ b
unfolding trim_end
trim_end-append [] c [] w h = ground arith
trim_end-append [] c (d ∷ b) w h = ap (keep_end c) h
trim_end-append (x ∷ a) c b w h =
    ap (keep_end x) (trim_end-append a c b w h) ∙ keep_end-cons x a c b

pub trim-cons :
    (c : ℕ) (s : Text) → is_whitespace c ≡ false → trim_end (c ∷ s) ≡ c ∷ s → trim (c ∷ s) ≡ c ∷ s
unfolding trim
trim-cons c s w h = ground arith

padded : trim (codes " \ta b\r\n") ≡ codes "a b"
unfolding trim
padded = refl
