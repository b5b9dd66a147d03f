-- ===== src/Prelude/Text.antt =====
-- Texts. A Rust `str` is the list of its characters' code points, a `&[u8]` a list of bytes; the
-- standard library's operations on either are these functions.
pub mod Utf8
pub mod Decimal
pub mod Trim
use Prim.Native.Char.{code}
use Prim.Native.String.{String}
use mathlib.Core.Option
use devpipe.Prelude.{
  ltb, ℕ, ◌≡◌, ◌≢◌, ◌↔◌, refl, ap, ◌∙◌, sym, Bool, true, false, not, ◌&&◌, ◌||◌, Option, none, some,
  List, [], ◌∷◌, ◌++◌, arith, ◌==◌, if◌then◌else◌, Bool-cases, ==_iff, any, inl, inr, ==_refl,
}

abbrev pub Text : Type 0
Text = List ℕ

-- The code points of a literal: its bytes, if it is ASCII.
abbrev pub codes : String → Text
codes String.[] = []
codes (String.◌∷◌ c s) = code c ∷ codes s

abbrev pub text_eq : Text → Text → Bool
text_eq [] [] = true
text_eq (x ∷ xs) (y ∷ ys) = x == y && text_eq xs ys
text_eq _ _ = false

pub text_eq_iff : (a b : Text) → (text_eq a b ≡ true) ↔ (a ≡ b)
text_eq_iff (x ∷ a) (y ∷ b) = ground (arith, text_eq_iff a b)
text_eq_iff _ _ = ground arith

pub text_eq_refl : (a : Text) → text_eq a a ≡ true
text_eq_refl a = (text_eq_iff a a).1 refl

-- `s.strip_prefix(p)`
abbrev pub strip_prefix : Text → Text → Option Text
strip_prefix [] s = some s
strip_prefix (p ∷ ps) [] = none
strip_prefix (p ∷ ps) (c ∷ s) = if p == c then strip_prefix ps s else none

pub strip_prefix-append : (p s : Text) → strip_prefix p (p ++ s) ≡ some s
strip_prefix-append [] s = refl
strip_prefix-append (c ∷ p) s = rw (==_refl c) (strip_prefix-append p s)

pub strip_prefix-eq-some : (p s r : Text) → strip_prefix p s ≡ some r → s ≡ p ++ r
strip_prefix-eq-some [] s r h = ground arith
strip_prefix-eq-some (c ∷ p) [] r h = cc
strip_prefix-eq-some (c ∷ p) (d ∷ s) r h = ground (arith, strip_prefix-eq-some p s r)

-- `s.starts_with(p)`
abbrev pub starts_with : Text → Text → Bool
starts_with [] s = true
starts_with (p ∷ ps) [] = false
starts_with (p ∷ ps) (c ∷ s) = p == c && starts_with ps s

-- `s.contains(c)` for a character.
abbrev pub contains : ℕ → Text → Bool
contains c = any (λ d. d == c)

abbrev pub prepend_left : ℕ → Option (Text × Text) → Option (Text × Text)
prepend_left d none = none
prepend_left d (some (a, b)) = some (d ∷ a, b)

-- `s.split_once(c)` for a character: at its first occurrence.
abbrev pub split_once : ℕ → Text → Option (Text × Text)
split_once c [] = none
split_once c (d ∷ s) =
    let later = split_once c s in if d == c then some ([], s) else prepend_left d later

pub split_once-append :
    (c : ℕ) (a b : Text) → contains c a ≡ false → split_once c (a ++ c ∷ b) ≡ some (a, b)
split_once-append c [] b h = rw (==_refl c)
split_once-append c (d ∷ a) b h = ground (arith, split_once-append c a b)

pub split_once-eq-some :
    (c : ℕ) (s a b : Text)
    → split_once c s ≡ some (a, b)
    → (s ≡ a ++ c ∷ b) × (contains c a ≡ false)
split_once-eq-some c [] a b h = cc
split_once-eq-some c (d ∷ s) a b h = go (split_once c s) (split_once-eq-some c s) h
  where
    go :
        (later : Option (Text × Text))
        → ((x y : Text) → later ≡ some (x, y) → (s ≡ x ++ c ∷ y) × (contains c x ≡ false))
        → (if d == c then some ([], s) else prepend_left d later) ≡ some (a, b)
        → (d ∷ s ≡ a ++ c ∷ b) × (contains c a ≡ false)
    go none ih h = ground arith
    go (some (x, y)) ih h = ground (arith, ih x y refl)

-- `s.split(c)` for a character: always at least one piece.
abbrev pub split_cons : ℕ → List Text → List Text
split_cons d [] = (d ∷ []) ∷ []
split_cons d (p ∷ ps) = (d ∷ p) ∷ ps

abbrev pub split : ℕ → Text → List Text
split c [] = [] ∷ []
split c (d ∷ s) = let rest = split c s in if d == c then [] ∷ rest else split_cons d rest

abbrev pub is_empty : Text → Bool
is_empty [] = true
is_empty (_ ∷ _) = false

-- `str`'s order.
abbrev pub text_leb : Text → Text → Bool
text_leb [] t = true
text_leb (c ∷ s) [] = false
text_leb (c ∷ s) (d ∷ t) = if c == d then text_leb s t else ltb c d
