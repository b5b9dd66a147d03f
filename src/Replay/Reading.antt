-- ===== src/Replay/Reading.antt =====
-- The text of a replay (devpipe/src/replay.rs) read back, character by character, as ECMA-48 delimits
-- control sequences.
use devpipe.Replay.{print_all, print, join_params, Token, put, csi}
use devpipe.Prelude.{
  append_assoc, append-nil, ◌∙◌, sym, refl, ◌%◌, ◌/◌, zero, ltb→lt, arith, ◌++◌, ◌∷◌, [], List,
  some, none, Option, false, true, Bool, inr, inl, ◌≢◌, ap, ◌≡◌, ◌<◌, ◌≤◌, ◌*◌, ◌-◌, ◌+◌, suc, ℕ,
  All, Bool-cases, if◌then◌else◌, ◌==◌, ltb,
}
use devpipe.Prelude.Text.{Text}
use devpipe.Prelude.Text.Decimal.{show_u16, is_digit, digits}

-- Between sequences, behind the escape character, and inside one: whether it is private, the parameters
-- so far, and the digits of the one that is being read.
pub data Reading : Type 0 where
  outside : Reading
  escaped : Reading
  inside : (is_private : Bool) (params : List ℕ) (current : Option ℕ) → Reading

abbrev pub with_digit : ℕ → Option ℕ → Option ℕ
with_digit d none = some d
with_digit d (some n) = some (10 * n + d)

abbrev pub closed : List ℕ → Option ℕ → List ℕ
closed params none = params
closed params (some n) = params ++ n ∷ []

unfoldable pub read : Reading → Text → List Token
read r [] = []
read outside (c ∷ s) =
    let sequence = read escaped s in
    let after = read outside s in if c == 27 then sequence else put c ∷ after
read escaped (c ∷ s) =
    let sequence = read (inside false [] none) s in
    let after = read outside s in if c == b'[' then sequence else after
read (inside p params current) (c ∷ s) =
    let private_one = read (inside true params current) s in
    let digit = read (inside p params (with_digit (c - b'0') current)) s in
    let next_param = read (inside p (closed params current) none) s in
    let after = read outside s in
    if c == b'?'
    then private_one
    else if is_digit c
    then digit
    else if c == b';'
    then next_param
    else csi p (closed params current) c ∷ after

-- What can be read back: a character that is not the escape character, numbers of at most five digits,
-- and a last byte that is a letter.
abbrev pub IsPrintable : Token → Type 0
IsPrintable (put c) = c ≢ 27
IsPrintable (csi p params final) = All (λ n. n < 100000) params × (b'A' ≤ final)

read_char :
    (c : ℕ) (p : Bool) (params : List ℕ) (current : Option ℕ) (s : Text)
    → c < 10
    → read (inside p params current) ((b'0' + c) ∷ s)
      ≡ read (inside p params (with_digit c current)) s
unfolding read
read_char c p params current s h =
    let other : (b'0' + c == b'?') ≡ false = ground arith in
    let digit : is_digit (b'0' + c) ≡ true = ground arith in
    let value : b'0' + c - b'0' ≡ c = omega arith in
    rw (other, digit) (ap (λ d. read (inside p params (with_digit d current)) s) value)

-- A number of that many digits, and one more.
abbrev Fits : ℕ → ℕ → Type 0
Fits zero n = n < 10
Fits (suc more) n = Fits more (n / 10)

read-digits :
    (fuel n : ℕ) (p : Bool) (params : List ℕ) (s : Text)
    → Fits fuel n
    → read (inside p params none) (digits (suc fuel) n ++ s) ≡ read (inside p params (some n)) s
unfolding digits
read-digits zero n p params s h =
    let small : ltb n 10 ≡ true = ground arith in rw small (read_char n p params none s h)
read-digits (suc fuel) n p params s h = elim (Bool-cases (ltb n 10)) [
  | inl small ↦ rw small (read_char n p params none s (ltb→lt n 10 small))
  | inr large ↦
      let value : 10 * (n / 10) + n % 10 ≡ n = omega arith in
      rw large (
        ap (read (inside p params none))
          (append_assoc (digits (suc fuel) (n / 10)) ((b'0' + n % 10) ∷ []) s)
        ∙ (read-digits fuel (n / 10) p params ((b'0' + n % 10) ∷ s) h
            ∙ (read_char (n % 10) p params (some (n / 10)) s (omega arith)
                ∙ ap (λ k. read (inside p params (some k)) s) value)))
]

read-show_u16 :
    (n : ℕ) (p : Bool) (params : List ℕ) (s : Text)
    → n < 100000
    → read (inside p params none) (show_u16 n ++ s) ≡ read (inside p params (some n)) s
unfolding show_u16
read-show_u16 n p params s h = read-digits 4 n p params s (omega arith)

read_semicolon :
    (p : Bool) (params : List ℕ) (current : Option ℕ) (s : Text)
    → read (inside p params current) (b';' ∷ s) ≡ read (inside p (closed params current) none) s
unfolding read
read_semicolon p params current s = refl

read_final :
    (p : Bool) (params : List ℕ) (current : Option ℕ) (final : ℕ) (s : Text)
    → b'A' ≤ final
    → read (inside p params current) (final ∷ s)
      ≡ csi p (closed params current) final ∷ read outside s
unfolding read
read_final p params current final s h =
    let no_mark : (final == b'?') ≡ false = ground arith in
    let no_digit : is_digit final ≡ false = ground arith in
    let no_next : (final == b';') ≡ false = ground arith in rw (no_mark, no_digit, no_next) refl

read-join_params :
    (ns : List ℕ) (p : Bool) (params : List ℕ) (final : ℕ) (s : Text)
    → All (λ n. n < 100000) ns
    → b'A' ≤ final
    → read (inside p params none) (join_params ns ++ (final ∷ s))
      ≡ csi p (params ++ ns) final ∷ read outside s
read-join_params [] p params final s h last =
    read_final p params none final s last
    ∙ ap (λ ps. csi p ps final ∷ read outside s) (sym (append-nil params))
read-join_params (n ∷ []) p params final s h last =
    read-show_u16 n p params (final ∷ s) h.0 ∙ read_final p params (some n) final s last
read-join_params (n ∷ m ∷ ns) p params final s h last =
    ap (read (inside p params none))
      (append_assoc (show_u16 n) (b';' ∷ join_params (m ∷ ns)) (final ∷ s))
    ∙ (read-show_u16 n p params (b';' ∷ (join_params (m ∷ ns) ++ (final ∷ s))) h.0
        ∙ (read_semicolon p params (some n) (join_params (m ∷ ns) ++ (final ∷ s))
            ∙ (read-join_params (m ∷ ns) p (params ++ n ∷ []) final s h.1 last
                ∙ ap (λ ps. csi p ps final ∷ read outside s)
                    (append_assoc params (n ∷ []) (m ∷ ns)))))

read-print :
    (k : Token) (s : Text) → IsPrintable k → read outside (print k ++ s) ≡ k ∷ read outside s
unfolding print
read-print (put c) s h =
    unfold read in (let plain : (c == 27) ≡ false = ground arith in rw plain refl)
read-print (csi true params final) s h =
    opening
    ∙ (ap (read (inside true [] none)) (append_assoc (join_params params) (final ∷ []) s)
        ∙ read-join_params params true [] final s h.0 h.1)
  where
    opening :
        read outside (27 ∷ b'[' ∷ b'?' ∷ ((join_params params ++ final ∷ []) ++ s))
        ≡ read (inside true [] none) ((join_params params ++ final ∷ []) ++ s)
    opening = unfold read in refl
read-print (csi false params final) s h =
    opening
    ∙ (ap (read (inside false [] none)) (append_assoc (join_params params) (final ∷ []) s)
        ∙ read-join_params params false [] final s h.0 h.1)
  where
    opening :
        read outside (27 ∷ b'[' ∷ ((join_params params ++ final ∷ []) ++ s))
        ≡ read (inside false [] none) ((join_params params ++ final ∷ []) ++ s)
    opening = unfold read in refl

pub read-print_all : (ks : List Token) → All IsPrintable ks → read outside (print_all ks) ≡ ks
unfolding print_all
read-print_all [] h = unfold read in refl
read-print_all (k ∷ ks) h = read-print k (print_all ks) h.0 ∙ ap (◌∷◌ k) (read-print_all ks h.1)
