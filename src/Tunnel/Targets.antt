-- ===== src/Tunnel/Targets.antt =====
-- `Target::parse`: which colon of a destination is the port's.
use devpipe.Prelude.{◌∙◌, arith, ◌++◌, ◌∷◌, [], false, true, ◌≢◌, ap, refl, ◌≡◌, ℕ, ==_refl}
use devpipe.Prelude.Text.{split_once, split_once-append, contains, Text}
use devpipe.Tunnel.{coloned, bracketed, with_port, whole, parse_target}
use devpipe.Prelude.Text.Decimal.{parse_u16}

contains-append : (c : ℕ) (a b : Text) → contains c (a ++ c ∷ b) ≡ true
contains-append c [] b = rw (==_refl c) refl
contains-append c (d ∷ a) b = ground (arith, contains-append c a b)

no_bracket :
    (c : ℕ) (s : Text) → c ≢ b'[' → parse_target (c ∷ s) ≡ coloned (c ∷ s) (split_once b':' (c ∷ s))
unfolding parse_target
no_bracket c s h = ground arith

-- A literal address in brackets keeps all its colons, and what follows `]:` is its port if it is a
-- port number.
pub parse_target_bracketed :
    (inside after : Text)
    → contains b']' inside ≡ false
    → parse_target (b'[' ∷ (inside ++ b']' ∷ b':' ∷ after))
      ≡ record { host = inside; port = parse_u16 after }
unfolding parse_target
parse_target_bracketed inside after h =
    ap (bracketed (b'[' ∷ (inside ++ b']' ∷ b':' ∷ after)))
      (split_once-append b']' inside (b':' ∷ after) h)

-- Without a bracket in front, a destination with two colons or more is all host: the last one is
-- never read as a port.
pub parse_target_many_colons :
    (c : ℕ) (a b rest : Text)
    → c ≢ b'['
    → contains b':' (c ∷ a) ≡ false
    → parse_target ((c ∷ a) ++ b':' ∷ (b ++ b':' ∷ rest))
      ≡ whole ((c ∷ a) ++ b':' ∷ (b ++ b':' ∷ rest))
parse_target_many_colons c a b rest h one =
    let given = (c ∷ a) ++ b':' ∷ (b ++ b':' ∷ rest) in
    no_bracket c (a ++ b':' ∷ (b ++ b':' ∷ rest)) h
    ∙ ap (coloned given) (split_once-append b':' (c ∷ a) (b ++ b':' ∷ rest) one)
    ∙ rw (contains-append b':' b rest) refl

-- With one colon, the host and the port are its two sides where the right side is a port number, and
-- the whole is the host where it is not.
pub parse_target_one_colon :
    (c : ℕ) (a p : Text)
    → c ≢ b'['
    → contains b':' (c ∷ a) ≡ false
    → contains b':' p ≡ false
    → parse_target ((c ∷ a) ++ b':' ∷ p) ≡ with_port ((c ∷ a) ++ b':' ∷ p) (c ∷ a) (parse_u16 p)
parse_target_one_colon c a p h one two =
    no_bracket c (a ++ b':' ∷ p) h
    ∙ ap (coloned ((c ∷ a) ++ b':' ∷ p)) (split_once-append b':' (c ∷ a) p one)
    ∙ rw two refl
