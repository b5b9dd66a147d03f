-- ===== src/Replay/Vt.antt =====
-- A terminal that reads the control sequences which devpipe/src/replay.rs prints, as ECMA-48 and xterm
-- describe them: the description that the replay is judged by. How wide a character is stands as an
-- argument.
use devpipe.Replay.{plain_pen, Token, Cell, Color, Pen, put, csi, indexed, rgb}
use devpipe.Prelude.{◌∷◌, [], List, ◌||◌, false, true, Bool, ◌-◌, suc, zero, ℕ, if◌then◌else◌, ◌==◌}

-- Selecting a rendition, parameter by parameter: an extended colour takes several.
pub data Mode : Type 0 where
  plain : Mode
  extended : (is_fg : Bool) → Mode
  by_index : (is_fg : Bool) → Mode
  red : (is_fg : Bool) → Mode
  green : (is_fg : Bool) (r : ℕ) → Mode
  blue : (is_fg : Bool) (r g : ℕ) → Mode

unfoldable pub attribute : ℕ → Pen → Pen
attribute n p = record p {
  flags = record p.flags {
    bold = n == 1 || p.flags.bold;
    dim = n == 2 || p.flags.dim;
    italic = n == 3 || p.flags.italic;
    underline = n == 4 || p.flags.underline;
    blink = n == 5 || p.flags.blink;
    inverse = n == 7 || p.flags.inverse;
    invisible = n == 8 || p.flags.invisible;
    strikethrough = n == 9 || p.flags.strikethrough;
  };
}

abbrev pub colored : Bool → Color → Pen → Pen
colored true c p = record p { fg = c }
colored false c p = record p { bg = c }

unfoldable pub select_one : ℕ → Mode × Pen → Mode × Pen
select_one n (plain, p) =
    if n == 0
    then (plain, plain_pen)
    else if n == 38
    then (extended true, p)
    else if n == 48
    then (extended false, p)
    else (plain, attribute n p)
select_one n (extended is_fg, p) =
    if n == 5 then (by_index is_fg, p) else if n == 2 then (red is_fg, p) else (plain, p)
select_one n (by_index is_fg, p) = (plain, colored is_fg (indexed n) p)
select_one n (red is_fg, p) = (green is_fg n, p)
select_one n (green is_fg r, p) = (blue is_fg r n, p)
select_one n (blue is_fg r g, p) = (plain, colored is_fg (rgb r g n) p)

unfoldable pub select_all : List ℕ → Mode × Pen → Mode × Pen
select_all [] m = m
select_all (n ∷ ns) m = select_all ns (select_one n m)

-- No parameters are one 0.
unfoldable pub select : List ℕ → Pen → Pen
select [] p = plain_pen
select (n ∷ ns) p = (select_all (n ∷ ns) (plain, p)).1

-- `last` is the column of the last character, which a mark of no width is put on.
pub record Term : Type 0 where
  pub cols : ℕ
  pub rows : ℕ
  pub lines : List (List Cell)
  pub row : ℕ
  pub col : ℕ
  pub last : ℕ
  pub pen : Pen
  pub is_alt : Bool
  pub shows_cursor : Bool
  pub pastes : Bool

abbrev pub modify {ℓ} : {A : Type ℓ} → ℕ → (A → A) → List A → List A
modify i f [] = []
modify zero f (x ∷ xs) = f x ∷ xs
modify (suc i) f (x ∷ xs) = x ∷ modify i f xs

abbrev pub replicate {ℓ} : {A : Type ℓ} → ℕ → A → List A
replicate zero x = []
replicate (suc n) x = x ∷ replicate n x

-- To erase is to leave blanks in the background of the pen.
abbrev pub blank : Color → Cell
blank bg = record { ch = 32; zw = 0; pen = record plain_pen { bg = bg } }

abbrev pub erased : Term → List (List Cell)
erased t = replicate t.rows (replicate t.cols (blank t.pen.bg))

abbrev pub solid : ℕ → Pen → Cell
solid c p = record { ch = c; zw = 0; pen = p }

abbrev pub shadow : Pen → Cell
shadow p = record {
  ch = 0;
  zw = 0;
  pen = record p { flags = record p.flags { wide_spacer = true } };
}

module _ (width : ℕ → ℕ) where
  unfoldable pub perform_put : ℕ → Term → Term
  perform_put c t =
      if width c == 0
      then record t {
        lines = modify t.row (modify t.last (λ cell. record cell { zw = c })) t.lines;
      }
      else if width c == 2
      then record t {
        lines =
            modify t.row
              (λ line.
                modify (suc t.col) (λ _. shadow t.pen) (modify t.col (λ _. solid c t.pen) line))
              t.lines;
        last = t.col;
        col = suc (suc t.col);
      }
      else record t {
        lines = modify t.row (modify t.col (λ _. solid c t.pen)) t.lines;
        last = t.col;
        col = suc t.col;
      }

  abbrev pub go_to : List ℕ → Term → Term
  go_to (r ∷ c ∷ []) t = record t { row = r - 1; col = c - 1 }
  go_to _ t = record t { row = 0; col = 0 }

  -- A private mode is set or reset; to enter the alternate screen is to find it erased.
  abbrev pub set_mode : Bool → List ℕ → Term → Term
  set_mode on (n ∷ []) t =
      if n == 1049
      then record t { is_alt = on; lines = erased t }
      else if n == 25
      then record t { shows_cursor = on }
      else if n == 2004
      then record t { pastes = on }
      else t
  set_mode on _ t = t

  unfoldable pub perform : Token → Term → Term
  perform (put c) t = perform_put c t
  perform (csi true params final) t = set_mode (final == b'h') params t
  perform (csi false params final) t =
      if final == b'H'
      then go_to params t
      else if final == b'J'
      then record t { lines = erased t }
      else record t { pen = select params t.pen }

  unfoldable pub perform_all : List Token → Term → Term
  perform_all [] t = t
  perform_all (k ∷ ks) t = perform_all ks (perform k t)
