-- ===== src/Replay/Cells.antt =====
-- The loop over the cells of a row of `screen_as_ansi` (devpipe/src/replay.rs), as the terminal of Vt
-- performs what they print.
use devpipe.Replay.{marks, put}
use devpipe.Replay.{pen_eq, pen_tokens, sgr, Token, is_drawn, shown_char, Pen, Cell}
use devpipe.Prelude.{
  arith, inr, inl, ◌∙◌, sym, Bool-cases, ◌++◌, ◌∷◌, [], List, some, none, Option, ◌||◌, ◌&&◌, false,
  true, ap, refl, ◌≡◌, suc, ℕ, if◌then◌else◌, ◌==◌,
}
use devpipe.Replay.Vt.{solid, perform_put, Term, perform, shadow, perform_all, modify}
use devpipe.Replay.Sgr.{select-sgr_params}
use devpipe.Replay.Pens.{pen_eq→≡}
use devpipe.Replay.Writing.{marked_wide, marked_narrow}

-- Cells written one after another from a column on.
abbrev pub lay : ℕ → List Cell → List Cell → List Cell
lay col [] line = line
lay col (c ∷ cells) line = lay (suc col) cells (modify col (λ _. c) line)

-- What the terminal has in place of a cell, and of a row; `before` is the pen of the cell before.
abbrev pub painted_cell : Cell → Cell
painted_cell c = record c { ch = shown_char c.ch }

abbrev pub painted : Pen → List Cell → List Cell
painted before [] = []
painted before (c ∷ cells) =
    if c.pen.flags.wide_spacer
    then shadow before ∷ painted before cells
    else painted_cell c ∷ painted c.pen cells

-- The pen that the loop remembers is the terminal's.
abbrev pub Agrees : Option Pen → Pen → Type 0
Agrees none p = Unit
Agrees (some q) p = q ≡ p

module _ (width : ℕ → ℕ) where
  -- A mark has no width, and none stands on a cell that is otherwise blank.
  abbrev pub HasMark : Cell → Type 0
  HasMark c = ((c.zw == 0) || (width c.zw == 0 && is_drawn c)) ≡ true

  -- The cells of a row: of width one, or of width two with a spacer behind.
  pub data IsRow : List Cell → Type 0 where
    ended : IsRow []
    narrow :
        (c : Cell) (cells : List Cell)
        → c.pen.flags.wide_spacer ≡ false
        → width (shown_char c.ch) ≡ 1
        → HasMark c
        → IsRow cells
        → IsRow (c ∷ cells)
    wide :
        (c s : Cell) (cells : List Cell)
        → c.pen.flags.wide_spacer ≡ false
        → width (shown_char c.ch) ≡ 2
        → HasMark c
        → s.pen.flags.wide_spacer ≡ true
        → IsRow cells
        → IsRow (c ∷ s ∷ cells)

  pub perform_all-append :
      (ks ls : List Token) (t : Term)
      → perform_all width (ks ++ ls) t ≡ perform_all width ls (perform_all width ks t)
  unfolding perform_all
  perform_all-append [] ls t = refl
  perform_all-append (k ∷ ks) ls t = perform_all-append ks ls (perform width k t)

  pub performed_pen :
      (pen : Option Pen) (p : Pen) (t : Term)
      → p.flags.wide_spacer ≡ false
      → Agrees pen t.pen
      → perform_all width (pen_tokens pen p) t ≡ record t { pen = p }
  unfolding perform_all perform sgr
  performed_pen none p t spaced agrees =
      ap (λ x. record t { pen = x }) (select-sgr_params p t.pen spaced)
  performed_pen (some q) p t spaced agrees = elim (Bool-cases (pen_eq q p)) [
    | inl same ↦ rw same (ap (λ x. record t { pen = x }) (sym agrees ∙ pen_eq→≡ q p same))
    | inr other ↦ rw other (ap (λ x. record t { pen = x }) (select-sgr_params p t.pen spaced))
  ]

  -- After a cell of width one.
  abbrev pub after_narrow : Cell → Term → Term
  after_narrow c t = record t {
    pen = c.pen;
    lines = modify t.row (modify t.col (λ _. painted_cell c)) t.lines;
    last = t.col;
    col = suc t.col;
  }

  abbrev pub after_wide : Cell → Term → Term
  after_wide c t = record t {
    pen = c.pen;
    lines =
        modify t.row
          (λ line. modify (suc t.col) (λ _. shadow c.pen) (modify t.col (λ _. painted_cell c) line))
          t.lines;
    last = t.col;
    col = suc (suc t.col);
  }

  put_narrow :
      (ch : ℕ) (t : Term)
      → width ch ≡ 1
      → perform_put width ch t ≡ record t {
        lines = modify t.row (modify t.col (λ _. solid ch t.pen)) t.lines;
        last = t.col;
        col = suc t.col;
      }
  unfolding perform_put
  put_narrow ch t one = rw one refl

  put_wide :
      (ch : ℕ) (t : Term)
      → width ch ≡ 2
      → perform_put width ch t ≡ record t {
        lines =
            modify t.row
              (λ line.
                modify (suc t.col) (λ _. shadow t.pen) (modify t.col (λ _. solid ch t.pen) line))
              t.lines;
        last = t.col;
        col = suc (suc t.col);
      }
  unfolding perform_put
  put_wide ch t two = rw two refl

  put_mark :
      (z : ℕ) (t : Term)
      → width z ≡ 0
      → perform_put width z t
        ≡ record t { lines = modify t.row (modify t.last (λ cell. record cell { zw = z })) t.lines }
  unfolding perform_put
  put_mark z t none_wide = rw none_wide refl

  mark_width : (c : Cell) → HasMark c → (c.zw == 0) ≡ false → width c.zw ≡ 0
  mark_width c marked there = ground arith

  pub narrow_char :
      (c : Cell) (t : Term)
      → width (shown_char c.ch) ≡ 1
      → HasMark c
      → perform_all width (put (shown_char c.ch) ∷ marks c.zw) (record t { pen = c.pen })
        ≡ after_narrow c t
  unfolding perform_all perform
  narrow_char c t one marked = elim (Bool-cases (c.zw == 0)) [
    | inl bare ↦
        let none_there : c.zw ≡ 0 = ground arith in
        rw bare (
          put_narrow (shown_char c.ch) (record t { pen = c.pen }) one ∙ λ i.
          record (after_narrow c t) {
            lines =
                modify t.row (modify t.col (λ _. record (painted_cell c) { zw = sym none_there i }))
                  t.lines;
          })
    | inr mark ↦ rw mark (
        ap (perform_put width c.zw) (put_narrow (shown_char c.ch) (record t { pen = c.pen }) one)
        ∙ (put_mark c.zw _ (mark_width c marked mark) ∙ λ i. record (after_narrow c t) {
          lines = marked_narrow t.row t.col c.zw (solid (shown_char c.ch) c.pen) t.lines i;
        }))
  ]

  pub wide_char :
      (c : Cell) (t : Term)
      → width (shown_char c.ch) ≡ 2
      → HasMark c
      → perform_all width (put (shown_char c.ch) ∷ marks c.zw) (record t { pen = c.pen })
        ≡ after_wide c t
  unfolding perform_all perform
  wide_char c t two marked = elim (Bool-cases (c.zw == 0)) [
    | inl bare ↦
        let none_there : c.zw ≡ 0 = ground arith in
        rw bare (
          put_wide (shown_char c.ch) (record t { pen = c.pen }) two ∙ λ i. record (after_wide c t) {
            lines =
                modify t.row
                  (λ line.
                    modify (suc t.col) (λ _. shadow c.pen)
                      (modify t.col (λ _. record (painted_cell c) { zw = sym none_there i }) line))
                  t.lines;
          })
    | inr mark ↦ rw mark (
        ap (perform_put width c.zw) (put_wide (shown_char c.ch) (record t { pen = c.pen }) two)
        ∙ (put_mark c.zw _ (mark_width c marked mark) ∙ λ i. record (after_wide c t) {
          lines =
              marked_wide t.row t.col c.zw (solid (shown_char c.ch) c.pen) (shadow c.pen) t.lines i;
        }))
  ]
