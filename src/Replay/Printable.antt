-- ===== src/Replay/Printable.antt =====
-- What `screen_as_ansi` (devpipe/src/replay.rs) prints can be read back.
use devpipe.Replay.{
  pen_eq, sgr, end_of, marks, pen_tokens, screen_tokens, Screen, rows_tokens, row_tokens,
  cells_tokens, Pen, sgr_params, push_color, flag_param, Cell, Color, csi, default, indexed, rgb,
}
use devpipe.Prelude.{
  arith, ◌++◌, ◌∷◌, [], List, some, none, Option, false, true, Bool, inr, inl, ◌≢◌, subst, sym, ◌<◌,
  ◌+◌, suc, zero, ℕ, All-append, All, take, length, Bool-cases, if◌then◌else◌, ◌==◌,
}
use devpipe.Replay.Reading.{IsPrintable}
use devpipe.Replay.Writing.{if-false, if-true}

-- No escape character in a cell, and bytes in the colours.
abbrev pub IsByteColor : Color → Type 0
IsByteColor default = Unit
IsByteColor (indexed i) = i < 256
IsByteColor (rgb r g b) = (r < 256) × (g < 256) × (b < 256)

abbrev pub IsPlainCell : Cell → Type 0
IsPlainCell c = (c.ch ≢ 27) × (c.zw ≢ 27) × IsByteColor c.pen.fg × IsByteColor c.pen.bg

abbrev IsNumber : ℕ → Type 0
IsNumber n = n < 100000

flag_param-All : (b : Bool) (n : ℕ) → n < 100000 → All IsNumber (flag_param b n)
flag_param-All true n h = (h, tt)
flag_param-All false n h = tt

push_color-All : (c : Color) (is_fg : Bool) → IsByteColor c → All IsNumber (push_color c is_fg)
unfolding push_color
push_color-All default is_fg h = tt
push_color-All (indexed i) true h = omega arith
push_color-All (indexed i) false h = omega arith
push_color-All (rgb r g b) true h = omega arith
push_color-All (rgb r g b) false h = omega arith

sgr_params-All : (p : Pen) → IsByteColor p.fg → IsByteColor p.bg → All IsNumber (sgr_params p)
unfolding sgr_params
sgr_params-All p fg bg = (
  omega arith,
  flag p.flags.bold 1 _ (omega arith) (
      flag p.flags.dim 2 _ (omega arith) (
        flag p.flags.italic 3 _ (omega arith) (
          flag p.flags.underline 4 _ (omega arith) (
            flag p.flags.blink 5 _ (omega arith) (
              flag p.flags.inverse 7 _ (omega arith) (
                flag p.flags.invisible 8 _ (omega arith) (
                  flag p.flags.strikethrough 9 _ (omega arith) (
                    All-append IsNumber (push_color p.fg true) (push_color p.bg false)
                      (push_color-All p.fg true fg) (push_color-All p.bg false bg))))))))),
)
  where
    flag :
        (b : Bool) (n : ℕ) (ns : List ℕ)
        → n < 100000
        → All IsNumber ns
        → All IsNumber (flag_param b n ++ ns)
    flag b n ns h rest = All-append IsNumber (flag_param b n) ns (flag_param-All b n h) rest

pen_tokens-All :
    (pen : Option Pen) (p : Pen)
    → IsByteColor p.fg
    → IsByteColor p.bg
    → All IsPrintable (pen_tokens pen p)
pen_tokens-All pen p fg bg = printed pen
  where
    one : IsPrintable (sgr p)
    one = unfold sgr in (sgr_params-All p fg bg, omega arith)

    printed : (pen : Option Pen) → All IsPrintable (pen_tokens pen p)
    printed none = (one, tt)
    printed (some q) = elim (Bool-cases (pen_eq q p)) [
      | inl same ↦ rw same tt
      | inr other ↦ rw other (one, tt)
    ]

marks-All : (zw : ℕ) → zw ≢ 27 → All IsPrintable (marks zw)
marks-All zw h = elim (Bool-cases (zw == 0)) [ inl bare ↦ rw bare tt | inr mark ↦ rw mark (h, tt) ]

cells_tokens-All :
    (pen : Option Pen) (cells : List Cell)
    → All IsPlainCell cells
    → All IsPrintable (cells_tokens pen cells)
unfolding cells_tokens
cells_tokens-All pen [] h = tt
cells_tokens-All pen (c ∷ cells) ((ch, zw, fg, bg), h) = elim (Bool-cases c.pen.flags.wide_spacer) [
  | inl spacer ↦
      subst (All IsPrintable) (sym (if-true c.pen.flags.wide_spacer _ _ spacer))
        (cells_tokens-All pen cells h)
  | inr char ↦ subst (All IsPrintable) (sym (if-false c.pen.flags.wide_spacer _ _ char)) (
      All-append _ (pen_tokens pen c.pen) _ (pen_tokens-All pen c.pen fg bg) (
        ground arith,
        All-append _ (marks c.zw) _ (marks-All c.zw zw) (cells_tokens-All (some c.pen) cells h),
      ))
]

All-take {ℓ κ} : {A : Type ℓ} (P : A → Type κ) (n : ℕ) (xs : List A) → All P xs → All P (take n xs)
All-take P zero xs h = tt
All-take P (suc n) [] h = tt
All-take P (suc n) (x ∷ xs) h = (h.0, All-take P n xs h.1)

row_tokens-All :
    (r : ℕ) (row : List Cell) → r < 65536 → All IsPlainCell row → All IsPrintable (row_tokens r row)
unfolding row_tokens
row_tokens-All r row low h = elim (Bool-cases (end_of row == 0)) [
  | inl blank_row ↦ rw blank_row tt
  | inr drawn ↦ rw drawn (
    (omega arith, omega arith),
    All-append _ (cells_tokens none (take (end_of row) row)) _
        (cells_tokens-All none (take (end_of row) row) (All-take IsPlainCell (end_of row) row h))
        ((tt, omega arith), tt),
  )
]

rows_tokens-All :
    (cols r : ℕ) (rows : List (List Cell))
    → r + length rows < 65536
    → All (All IsPlainCell) rows
    → All IsPrintable (rows_tokens cols r rows)
unfolding rows_tokens
rows_tokens-All cols r [] low h = tt
rows_tokens-All cols r (row ∷ rows) low h =
    All-append _ (row_tokens r (take cols row)) _
      (row_tokens-All r (take cols row) (omega (arith, low)) (All-take IsPlainCell cols row h.0))
      (rows_tokens-All cols (suc r) rows (omega (arith, low)) h.1)

-- A screen of a size that a pty can have, its cells as the emulator keeps them.
abbrev pub IsPlainScreen : Screen → Type 0
IsPlainScreen s =
    (length s.lines < 65536)
    × (s.cursor_pos.0 < 65536)
    × (s.cursor_pos.1 < 65536)
    × All (All IsPlainCell) s.lines

pub screen_tokens-All : (s : Screen) → IsPlainScreen s → All IsPrintable (screen_tokens s)
unfolding screen_tokens
screen_tokens-All s (high, low_row, low_col, cells) =
    All-append _ (if s.is_alt_screen then csi true (1049 ∷ []) b'h' ∷ [] else []) _
      (mode s.is_alt_screen 1049 (omega arith))
      (
        (tt, omega arith),
        (
          ((omega arith, tt), omega arith),
          (
            (tt, omega arith),
            All-append _ (rows_tokens s.cols 0 s.lines) _
                (rows_tokens-All s.cols 0 s.lines (omega (arith, high)) cells)
                (
                  ((omega (arith, low_row), (omega (arith, low_col), tt)), omega arith),
                  (shown s.cursor_visible, mode s.bracketed_paste 2004 (omega arith)),
                ),
          ),
        ),
      )
  where
    mode :
        (on : Bool) (n : ℕ)
        → n < 100000
        → All IsPrintable (if on then csi true (n ∷ []) b'h' ∷ [] else [])
    mode true n h = (((h, tt), omega arith), tt)
    mode false n h = tt

    shown : (on : Bool) → IsPrintable (csi true (25 ∷ []) (if on then b'h' else b'l'))
    shown true = omega arith
    shown false = omega arith
