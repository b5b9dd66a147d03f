-- ===== src/Replay.antt =====
-- devpipe/src/replay.rs: the escape sequences that rebuild a screen. The emulator's screen is a value:
-- what `screen_as_ansi` asks of it. What goes to the output is a list of tokens, characters and
-- control sequences, and `print_all` is their text.
pub mod Vt
mod Sgr
mod Pens
mod Writing
mod Cells
mod Rows
mod Trimming
mod Edges
mod Screens
mod Reading
mod Printable
mod Rebuilt
mod Stale
mod Tests
use devpipe.Prelude.{
  ◌++◌, ◌∷◌, [], List, some, none, Option, ◌||◌, ◌&&◌, not, false, true, Bool, ◌+◌, suc, ℕ, take,
  if◌then◌else◌, ◌==◌,
}
use devpipe.Prelude.Text.{Text}
use devpipe.Prelude.Text.Decimal.{show_u16}

pub data Color : Type 0 where
  default : Color
  indexed : (i : ℕ) → Color
  rgb : (r g b : ℕ) → Color

-- Those of `vt::CellFlags` that the code names.
pub record CellFlags : Type 0 where
  pub bold : Bool
  pub dim : Bool
  pub italic : Bool
  pub underline : Bool
  pub blink : Bool
  pub inverse : Bool
  pub invisible : Bool
  pub strikethrough : Bool
  pub wide_spacer : Bool

-- What a cell is painted with: the `key` of the loop.
pub record Pen : Type 0 where
  pub fg : Color
  pub bg : Color
  pub flags : CellFlags

pub record Cell : Type 0 where
  pub ch : ℕ
  pub zw : ℕ
  pub pen : Pen

-- `lines` are the visible rows.
pub record Screen : Type 0 where
  pub cols : ℕ
  pub lines : List (List Cell)
  pub is_alt_screen : Bool
  pub cursor_pos : ℕ × ℕ
  pub cursor_visible : Bool
  pub bracketed_paste : Bool

-- A character, or a control sequence: `ESC [`, `?` if it is private, the parameters, the last byte.
pub data Token : Type 0 where
  put : (c : ℕ) → Token
  csi : (is_private : Bool) (params : List ℕ) (final : ℕ) → Token

abbrev bool_eq : Bool → Bool → Bool
bool_eq true b = b
bool_eq false b = not b

abbrev pub color_eq : Color → Color → Bool
color_eq default default = true
color_eq (indexed i) (indexed j) = i == j
color_eq (rgb r g b) (rgb s h c) = r == s && (g == h && b == c)
color_eq _ _ = false

abbrev pub flags_eq : CellFlags → CellFlags → Bool
flags_eq f g =
    bool_eq f.bold g.bold
    && (bool_eq f.dim g.dim
        && (bool_eq f.italic g.italic
            && (bool_eq f.underline g.underline
                && (bool_eq f.blink g.blink
                    && (bool_eq f.inverse g.inverse
                        && (bool_eq f.invisible g.invisible
                            && (bool_eq f.strikethrough g.strikethrough
                                && bool_eq f.wide_spacer g.wide_spacer)))))))

abbrev pub pen_eq : Pen → Pen → Bool
pen_eq p q = color_eq p.fg q.fg && (color_eq p.bg q.bg && flags_eq p.flags q.flags)

abbrev pub no_flags : CellFlags
no_flags = record {
  bold = false;
  dim = false;
  italic = false;
  underline = false;
  blink = false;
  inverse = false;
  invisible = false;
  strikethrough = false;
  wide_spacer = false;
}

abbrev pub plain_pen : Pen
plain_pen = record { fg = default; bg = default; flags = no_flags }

abbrev pub flag_param : Bool → ℕ → List ℕ
flag_param true code = code ∷ []
flag_param false code = []

unfoldable pub push_color : Color → Bool → List ℕ
push_color default fg = []
push_color (indexed i) fg = (if fg then 38 else 48) ∷ 5 ∷ i ∷ []
push_color (rgb r g b) fg = (if fg then 38 else 48) ∷ 2 ∷ r ∷ g ∷ b ∷ []

unfoldable pub sgr_params : Pen → List ℕ
sgr_params p =
    0
    ∷ (flag_param p.flags.bold 1
        ++ (flag_param p.flags.dim 2
            ++ (flag_param p.flags.italic 3
                ++ (flag_param p.flags.underline 4
                    ++ (flag_param p.flags.blink 5
                        ++ (flag_param p.flags.inverse 7
                            ++ (flag_param p.flags.invisible 8
                                ++ (flag_param p.flags.strikethrough 9
                                    ++ (push_color p.fg true ++ push_color p.bg false)))))))))

unfoldable pub sgr : Pen → Token
sgr p = csi false (sgr_params p) b'm'

abbrev pub reset : Token
reset = csi false [] b'm'

-- The test of `rposition`.
abbrev pub is_drawn : Cell → Bool
is_drawn c =
    not (c.ch == 32) || (not (color_eq c.pen.bg default) || not (flags_eq c.pen.flags no_flags))

-- One past the last cell that is drawn.
unfoldable pub end_of : List Cell → ℕ
end_of [] = 0
end_of (c ∷ cells) =
    let later = end_of cells in if later == 0 then (if is_drawn c then 1 else 0) else suc later

abbrev pub shown_char : ℕ → ℕ
shown_char c = if c == 0 then 32 else c

abbrev pub marks : ℕ → List Token
marks zw = if zw == 0 then [] else put zw ∷ []

abbrev pub pen_tokens : Option Pen → Pen → List Token
pen_tokens none p = sgr p ∷ []
pen_tokens (some q) p = if pen_eq q p then [] else sgr p ∷ []

-- The loop over a row's cells, with the pen.
unfoldable pub cells_tokens : Option Pen → List Cell → List Token
cells_tokens pen [] = []
cells_tokens pen (c ∷ cells) =
    let skipped = cells_tokens pen cells in
    let rest = cells_tokens (some c.pen) cells in
    if c.pen.flags.wide_spacer
    then skipped
    else pen_tokens pen c.pen ++ (put (shown_char c.ch) ∷ (marks c.zw ++ rest))

unfoldable pub row_tokens : ℕ → List Cell → List Token
row_tokens r row =
    if end_of row == 0
    then []
    else csi false ((r + 1) ∷ 1 ∷ []) b'H'
      ∷ (cells_tokens none (take (end_of row) row) ++ reset ∷ [])

-- The loop over the rows, from the one of that index.
unfoldable pub rows_tokens : ℕ → ℕ → List (List Cell) → List Token
rows_tokens cols r [] = []
rows_tokens cols r (row ∷ rows) = row_tokens r (take cols row) ++ rows_tokens cols (suc r) rows

unfoldable pub screen_tokens : Screen → List Token
screen_tokens s =
    (if s.is_alt_screen then csi true (1049 ∷ []) b'h' ∷ [] else [])
    ++ (csi false [] b'H'
        ∷ csi false (2 ∷ []) b'J'
        ∷ reset
        ∷ (rows_tokens s.cols 0 s.lines
            ++ (csi false ((s.cursor_pos.0 + 1) ∷ (s.cursor_pos.1 + 1) ∷ []) b'H'
                ∷ csi true (25 ∷ []) (if s.cursor_visible then b'h' else b'l')
                ∷ (if s.bracketed_paste then csi true (2004 ∷ []) b'h' ∷ [] else []))))

abbrev pub join_params : List ℕ → Text
join_params [] = []
join_params (n ∷ []) = show_u16 n
join_params (n ∷ m ∷ ns) = show_u16 n ++ (b';' ∷ join_params (m ∷ ns))

unfoldable pub print : Token → Text
print (put c) = c ∷ []
print (csi is_private params final) =
    27 ∷ b'[' ∷ ((if is_private then b'?' ∷ [] else []) ++ (join_params params ++ final ∷ []))

unfoldable pub print_all : List Token → Text
print_all [] = []
print_all (t ∷ ts) = print t ++ print_all ts

unfoldable pub screen_as_ansi : Screen → Text
screen_as_ansi s = print_all (screen_tokens s)
