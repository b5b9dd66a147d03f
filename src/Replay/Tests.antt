-- ===== src/Replay/Tests.antt =====
-- A replay at concrete inputs: two rows of five columns, with a mark, colours and a wide character.
use devpipe.Replay.Reading.{read, outside}
use devpipe.Replay.{
  screen_as_ansi, push_color, sgr_params, sgr, screen_tokens, plain_pen, no_flags, print, Screen,
  Cell, Pen, default, indexed, rgb,
}
use devpipe.Replay.Cells.{IsRow, ended, narrow, wide}
use devpipe.Prelude.{
  arith, map, ◌∷◌, [], List, false, true, refl, ◌≡◌, ℕ, All, take, if◌then◌else◌, ◌==◌, leb,
}
use devpipe.Replay.Vt.{blank, perform_all, Term}
use devpipe.Replay.Trimming.{look}
use devpipe.Replay.Stale.{perform-stays}
use devpipe.Replay.Edges.{shown_row}
use devpipe.Replay.Rebuilt.{perform-screen_as_ansi}
use devpipe.Prelude.Text.Decimal.{digits, show_u16}
use devpipe.Prelude.Text.{codes}
use devpipe.Replay.Printable.{IsPlainScreen}

abbrev char_width : ℕ → ℕ
char_width c = if c == 0x301 then 0 else if leb 0x1100 c then 2 else 1

abbrev bold_red : Pen
bold_red = record { fg = indexed 1; bg = default; flags = record no_flags { bold = true } }

abbrev accented : Cell
accented = record { ch = b'e'; zw = 0x301; pen = bold_red }

abbrev world : Cell
world = record { ch = 0x4e16; zw = 0; pen = record plain_pen { bg = rgb 1 2 3 } }

abbrev spacer : Cell
spacer = record {
  ch = 0;
  zw = 0;
  pen = record plain_pen { flags = record no_flags { wide_spacer = true } };
}

abbrev first_row : List Cell
first_row = accented ∷ world ∷ spacer ∷ blank default ∷ blank default ∷ []

abbrev prompt_row : List Cell
prompt_row = record { ch = b'$'; zw = 0; pen = plain_pen } ∷ []

abbrev two_rows : Screen
two_rows = record {
  cols = 5;
  lines = first_row ∷ prompt_row ∷ [];
  is_alt_screen = false;
  cursor_pos = (1, 2);
  cursor_visible = true;
  bracketed_paste = true;
}

abbrev plain_blank : IsRow char_width (blank default ∷ blank default ∷ [])
plain_blank =
    narrow (blank default) (blank default ∷ []) refl refl refl
      (narrow (blank default) [] refl refl refl ended)

two_rows-IsRow : All (λ row. IsRow char_width (take 5 row)) two_rows.lines
two_rows-IsRow = (
  narrow accented (world ∷ spacer ∷ blank default ∷ blank default ∷ []) refl refl refl
      (wide world spacer (blank default ∷ blank default ∷ []) refl refl refl refl plain_blank),
  (narrow (record { ch = b'$'; zw = 0; pen = plain_pen }) [] refl refl refl ended, tt),
)

-- A terminal that shows something else, with another pen.
abbrev other_screen : Term
other_screen = record {
  cols = 5;
  rows = 2;
  lines = [];
  row = 1;
  col = 4;
  last = 3;
  pen = bold_red;
  is_alt = false;
  shows_cursor = false;
  pastes = true;
}

two_rows-IsPlainScreen : IsPlainScreen two_rows
two_rows-IsPlainScreen = omega arith

perform-screen_as_ansi_example :
    let u = perform_all char_width (read outside (screen_as_ansi two_rows)) other_screen in
    (map (map look) u.lines ≡ map (shown_row 5) two_rows.lines)
    × (u.row ≡ 1)
    × (u.col ≡ 2)
    × (u.shows_cursor ≡ true)
    × (u.is_alt ≡ false)
    × (u.pastes ≡ true)
perform-screen_as_ansi_example =
    perform-screen_as_ansi char_width two_rows other_screen two_rows-IsPlainScreen two_rows-IsRow
      refl refl refl (λ h. h) (λ h. h)

abbrev left_alone : Screen
left_alone = record two_rows { bracketed_paste = false }

perform-stays_example :
    ((perform_all char_width (screen_tokens left_alone) other_screen).is_alt ≡ false)
    × ((perform_all char_width (screen_tokens left_alone) other_screen).pastes ≡ true)
perform-stays_example = perform-stays char_width left_alone other_screen refl refl

printed_pen : print (sgr bold_red) ≡ 27 ∷ codes "[0;1;38;5;1m"
unfolding print sgr sgr_params push_color show_u16 digits
printed_pen = refl
