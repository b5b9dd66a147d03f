-- ===== src/Replay/Rebuilt.antt =====
-- The contract of devpipe/src/replay.rs: who feeds the replay to a terminal has the screen.
use devpipe.Replay.Reading.{read, outside, read-print_all}
use devpipe.Replay.{
  screen_as_ansi, rows_tokens, plain_pen, default, reset, Token, Screen, screen_tokens, Cell, csi,
}
use devpipe.Prelude.{
  arith, map, ◌++◌, ◌∷◌, [], List, false, true, Bool, ◌∙◌, refl, ◌≡◌, ◌+◌, ℕ, All, take, length,
  if◌then◌else◌,
}
use devpipe.Replay.Vt.{blank, replicate, erased, select, Term, perform, perform_all}
use devpipe.Replay.Cells.{IsRow}
use devpipe.Replay.Trimming.{look}
use devpipe.Replay.Screens.{performed_rows, add_one-sub}
use devpipe.Replay.Edges.{clear, look-full, shown_row, full}
use devpipe.Replay.Printable.{screen_tokens-All, IsPlainScreen}

module _ (width : ℕ → ℕ) where
  -- A terminal that is not in the alternate screen unless the child is, and the like.
  entered :
      (on : Bool) (rest : List Token) (t : Term)
      → (t.is_alt ≡ true → on ≡ true)
      → (ls : List (List Cell)) × (perform_all width
            ((if on then csi true (1049 ∷ []) b'h' ∷ [] else []) ++ rest)
            t
          ≡ perform_all width rest (record t { is_alt = on; lines = ls }))
  unfolding perform_all perform
  entered true rest t h = (erased t, refl)
  entered false rest t h = (
    t.lines,
    let out : t.is_alt ≡ false = ground (arith, h) in
        λ i. perform_all width rest (record t { is_alt = out i }),
  )

  pasting :
      (on : Bool) (t : Term)
      → (t.pastes ≡ true → on ≡ true)
      → perform_all width (if on then csi true (2004 ∷ []) b'h' ∷ [] else []) t
        ≡ record t { pastes = on }
  unfolding perform_all perform
  pasting true t h = refl
  pasting false t h =
      let out : t.pastes ≡ false = ground (arith, h) in λ i. record t { pastes = out i }

  pub cursor_shown :
      (on : Bool) (rest : List Token) (t : Term)
      → perform_all width (csi true (25 ∷ []) (if on then b'h' else b'l') ∷ rest) t
        ≡ perform_all width rest (record t { shows_cursor = on })
  unfolding perform_all perform
  cursor_shown true rest t = refl
  cursor_shown false rest t = refl

  pub cursor_put :
      (r c : ℕ) (rest : List Token) (t : Term)
      → perform_all width (csi false ((r + 1) ∷ (c + 1) ∷ []) b'H' ∷ rest) t
        ≡ perform_all width rest (record t { row = r; col = c })
  unfolding perform_all perform
  cursor_put r c rest t =
      λ i. perform_all width rest (record t { row = add_one-sub r i; col = add_one-sub c i })

  pub cleared :
      (rest : List Token) (t : Term)
      → perform_all width (csi false [] b'H' ∷ csi false (2 ∷ []) b'J' ∷ reset ∷ rest) t
        ≡ perform_all width rest (record t { row = 0; col = 0; lines = erased t; pen = plain_pen })
  unfolding perform_all perform select
  cleared rest t = refl

  look_rows :
      (cols : ℕ) (rows : List (List Cell))
      → All (λ row. IsRow width (take cols row)) rows
      → map (map look) (map (full cols) rows) ≡ map (shown_row cols) rows
  look_rows cols [] h = refl
  look_rows cols (row ∷ rows) h = λ i. look-full width cols row h.0 i ∷ look_rows cols rows h.1 i

  perform-screen_tokens :
      (s : Screen) (t : Term)
      → All (λ row. IsRow width (take s.cols row)) s.lines
      → t.cols ≡ s.cols
      → t.rows ≡ length s.lines
      → t.pen.bg ≡ default
      → (t.is_alt ≡ true → s.is_alt_screen ≡ true)
      → (t.pastes ≡ true → s.bracketed_paste ≡ true)
      → let u = perform_all width (screen_tokens s) t in
        (map (map look) u.lines ≡ map (shown_row s.cols) s.lines)
        × (u.row ≡ s.cursor_pos.0)
        × (u.col ≡ s.cursor_pos.1)
        × (u.shows_cursor ≡ s.cursor_visible)
        × (u.is_alt ≡ s.is_alt_screen)
        × (u.pastes ≡ s.bracketed_paste)
  unfolding screen_tokens
  perform-screen_tokens s t ok_rows wide_as high_as plain alt pastes =
      let rows : List Token = rows_tokens s.cols 0 s.lines in
      let modes : List Token =
        csi false ((s.cursor_pos.0 + 1) ∷ (s.cursor_pos.1 + 1) ∷ []) b'H'
        ∷ csi true (25 ∷ []) (if s.cursor_visible then b'h' else b'l')
        ∷ (if s.bracketed_paste then csi true (2004 ∷ []) b'h' ∷ [] else []) in
      let (ls, one) =
        entered s.is_alt_screen
          (csi false [] b'H' ∷ csi false (2 ∷ []) b'J' ∷ reset ∷ (rows ++ modes)) t alt in
      let t₁ : Term = record t {
        is_alt = s.is_alt_screen;
        row = 0;
        col = 0;
        lines = erased t;
        pen = plain_pen;
      } in
      let blanks : t₁.lines ≡ replicate (length s.lines) (clear s.cols) =
        λ i. replicate (high_as i) (replicate (wide_as i) (blank (plain i))) in
      let (at, last, col, two) =
        performed_rows width s.cols 0 [] s.lines modes t₁ ok_rows refl refl blanks in
      let ended : Term = record t₁ {
        row = s.cursor_pos.0;
        last = last;
        col = s.cursor_pos.1;
        lines = map (full s.cols) s.lines;
        shows_cursor = s.cursor_visible;
        pastes = s.bracketed_paste;
      } in
      let done : perform_all width (screen_tokens s) t ≡ ended =
        one
        ∙ (cleared (rows ++ modes) _
            ∙ (two
                ∙ (cursor_put s.cursor_pos.0 s.cursor_pos.1 _ _
                    ∙ (cursor_shown s.cursor_visible _ _ ∙ pasting s.bracketed_paste _ pastes)))) in
      rw done (look_rows s.cols s.lines ok_rows, refl, refl, refl, refl, refl)

  -- On a terminal of the screen's size, whatever it shows and wherever its cursor is, that erases in the
  -- default background, and that is in the alternate screen or in bracketed paste only if the screen is:
  -- reading the text of the replay and performing it leaves every row looking as the mirror's does, each
  -- character with its mark, colours and attributes, the cursor at the mirror's place and shown as there,
  -- and the same buffer and paste mode. The screen's rows hold characters of width one, and of width two
  -- with a spacer behind; no mark stands on a cell that is otherwise blank, and no escape character in a
  -- cell; and its size and its cursor are below 65536.
  pub perform-screen_as_ansi :
      (s : Screen) (t : Term)
      → IsPlainScreen s
      → All (λ row. IsRow width (take s.cols row)) s.lines
      → t.cols ≡ s.cols
      → t.rows ≡ length s.lines
      → t.pen.bg ≡ default
      → (t.is_alt ≡ true → s.is_alt_screen ≡ true)
      → (t.pastes ≡ true → s.bracketed_paste ≡ true)
      → let u = perform_all width (read outside (screen_as_ansi s)) t in
        (map (map look) u.lines ≡ map (shown_row s.cols) s.lines)
        × (u.row ≡ s.cursor_pos.0)
        × (u.col ≡ s.cursor_pos.1)
        × (u.shows_cursor ≡ s.cursor_visible)
        × (u.is_alt ≡ s.is_alt_screen)
        × (u.pastes ≡ s.bracketed_paste)
  unfolding screen_as_ansi
  perform-screen_as_ansi s t plain_screen ok_rows wide_as high_as plain alt pastes =
      rw (read-print_all (screen_tokens s) (screen_tokens-All s plain_screen))
        (perform-screen_tokens s t ok_rows wide_as high_as plain alt pastes)
