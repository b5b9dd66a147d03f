-- ===== src/Replay/Rows.antt =====
-- What `screen_as_ansi` (devpipe/src/replay.rs) prints for one row, as the terminal of Vt performs it.
use devpipe.Replay.Writing.{if-true, if-false, modify-modify}
use devpipe.Replay.Cells.{
  painted_cell, wide_char, narrow_char, performed_pen, perform_all-append, after_wide, after_narrow,
  painted, lay, Agrees, HasMark, IsRow, ended, narrow, wide,
}
use devpipe.Replay.{marks, pen_tokens, shown_char, Token, Cell, cells_tokens, Pen, put}
use devpipe.Prelude.{
  append_assoc, true, ◌++◌, ◌∷◌, [], List, some, Option, false, ◌∙◌, ap, sym, refl, ◌≡◌, suc, zero,
  ℕ,
}
use devpipe.Replay.Vt.{shadow, perform_all, Term, modify}

pub modify_id {ℓ} : {A : Type ℓ} (i : ℕ) (xs : List A) → modify i (λ x. x) xs ≡ xs
modify_id i [] = refl
modify_id zero (x ∷ xs) = refl
modify_id (suc i) (x ∷ xs) = ap (◌∷◌ x) (modify_id i xs)

module _ (width : ℕ → ℕ) where
  regroup :
      (ks ms ls rest : List Token) (k : Token)
      → (ks ++ (k ∷ (ms ++ ls))) ++ rest ≡ ks ++ (k ∷ (ms ++ (ls ++ rest)))
  regroup ks ms ls rest k =
      append_assoc ks (k ∷ (ms ++ ls)) rest ∙ ap (λ xs. ks ++ (k ∷ xs)) (append_assoc ms ls rest)

  first_cell :
      (pen : Option Pen) (c : Cell) (cells : List Cell) (rest : List Token)
      → c.pen.flags.wide_spacer ≡ false
      → cells_tokens pen (c ∷ cells) ++ rest
        ≡ pen_tokens pen c.pen
          ++ (put (shown_char c.ch) ∷ (marks c.zw ++ (cells_tokens (some c.pen) cells ++ rest)))
  unfolding cells_tokens
  first_cell pen c cells rest spaced =
      ap (λ ks. ks ++ rest) (if-false c.pen.flags.wide_spacer _ _ spaced)
      ∙ regroup (pen_tokens pen c.pen) (marks c.zw) (cells_tokens (some c.pen) cells) rest
          (put (shown_char c.ch))

  skipped_cell :
      (pen : Option Pen) (s : Cell) (cells : List Cell)
      → s.pen.flags.wide_spacer ≡ true
      → cells_tokens pen (s ∷ cells) ≡ cells_tokens pen cells
  unfolding cells_tokens
  skipped_cell pen s cells shade = if-true s.pen.flags.wide_spacer _ _ shade

  performed_narrow :
      (pen : Option Pen) (c : Cell) (rest : List Token) (t : Term)
      → c.pen.flags.wide_spacer ≡ false
      → width (shown_char c.ch) ≡ 1
      → HasMark width c
      → Agrees pen t.pen
      → perform_all width (pen_tokens pen c.pen ++ (put (shown_char c.ch) ∷ (marks c.zw ++ rest))) t
        ≡ perform_all width rest (after_narrow width c t)
  performed_narrow pen c rest t spaced one marked agrees =
      perform_all-append width (pen_tokens pen c.pen) _ t
      ∙ (ap (perform_all width (put (shown_char c.ch) ∷ (marks c.zw ++ rest)))
            (performed_pen width pen c.pen t spaced agrees)
          ∙ (perform_all-append width (put (shown_char c.ch) ∷ marks c.zw) rest _
              ∙ ap (perform_all width rest) (narrow_char width c t one marked)))

  performed_wide :
      (pen : Option Pen) (c : Cell) (rest : List Token) (t : Term)
      → c.pen.flags.wide_spacer ≡ false
      → width (shown_char c.ch) ≡ 2
      → HasMark width c
      → Agrees pen t.pen
      → perform_all width (pen_tokens pen c.pen ++ (put (shown_char c.ch) ∷ (marks c.zw ++ rest))) t
        ≡ perform_all width rest (after_wide width c t)
  performed_wide pen c rest t spaced two marked agrees =
      perform_all-append width (pen_tokens pen c.pen) _ t
      ∙ (ap (perform_all width (put (shown_char c.ch) ∷ (marks c.zw ++ rest)))
            (performed_pen width pen c.pen t spaced agrees)
          ∙ (perform_all-append width (put (shown_char c.ch) ∷ marks c.zw) rest _
              ∙ ap (perform_all width rest) (wide_char width c t two marked)))

  -- A row's cells are laid from the cursor on; the pen and the cursor's column are what they are then.
  pub performed_cells :
      (cells : List Cell) (pen : Option Pen) (before : Pen) (rest : List Token) (t : Term)
      → IsRow width cells
      → Agrees pen t.pen
      → (p : Pen) × (last : ℕ) × (col : ℕ) × (perform_all width (cells_tokens pen cells ++ rest) t
          ≡ perform_all width rest (record t {
            pen = p;
            last = last;
            col = col;
            lines = modify t.row (lay t.col (painted before cells)) t.lines;
          }))
  performed_cells _ pen before rest t ended agrees = (t.pen, t.last, t.col, ended_cells)
    where
      ended_cells :
          perform_all width (cells_tokens pen [] ++ rest) t
          ≡ perform_all width rest (record t { lines = modify t.row (λ line. line) t.lines })
      ended_cells =
          unfold cells_tokens in
          (λ i. perform_all width rest (record t { lines = sym (modify_id t.row t.lines) i }))
  performed_cells _ pen before rest t (narrow c cells spaced one marked row) agrees =
      let (p, last, col, later) =
        performed_cells cells (some c.pen) c.pen rest (after_narrow width c t) row refl in
      let line : List Cell → List Cell = lay (suc t.col) (painted c.pen cells) in
      let laid : modify t.row line (after_narrow width c t).lines
          ≡ modify t.row (lay t.col (painted before (c ∷ cells))) t.lines =
        modify-modify t.row line (modify t.col (λ _. painted_cell c)) t.lines
        ∙ ap (λ cs. modify t.row (lay t.col cs) t.lines)
            (sym (if-false c.pen.flags.wide_spacer _ _ spaced)) in
      (
        p,
        last,
        col,
        ap (λ ks. perform_all width ks t) (first_cell pen c cells rest spaced)
            ∙ (performed_narrow pen c _ t spaced one marked agrees
                ∙ (later ∙ λ i.
                    perform_all width rest
                      (record t { pen = p; last = last; col = col; lines = laid i }))),
      )
  performed_cells _ pen before rest t (wide c s cells spaced two marked shade row) agrees =
      let (p, last, col, later) =
        performed_cells cells (some c.pen) c.pen rest (after_wide width c t) row refl in
      let line : List Cell → List Cell = lay (suc (suc t.col)) (painted c.pen cells) in
      let laid : modify t.row line (after_wide width c t).lines
          ≡ modify t.row (lay t.col (painted before (c ∷ s ∷ cells))) t.lines =
        modify-modify t.row line
          (λ l. modify (suc t.col) (λ _. shadow c.pen) (modify t.col (λ _. painted_cell c) l))
          t.lines
        ∙ ap (λ cs. modify t.row (lay t.col cs) t.lines)
            (sym (
              if-false c.pen.flags.wide_spacer _ _ spaced
              ∙ ap (λ cs. painted_cell c ∷ cs) (if-true s.pen.flags.wide_spacer _ _ shade))) in
      (
        p,
        last,
        col,
        ap (λ ks. perform_all width ks t) (first_cell pen c (s ∷ cells) rest spaced)
            ∙ (performed_wide pen c _ t spaced two marked agrees
                ∙ (ap (λ ks. perform_all width (ks ++ rest) (after_wide width c t))
                      (skipped_cell (some c.pen) s cells shade)
                    ∙ (later ∙ λ i.
                        perform_all width rest
                          (record t { pen = p; last = last; col = col; lines = laid i })))),
      )
