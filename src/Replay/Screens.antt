-- ===== src/Replay/Screens.antt =====
-- The loop over the rows of `screen_as_ansi` (devpipe/src/replay.rs), as the terminal of Vt performs
-- what it prints.
use devpipe.Replay.{
  cells_tokens, reset, plain_pen, end_of, Token, Cell, rows_tokens, row_tokens, csi,
}
use devpipe.Prelude.{
  suc, length-append, arith, append_assoc, map, ◌++◌, ◌∷◌, [], List, none, false, inr, inl, ◌∙◌, ap,
  sym, refl, ◌≡◌, ◌-◌, ◌+◌, ℕ, All, take, length, Bool-cases, ==_iff, ◌==◌,
}
use devpipe.Replay.Vt.{select, perform, modify, replicate, perform_all, Term}
use devpipe.Replay.Writing.{if-false, if-true}
use devpipe.Replay.Cells.{painted, lay, IsRow}
use devpipe.Replay.Edges.{modify-length, full, clear}
use devpipe.Replay.Trimming.{end_of-Ends}
use devpipe.Replay.Rows.{performed_cells, modify_id}

pub add_one-sub : (r : ℕ) → r + 1 - 1 ≡ r
add_one-sub r = omega arith

module _ (width : ℕ → ℕ) where
  performed_row :
      (r : ℕ) (row : List Cell) (rest : List Token) (t : Term)
      → IsRow width (take (end_of row) row)
      → t.pen ≡ plain_pen
      → (at : ℕ) × (last : ℕ) × (col : ℕ) × (perform_all width (row_tokens r row ++ rest) t
          ≡ perform_all width rest (record t {
            row = at;
            last = last;
            col = col;
            lines = modify r (lay 0 (painted plain_pen (take (end_of row) row))) t.lines;
          }))
  unfolding row_tokens
  performed_row r row rest t ok_row plain = elim (Bool-cases (end_of row == 0)) [
    | inl blank_row ↦
        let none_drawn : end_of row ≡ 0 = (==_iff (end_of row) 0).0 blank_row in
        let same : t.lines ≡ modify r (lay 0 (painted plain_pen (take (end_of row) row))) t.lines =
          sym (modify_id r t.lines)
          ∙ ap (λ n. modify r (lay 0 (painted plain_pen (take n row))) t.lines) (sym none_drawn) in
        (
          t.row,
          t.last,
          t.col,
          ap (λ ks. perform_all width (ks ++ rest) t) (if-true (end_of row == 0) _ _ blank_row)
              ∙ λ i. perform_all width rest (record t { lines = same i }),
        )
    | inr drawn ↦
        let t₁ : Term = record t { row = r; col = 0 } in
        let (p, last, col, done) =
          performed_cells width (take (end_of row) row) none plain_pen (reset ∷ rest) t₁ ok_row
            tt in
        (
          r,
          last,
          col,
          ap (λ ks. perform_all width (ks ++ rest) t) (if-false (end_of row == 0) _ _ drawn)
              ∙ (went_to t
                  ∙ (ap (λ ks. perform_all width ks t₁)
                        (append_assoc (cells_tokens none (take (end_of row) row)) (reset ∷ []) rest)
                      ∙ (done
                          ∙ (was_reset _ ∙ λ i. perform_all width rest (record t {
                            row = r;
                            pen = sym plain i;
                            last = last;
                            col = col;
                            lines =
                                modify r (lay 0 (painted plain_pen (take (end_of row) row)))
                                  t.lines;
                          }))))),
        )
  ]
    where
      was_reset :
          (u : Term)
          → perform_all width (reset ∷ rest) u
            ≡ perform_all width rest (record u { pen = plain_pen })
      was_reset u = unfold perform_all perform select in refl

      went_to :
          (u : Term)
          → perform_all width
              ((csi false ((r + 1) ∷ 1 ∷ []) b'H'
                  ∷ (cells_tokens none (take (end_of row) row) ++ reset ∷ []))
                ++ rest)
              u
            ≡ perform_all width
                ((cells_tokens none (take (end_of row) row) ++ reset ∷ []) ++ rest)
                (record u { row = r; col = 0 })
      went_to u =
          unfold perform_all perform in
          (λ i.
            perform_all width ((cells_tokens none (take (end_of row) row) ++ reset ∷ []) ++ rest)
              (record u { row = add_one-sub r i; col = 0 }))

  pub performed_rows :
      (cols r : ℕ) (above rows : List (List Cell)) (rest : List Token) (t : Term)
      → All (λ row. IsRow width (take cols row)) rows
      → t.pen ≡ plain_pen
      → r ≡ length above
      → t.lines ≡ above ++ replicate (length rows) (clear cols)
      → (at : ℕ) × (last : ℕ) × (col : ℕ) × (perform_all width (rows_tokens cols r rows ++ rest) t
          ≡ perform_all width rest (record t {
            row = at;
            last = last;
            col = col;
            lines = above ++ map (full cols) rows;
          }))
  unfolding rows_tokens
  performed_rows cols r above [] rest t ok_rows plain here blanks =
      (t.row, t.last, t.col, λ i. perform_all width rest (record t { lines = blanks i }))
  performed_rows cols r above (row ∷ rows) rest t ok_rows plain here blanks =
      let cells : List Cell = take cols row in
      let line : List Cell → List Cell = lay 0 (painted plain_pen (take (end_of cells) cells)) in
      let (at, last, col, one) =
        performed_row r cells (rows_tokens cols (suc r) rows ++ rest) t
          (end_of-Ends width ok_rows.0).0 plain in
      let laid : modify r line t.lines
          ≡ (above ++ full cols row ∷ []) ++ replicate (length rows) (clear cols) =
        (λ i. modify (here i) line (blanks i))
        ∙ (modify-length line above (clear cols) (replicate (length rows) (clear cols))
            ∙ sym (append_assoc above (full cols row ∷ []) _)) in
      let (at₂, last₂, col₂, others) =
        performed_rows cols (suc r) (above ++ full cols row ∷ []) rows rest
          (record t { row = at; last = last; col = col; lines = modify r line t.lines }) ok_rows.1
          plain (omega (arith, here, length-append above (full cols row ∷ []))) laid in
      (
        at₂,
        last₂,
        col₂,
        ap (λ ks. perform_all width ks t)
              (append_assoc (row_tokens r cells) (rows_tokens cols (suc r) rows) rest)
            ∙ (one
                ∙ (others ∙ λ i. perform_all width rest (record t {
                  row = at₂;
                  last = last₂;
                  col = col₂;
                  lines = append_assoc above (full cols row ∷ []) (map (full cols) rows) i;
                }))),
      )
