-- ===== src/Replay/Stale.antt =====
-- A replay to a terminal that is not fresh: `screen_as_ansi` (devpipe/src/replay.rs) enters modes and
-- leaves none.
use devpipe.Replay.{
  plain_pen, reset, Screen, screen_tokens, pen_eq, end_of, pen_tokens, Cell, Pen, rows_tokens,
  row_tokens, cells_tokens, sgr, marks, Token, put, csi,
}
use devpipe.Prelude.{
  ◌++◌, ap, ◌+◌, if◌then◌else◌, arith, ◌∷◌, [], List, some, none, Option, not, false, true, Bool,
  inr, inl, subst, ◌∙◌, sym, refl, ◌≡◌, suc, ℕ, All-append, All, take, Bool-cases, ◌==◌,
}
use devpipe.Replay.Vt.{erased, perform_put, perform_all, perform, Term}
use devpipe.Replay.Writing.{if-false, if-true}
use devpipe.Replay.Cells.{perform_all-append}
use devpipe.Replay.Rebuilt.{cursor_shown, cursor_put, cleared}

abbrev is_plain : Token → Bool
is_plain (put c) = true
is_plain (csi is_private params final) = not is_private

abbrev AllPlain : List Token → Type 0
AllPlain = All (λ k. is_plain k ≡ true)

marks-AllPlain : (zw : ℕ) → AllPlain (marks zw)
marks-AllPlain zw = ground arith

pen_tokens-AllPlain : (pen : Option Pen) (p : Pen) → AllPlain (pen_tokens pen p)
unfolding sgr
pen_tokens-AllPlain none p = (refl, tt)
pen_tokens-AllPlain (some q) p = elim (Bool-cases (pen_eq q p)) [
  | inl same ↦ rw same tt
  | inr other ↦ rw other (refl, tt)
]

cells_tokens-AllPlain : (pen : Option Pen) (cells : List Cell) → AllPlain (cells_tokens pen cells)
unfolding cells_tokens
cells_tokens-AllPlain pen [] = tt
cells_tokens-AllPlain pen (c ∷ cells) = elim (Bool-cases c.pen.flags.wide_spacer) [
  | inl spacer ↦
      subst AllPlain (sym (if-true c.pen.flags.wide_spacer _ _ spacer))
        (cells_tokens-AllPlain pen cells)
  | inr char ↦ subst AllPlain (sym (if-false c.pen.flags.wide_spacer _ _ char)) (
      All-append _ (pen_tokens pen c.pen) _ (pen_tokens-AllPlain pen c.pen) (
        refl,
        All-append _ (marks c.zw) _ (marks-AllPlain c.zw)
            (cells_tokens-AllPlain (some c.pen) cells),
      ))
]

row_tokens-AllPlain : (r : ℕ) (row : List Cell) → AllPlain (row_tokens r row)
unfolding row_tokens
row_tokens-AllPlain r row = elim (Bool-cases (end_of row == 0)) [
  | inl blank_row ↦ rw blank_row tt
  | inr drawn ↦ rw drawn (
    refl,
    All-append _ (cells_tokens none (take (end_of row) row)) _
        (cells_tokens-AllPlain none (take (end_of row) row)) (refl, tt),
  )
]

rows_tokens-AllPlain : (cols r : ℕ) (rows : List (List Cell)) → AllPlain (rows_tokens cols r rows)
unfolding rows_tokens
rows_tokens-AllPlain cols r [] = tt
rows_tokens-AllPlain cols r (row ∷ rows) =
    All-append _ (row_tokens r (take cols row)) _ (row_tokens-AllPlain r (take cols row))
      (rows_tokens-AllPlain cols (suc r) rows)

abbrev SameModes : Term → Term → Type 0
SameModes t u = (u.is_alt ≡ t.is_alt) × (u.pastes ≡ t.pastes)

module _ (width : ℕ → ℕ) where
  perform-SameModes : (k : Token) (t : Term) → is_plain k ≡ true → SameModes t (perform width k t)
  unfolding perform perform_put
  perform-SameModes (put c) t h = ground arith
  perform-SameModes (csi true params final) t h = absurd (ground arith)
  perform-SameModes (csi false [] final) t h = ground arith
  perform-SameModes (csi false (r ∷ []) final) t h = ground arith
  perform-SameModes (csi false (r ∷ c ∷ []) final) t h = ground arith
  perform-SameModes (csi false (r ∷ c ∷ d ∷ params) final) t h = ground arith

  perform_all-SameModes :
      (ks : List Token) (t : Term) → AllPlain ks → SameModes t (perform_all width ks t)
  unfolding perform_all
  perform_all-SameModes [] t h = (refl, refl)
  perform_all-SameModes (k ∷ ks) t h =
      let one = perform-SameModes k t h.0 in
      let others = perform_all-SameModes ks (perform width k t) h.1 in
      (others.0 ∙ one.0, others.1 ∙ one.1)

  -- The replay of a screen that is neither alternate nor in bracketed paste leaves a terminal's buffer
  -- and paste mode as they are: one that is in the alternate screen, because the child was when it was
  -- last told, stays there, and goes on bracketing what is pasted.
  pub perform-stays :
      (s : Screen) (t : Term)
      → s.is_alt_screen ≡ false
      → s.bracketed_paste ≡ false
      → ((perform_all width (screen_tokens s) t).is_alt ≡ t.is_alt)
        × ((perform_all width (screen_tokens s) t).pastes ≡ t.pastes)
  unfolding screen_tokens
  perform-stays s t normal unbracketed =
      let rows : List Token = rows_tokens s.cols 0 s.lines in
      let cursor : List Token = csi true (25 ∷ []) (if s.cursor_visible then b'h' else b'l') ∷ [] in
      let goto : Token = csi false ((s.cursor_pos.0 + 1) ∷ (s.cursor_pos.1 + 1) ∷ []) b'H' in
      let printed : screen_tokens s
          ≡ csi false [] b'H' ∷ csi false (2 ∷ []) b'J' ∷ reset ∷ (rows ++ (goto ∷ cursor)) =
        rw (normal, unbracketed) refl in
      let t₁ : Term = record t { row = 0; col = 0; lines = erased t; pen = plain_pen } in
      let u : Term = perform_all width rows t₁ in
      let done : perform_all width (screen_tokens s) t ≡ record u {
        row = s.cursor_pos.0;
        col = s.cursor_pos.1;
        shows_cursor = s.cursor_visible;
      } =
        ap (λ ks. perform_all width ks t) printed
        ∙ (cleared width (rows ++ (goto ∷ cursor)) t
            ∙ (perform_all-append width rows (goto ∷ cursor) t₁
                ∙ (cursor_put width s.cursor_pos.0 s.cursor_pos.1 cursor u
                    ∙ (cursor_shown width s.cursor_visible [] _ ∙ unfold perform_all in refl)))) in
      let same = perform_all-SameModes rows t₁ (rows_tokens-AllPlain s.cols 0 s.lines) in
      rw done same
