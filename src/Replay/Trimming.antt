-- ===== src/Replay/Trimming.antt =====
-- What a row looks like, and the blanks at its end that `screen_as_ansi` (devpipe/src/replay.rs) leaves
-- out.
use devpipe.Replay.Writing.{if-true, if-false}
use devpipe.Replay.Cells.{HasMark, painted, IsRow, painted_cell, ended, narrow, wide}
use devpipe.Prelude.{
  subst, ==_iff, ◌++◌, ◌∙◌, sym, ◌+◌, suc, length, arith, map, ◌∷◌, List, false, true, inr, inl, ap,
  refl, ◌≡◌, ℕ, take, Bool-cases, if◌then◌else◌, ◌==◌,
}
use devpipe.Replay.{plain_pen, default, is_drawn, end_of, shown_char, Cell, Pen}
use devpipe.Replay.Vt.{replicate, shadow, blank}

-- What is seen of a cell: the second half of a wide character, or a character with its mark and the
-- pen, which a blank shows nothing of. The character 0 is a blank.
pub data Look : Type 0 where
  shade : Look
  face : (ch zw : ℕ) (pen : Pen) → Look

abbrev pub face_of : Cell → Look
face_of c = face c.ch c.zw (if is_drawn c then c.pen else plain_pen)

abbrev pub look : Cell → Look
look c = if c.pen.flags.wide_spacer then shade else face_of (painted_cell c)

abbrev pub nothing : Look
nothing = look (blank default)

shown_char_twice : (c : ℕ) → shown_char (shown_char c) ≡ shown_char c
shown_char_twice c = ground arith

look-painted_cell : (c : Cell) → look (painted_cell c) ≡ look c
look-painted_cell c =
    ap (λ ch. if c.pen.flags.wide_spacer then shade else face_of (record c { ch = ch }))
      (shown_char_twice c.ch)

suc_apart : (n : ℕ) → (suc n == 0) ≡ false
suc_apart n = ground arith

end_drawn :
    (c : Cell) (cells : List Cell) → is_drawn c ≡ true → end_of (c ∷ cells) ≡ suc (end_of cells)
unfolding end_of
end_drawn c cells drawn = elim (Bool-cases (end_of cells == 0)) [
  | inl last ↦
      let none_left : end_of cells ≡ 0 = ground arith in rw (last, drawn) (ap suc (sym none_left))
  | inr more ↦ rw more refl
]

end_before :
    (c : Cell) (cells : List Cell)
    → (end_of cells == 0) ≡ false
    → end_of (c ∷ cells) ≡ suc (end_of cells)
unfolding end_of
end_before c cells more = rw more refl

end_bare :
    (c : Cell) (cells : List Cell)
    → is_drawn c ≡ false
    → (end_of cells == 0) ≡ true
    → end_of (c ∷ cells) ≡ 0
unfolding end_of
end_bare c cells bare last = rw (last, bare) refl

spacer_drawn : (c : Cell) → c.pen.flags.wide_spacer ≡ true → is_drawn c ≡ true
spacer_drawn c h = ground arith

module _ (width : ℕ → ℕ) where
  pub look-painted :
      (cells : List Cell) (before : Pen)
      → IsRow width cells
      → map look (painted before cells) ≡ map look cells
  look-painted _ before ended = refl
  look-painted _ before (narrow c cells spaced one marked row) =
      rw
        (ap (map look) (
          if-false c.pen.flags.wide_spacer (shadow before ∷ painted before cells)
            (painted_cell c ∷ painted c.pen cells) spaced))
        (λ i. look-painted_cell c i ∷ look-painted cells c.pen row i)
  look-painted _ before (wide c s cells spaced two marked shaded row) =
      ap (map look) (if-false c.pen.flags.wide_spacer _ _ spaced)
      ∙ (ap (λ cs. look (painted_cell c) ∷ map look cs) (if-true s.pen.flags.wide_spacer _ _ shaded)
          ∙ λ i.
              look-painted_cell c i
              ∷ sym (if-true s.pen.flags.wide_spacer shade (face_of (painted_cell s)) shaded) i
              ∷ look-painted cells c.pen row i)

  blank_look : (c : Cell) → is_drawn c ≡ false → HasMark width c → look c ≡ nothing
  blank_look c h marked =
      let ch_eq : c.ch ≡ 32 = ground arith in
      let bare : c.zw ≡ 0 = ground arith in
      let spaced : c.pen.flags.wide_spacer ≡ false = ground arith in
      let shown : shown_char c.ch ≡ c.ch = ground arith in
      if-false c.pen.flags.wide_spacer _ _ spaced
      ∙ (ap (λ ch. face_of (record c { ch = ch })) shown ∙ λ i.
          face (ch_eq i) (bare i) (if-false (is_drawn c) c.pen plain_pen h i))

  -- A row may be cut there: what is left out is blank.
  abbrev pub Ends : List Cell → ℕ → Type 0
  Ends cells n =
      IsRow width (take n cells)
      × ((k : ℕ) × (length cells ≡ n + k)
          × (map look cells ≡ map look (take n cells) ++ replicate k nothing))

  kept_narrow :
      (c : Cell) (cells : List Cell) (n : ℕ)
      → c.pen.flags.wide_spacer ≡ false
      → width (shown_char c.ch) ≡ 1
      → HasMark width c
      → Ends cells n
      → Ends (c ∷ cells) (suc n)
  kept_narrow c cells n spaced one marked (row, (k, long, same)) = (
    narrow c (take n cells) spaced one marked row,
    (k, omega (arith, long), ap (◌∷◌ (look c)) same),
  )

  kept_wide :
      (c s : Cell) (cells : List Cell) (n : ℕ)
      → c.pen.flags.wide_spacer ≡ false
      → width (shown_char c.ch) ≡ 2
      → HasMark width c
      → s.pen.flags.wide_spacer ≡ true
      → Ends cells n
      → Ends (c ∷ s ∷ cells) (suc (suc n))
  kept_wide c s cells n spaced two marked shaded (row, (k, long, same)) = (
    wide c s (take n cells) spaced two marked shaded row,
    (k, omega (arith, long), λ i. look c ∷ look s ∷ same i),
  )

  left_out :
      (c : Cell) (cells : List Cell)
      → is_drawn c ≡ false
      → HasMark width c
      → Ends cells 0
      → Ends (c ∷ cells) 0
  left_out c cells bare marked (row, (k, long, same)) =
      (ended, (suc k, omega (arith, long), λ i. blank_look c bare marked i ∷ same i))

  pub end_of-Ends : {cells : List Cell} → IsRow width cells → Ends cells (end_of cells)
  end_of-Ends ended = unfold end_of in (ended, (0, refl, refl))
  end_of-Ends (narrow c cells spaced one marked row) =
      let cut = end_of-Ends row in
      elim (Bool-cases (end_of cells == 0)) [
        | inl last ↦ elim (Bool-cases (is_drawn c)) [
          | inl drawn ↦
              subst (Ends (c ∷ cells)) (sym (end_drawn c cells drawn))
                (kept_narrow c cells (end_of cells) spaced one marked cut)
          | inr bare ↦ subst (Ends (c ∷ cells)) (sym (end_bare c cells bare last)) (
              left_out c cells bare marked
                (subst (Ends cells) ((==_iff (end_of cells) 0).0 last) cut))
        ]
        | inr more ↦
            subst (Ends (c ∷ cells)) (sym (end_before c cells more))
              (kept_narrow c cells (end_of cells) spaced one marked cut)
      ]
  end_of-Ends (wide c s cells spaced two marked shaded row) =
      let cut = end_of-Ends row in
      let here : end_of (s ∷ cells) ≡ suc (end_of cells) =
        end_drawn s cells (spacer_drawn s shaded) in
      let there : end_of (c ∷ s ∷ cells) ≡ suc (end_of (s ∷ cells)) =
        end_before c (s ∷ cells) (ap (λ n. n == 0) here ∙ suc_apart (end_of cells)) in
      subst (Ends (c ∷ s ∷ cells)) (sym (there ∙ ap suc here))
        (kept_wide c s cells (end_of cells) spaced two marked shaded cut)
