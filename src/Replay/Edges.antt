-- ===== src/Replay/Edges.antt =====
-- The rows of the terminal after a replay (devpipe/src/replay.rs), and what is to be seen of them.
use devpipe.Replay.{plain_pen, end_of, default, Pen, Cell}
use devpipe.Replay.Trimming.{look-painted, end_of-Ends, nothing, look, Look}
use devpipe.Prelude.{
  arith, append_assoc, map-append, map, ◌++◌, ◌∷◌, [], List, ◌∙◌, ap, sym, refl, ◌≡◌, ◌≤◌, ◌-◌, ◌+◌,
  suc, zero, ℕ, take, length-append, length,
}
use devpipe.Replay.Vt.{blank, replicate, modify}
use devpipe.Replay.Cells.{painted, IsRow, lay}

-- The row that the terminal has in the end.
abbrev pub clear : ℕ → List Cell
clear cols = replicate cols (blank default)

abbrev pub full : ℕ → List Cell → List Cell
full cols row =
    lay 0 (painted plain_pen (take (end_of (take cols row)) (take cols row))) (clear cols)

-- What is to be seen of a row: its cells, and blanks up to the edge.
abbrev pub shown_row : ℕ → List Cell → List Look
shown_row cols row = map look (take cols row) ++ replicate (cols - length (take cols row)) nothing

pub modify-length {ℓ} :
    {A : Type ℓ} (f : A → A) (above : List A) (x : A) (below : List A)
    → modify (length above) f (above ++ x ∷ below) ≡ above ++ (f x ∷ below)
modify-length f [] x below = refl
modify-length f (a ∷ above) x below = ap (◌∷◌ a) (modify-length f above x below)

replicate-add {ℓ} :
    {A : Type ℓ} (n k m : ℕ) (x : A) → n ≡ k + m → replicate n x ≡ replicate k x ++ replicate m x
replicate-add n zero m x e = ap (λ i. replicate i x) (omega (arith, e))
replicate-add zero (suc k) m x e = absurd (omega (arith, e))
replicate-add (suc n) (suc k) m x e = ap (◌∷◌ x) (replicate-add n k m x (omega (arith, e)))

map-replicate : (n : ℕ) (c : Cell) → map look (replicate n c) ≡ replicate n (look c)
map-replicate zero c = refl
map-replicate (suc n) c = ap (◌∷◌ (look c)) (map-replicate n c)

length-take {ℓ} : {A : Type ℓ} (n : ℕ) (xs : List A) → length (take n xs) ≤ n
length-take zero xs = omega arith
length-take (suc n) [] = omega arith
length-take (suc n) (x ∷ xs) = omega (arith, length-take n xs)

length-take_all {ℓ} : {A : Type ℓ} (n : ℕ) (xs : List A) → n ≤ length xs → length (take n xs) ≡ n
length-take_all zero xs h = refl
length-take_all (suc n) [] h = absurd (omega arith)
length-take_all (suc n) (x ∷ xs) h = omega (arith, length-take_all n xs (omega arith))

length-painted : (cells : List Cell) (before : Pen) → length (painted before cells) ≡ length cells
length-painted [] before = refl
length-painted (c ∷ cells) before =
    ground (arith, length-painted cells before, length-painted cells c.pen)

lay-append :
    (n m : ℕ) (cells w : List Cell)
    → n ≡ length cells + m
    → lay (length w) cells (w ++ clear n) ≡ w ++ (cells ++ clear m)
lay-append n m [] w e = ap (λ k. w ++ clear k) (omega (arith, e))
lay-append zero m (c ∷ cells) w e = absurd (omega (arith, e))
lay-append (suc n) m (c ∷ cells) w e =
    let longer : suc (length w) ≡ length (w ++ c ∷ []) = omega (arith, length-append w (c ∷ [])) in
    ap (lay (suc (length w)) cells)
      (modify-length (λ _. c) w (blank default) (clear n) ∙ sym (append_assoc w (c ∷ []) (clear n)))
    ∙ (ap (λ k. lay k cells ((w ++ c ∷ []) ++ clear n)) longer
        ∙ (lay-append n m cells (w ++ c ∷ []) (omega (arith, e))
            ∙ append_assoc w (c ∷ []) (cells ++ clear m)))

module _ (width : ℕ → ℕ) where
  -- The terminal's row looks as it should.
  pub look-full :
      (cols : ℕ) (row : List Cell)
      → IsRow width (take cols row)
      → map look (full cols row) ≡ shown_row cols row
  look-full cols row ok_row =
      let cells : List Cell = take cols row in
      let n : ℕ = end_of cells in
      let (kept, (k, long, same)) = end_of-Ends width ok_row in
      let fits = length-take cols row in
      let some_kept : length (take n cells) ≡ n = length-take_all n cells (omega (arith, long)) in
      let brushed = length-painted (take n cells) plain_pen in
      let enough : cols ≡ length (painted plain_pen (take n cells)) + (cols - n) =
        omega (arith, long, fits, some_kept, brushed) in
      ap (map look) (lay-append cols (cols - n) (painted plain_pen (take n cells)) [] enough)
      ∙ (map-append look (painted plain_pen (take n cells)) (clear (cols - n))
          ∙ ((λ i.
                look-painted width (take n cells) plain_pen kept i
                ++ map-replicate (cols - n) (blank default) i)
              ∙ (ap (λ ls. map look (take n cells) ++ ls)
                    (replicate-add (cols - n) k (cols - length cells) nothing
                      (omega (arith, long, fits)))
                  ∙ (sym (append_assoc (map look (take n cells)) _ _)
                      ∙ ap (λ ls. ls ++ replicate (cols - length cells) nothing) (sym same)))))
