-- ===== src/Replay/Sgr.antt =====
-- `sgr` and `push_color` of devpipe/src/replay.rs: the rendition that is printed, as the terminal
-- selects it.
use devpipe.Replay.{
  sgr_params, flag_param, plain_pen, CellFlags, push_color, Color, Pen, default, indexed, rgb,
}
use devpipe.Replay.Vt.{Mode, select, attribute, colored, select_one, select_all, plain}
use devpipe.Prelude.{
  append-nil, [], ◌∙◌, ap, sym, arith, ◌++◌, List, ◌||◌, ◌&&◌, false, true, Bool, refl, ◌≡◌, ◌<◌, ℕ,
  ◌==◌,
}

abbrev marked : Bool → ℕ → Pen → Pen
marked b n p = record p {
  flags = record p.flags {
    bold = (n == 1 && b) || p.flags.bold;
    dim = (n == 2 && b) || p.flags.dim;
    italic = (n == 3 && b) || p.flags.italic;
    underline = (n == 4 && b) || p.flags.underline;
    blink = (n == 5 && b) || p.flags.blink;
    inverse = (n == 7 && b) || p.flags.inverse;
    invisible = (n == 8 && b) || p.flags.invisible;
    strikethrough = (n == 9 && b) || p.flags.strikethrough;
  };
}

and_false : (c q : Bool) → ((c && false) || q) ≡ q
and_false c q = ground arith

and_true : (c q : Bool) → ((c && true) || q) ≡ (c || q)
and_true c q = ground arith

select_all-flag_param :
    (b : Bool) (n : ℕ) (rest : List ℕ) (p : Pen)
    → 0 < n
    → n < 38
    → select_all (flag_param b n ++ rest) (plain, p) ≡ select_all rest (plain, marked b n p)
unfolding select_all select_one attribute
select_all-flag_param false n rest p lo hi = simp and_false refl
select_all-flag_param true n rest p lo hi =
    let e0 : (n == 0) ≡ false = ground arith in
    let e38 : (n == 38) ≡ false = ground arith in
    let e48 : (n == 48) ≡ false = ground arith in rw (e0, e38, e48) (simp and_true refl)

abbrev inked : Bool → Color → Pen → Pen
inked fg default p = p
inked fg c p = colored fg c p

select_all-push_color :
    (c : Color) (is_fg : Bool) (rest : List ℕ) (p : Pen)
    → select_all (push_color c is_fg ++ rest) (plain, p) ≡ select_all rest (plain, inked is_fg c p)
unfolding push_color select_all select_one
select_all-push_color default fg rest p = refl
select_all-push_color (indexed i) true rest p = refl
select_all-push_color (indexed i) false rest p = refl
select_all-push_color (rgb r g b) true rest p = refl
select_all-push_color (rgb r g b) false rest p = refl

or_false : (b : Bool) → (b || false) ≡ b
or_false b = ground arith

inked_twice :
    (f b : Color) (fs : CellFlags)
    → inked false b (inked true f (record plain_pen { flags = fs }))
      ≡ record { fg = f; bg = b; flags = fs }
inked_twice default default fs = refl
inked_twice default (indexed i) fs = refl
inked_twice default (rgb r g b) fs = refl
inked_twice (indexed i) default fs = refl
inked_twice (indexed i) (indexed j) fs = refl
inked_twice (indexed i) (rgb r g b) fs = refl
inked_twice (rgb r g b) default fs = refl
inked_twice (rgb r g b) (indexed i) fs = refl
inked_twice (rgb r g b) (rgb s h c) fs = refl

last_color :
    (c : Color) (p : Pen) → select_all (push_color c false) (plain, p) ≡ (plain, inked false c p)
unfolding select_all
last_color c p =
    ap (λ ns. select_all ns (plain, p)) (sym (append-nil (push_color c false)))
    ∙ select_all-push_color c false [] p

-- What a terminal selects by `sgr` is the cell's pen, whatever it was.
pub select-sgr_params : (p q : Pen) → p.flags.wide_spacer ≡ false → select (sgr_params p) q ≡ p
unfolding sgr_params select select_all select_one
select-sgr_params p q spaced =
    ap (λ (m : Mode × Pen). m.1)
      (select_all-flag_param p.flags.bold 1 _ _ (omega arith) (omega arith)
        ∙ (select_all-flag_param p.flags.dim 2 _ _ (omega arith) (omega arith)
            ∙ (select_all-flag_param p.flags.italic 3 _ _ (omega arith) (omega arith)
                ∙ (select_all-flag_param p.flags.underline 4 _ _ (omega arith) (omega arith)
                    ∙ (select_all-flag_param p.flags.blink 5 _ _ (omega arith) (omega arith)
                        ∙ (select_all-flag_param p.flags.inverse 7 _ _ (omega arith) (omega arith)
                            ∙ (select_all-flag_param p.flags.invisible 8 _ _ (omega arith)
                                  (omega arith)
                                ∙ (select_all-flag_param p.flags.strikethrough 9 _ _ (omega arith)
                                      (omega arith)
                                    ∙ (select_all-push_color p.fg true _ _
                                        ∙ last_color p.bg _)))))))))
    ∙ (inked_twice p.fg p.bg _ ∙ λ i. record p {
      flags = record {
        bold = or_false p.flags.bold i;
        dim = or_false p.flags.dim i;
        italic = or_false p.flags.italic i;
        underline = or_false p.flags.underline i;
        blink = or_false p.flags.blink i;
        inverse = or_false p.flags.inverse i;
        invisible = or_false p.flags.invisible i;
        strikethrough = or_false p.flags.strikethrough i;
        wide_spacer = sym spaced i;
      };
    })
