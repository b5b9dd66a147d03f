-- ===== src/Replay/Pens.antt =====
-- The comparison of pens in devpipe/src/replay.rs decides their equality.
use devpipe.Replay.{
  pen_eq, flags_eq, color_eq, Pen, CellFlags, bool_eq, Color, default, indexed, rgb,
}
use devpipe.Prelude.{arith, ◌&&◌, false, true, Bool, sym, refl, ◌≡◌, and-eq-true}

color_eq→≡ : (c d : Color) → color_eq c d ≡ true → c ≡ d
color_eq→≡ default default h = refl
color_eq→≡ default (indexed j) h = absurd (ground arith)
color_eq→≡ default (rgb r g b) h = absurd (ground arith)
color_eq→≡ (indexed i) default h = absurd (ground arith)
color_eq→≡ (indexed i) (indexed j) h = ground arith
color_eq→≡ (indexed i) (rgb r g b) h = absurd (ground arith)
color_eq→≡ (rgb r g b) default h = absurd (ground arith)
color_eq→≡ (rgb r g b) (indexed j) h = absurd (ground arith)
color_eq→≡ (rgb r g b) (rgb s k c) h = ground arith

bool_eq→≡ : (a b : Bool) → bool_eq a b ≡ true → a ≡ b
bool_eq→≡ true b h = sym h
bool_eq→≡ false b h = ground arith

flags_eq→≡ : (f g : CellFlags) → flags_eq f g ≡ true → f ≡ g
flags_eq→≡ f g h =
    let bold_eq : f.bold ≡ g.bold = ground arith in
    let dim_eq : f.dim ≡ g.dim = ground arith in
    let italic_eq : f.italic ≡ g.italic = ground arith in
    let underline_eq : f.underline ≡ g.underline = ground arith in
    let blink_eq : f.blink ≡ g.blink = ground arith in
    let inverse_eq : f.inverse ≡ g.inverse = ground arith in
    let invisible_eq : f.invisible ≡ g.invisible = ground arith in
    let strikethrough_eq : f.strikethrough ≡ g.strikethrough = ground arith in
    let wide_spacer_eq : f.wide_spacer ≡ g.wide_spacer = ground arith in
    λ i. record {
      bold = bold_eq i;
      dim = dim_eq i;
      italic = italic_eq i;
      underline = underline_eq i;
      blink = blink_eq i;
      inverse = inverse_eq i;
      invisible = invisible_eq i;
      strikethrough = strikethrough_eq i;
      wide_spacer = wide_spacer_eq i;
    }

pub pen_eq→≡ : (p q : Pen) → pen_eq p q ≡ true → p ≡ q
pen_eq→≡ p q h =
    let both =
      and-eq-true (color_eq p.fg q.fg) (color_eq p.bg q.bg && flags_eq p.flags q.flags) h in
    let rest = and-eq-true (color_eq p.bg q.bg) (flags_eq p.flags q.flags) both.1 in
    λ i. record {
      fg = color_eq→≡ p.fg q.fg both.0 i;
      bg = color_eq→≡ p.bg q.bg rest.0 i;
      flags = flags_eq→≡ p.flags q.flags rest.1 i;
    }
