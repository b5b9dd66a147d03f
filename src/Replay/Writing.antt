-- ===== src/Replay/Writing.antt =====
-- Cells that are written one over the other, on the lines of the terminal of Vt, and the conditional.
use mathlib.Core.Path.{fun_ext}
use devpipe.Prelude.{
  ◌∷◌, [], List, false, true, Bool, ◌∙◌, ap, refl, ◌≡◌, suc, zero, ℕ, if◌then◌else◌,
}
use devpipe.Replay.Vt.{modify}
use devpipe.Replay.{Cell}

pub modify-modify {ℓ} :
    {A : Type ℓ} (i : ℕ) (f g : A → A) (xs : List A)
    → modify i f (modify i g xs) ≡ modify i (λ x. f (g x)) xs
modify-modify i f g [] = refl
modify-modify zero f g (x ∷ xs) = refl
modify-modify (suc i) f g (x ∷ xs) = ap (◌∷◌ x) (modify-modify i f g xs)

pub if-false {ℓ} : {A : Type ℓ} (b : Bool) (x y : A) → b ≡ false → (if b then x else y) ≡ y
if-false b x y e = rw e refl

pub if-true {ℓ} : {A : Type ℓ} (b : Bool) (x y : A) → b ≡ true → (if b then x else y) ≡ x
if-true b x y e = rw e refl

modify_apart :
    (i : ℕ) (f g : Cell → Cell) (xs : List Cell)
    → modify i f (modify (suc i) g xs) ≡ modify (suc i) g (modify i f xs)
modify_apart i f g [] = refl
modify_apart zero f g (x ∷ xs) = refl
modify_apart (suc i) f g (x ∷ xs) = ap (◌∷◌ x) (modify_apart i f g xs)

-- A mark on a cell that has just been written, narrow or wide.
pub marked_narrow :
    (r col z : ℕ) (c : Cell) (ls : List (List Cell))
    → modify r (modify col (λ x. record x { zw = z })) (modify r (modify col (λ _. c)) ls)
      ≡ modify r (modify col (λ _. record c { zw = z })) ls
marked_narrow r col z c ls =
    modify-modify r (modify col (λ x. record x { zw = z })) (modify col (λ _. c)) ls
    ∙ ap (λ f. modify r f ls) (fun_ext (modify-modify col (λ x. record x { zw = z }) (λ _. c)))

pub marked_wide :
    (r col z : ℕ) (c s : Cell) (ls : List (List Cell))
    → modify r
        (modify col (λ x. record x { zw = z }))
        (modify r (λ line. modify (suc col) (λ _. s) (modify col (λ _. c) line)) ls)
      ≡ modify r (λ line. modify (suc col) (λ _. s) (modify col (λ _. record c { zw = z }) line)) ls
marked_wide r col z c s ls =
    modify-modify r (modify col (λ x. record x { zw = z }))
      (λ line. modify (suc col) (λ _. s) (modify col (λ _. c) line)) ls
    ∙ ap (λ f. modify r f ls)
        (fun_ext λ line.
          modify_apart col (λ x. record x { zw = z }) (λ _. s) (modify col (λ _. c) line)
          ∙ ap (modify (suc col) (λ _. s))
              (modify-modify col (λ x. record x { zw = z }) (λ _. c) line))
