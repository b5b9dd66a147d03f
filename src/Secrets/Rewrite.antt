-- ===== src/Secrets/Rewrite.antt =====
-- `set` and `remove`: what the next `load` finds.
use devpipe.Prelude.Text.{text_eq, Text}
use devpipe.Secrets.{load, without, Error, write, Pairs, remove, set}
use devpipe.Prelude.{
  [], inr, sym, refl, ==_iff, ◌==◌, not, inl, true, arith, Bool-cases, ◌≤◌, ◌≡◌, ◌∷◌, Option,
  length, Bool, All,
}
use devpipe.Secrets.Lines.{parse-print, IsPair}
use devpipe.Prelude.Result.{ok, err}

without-IsPair : (key : Text) (ps : Pairs) → All IsPair ps → All IsPair (without key ps)
without-IsPair key [] h = tt
without-IsPair key (p ∷ ps) h = elim (Bool-cases (text_eq p.0 key)) [
  | inl e ↦ rw e (without-IsPair key ps h.1)
  | inr e ↦ rw e (h.0, without-IsPair key ps h.1)
]

-- A refused or failed `set` leaves the file alone.
pub set-eq-err :
    (succeeds : Bool) (file : Option Text) (key value : Text) (e : Error)
    → (set succeeds file key value).1 ≡ err e
    → (set succeeds file key value).0 ≡ file
unfolding set write
set-eq-err succeeds file key value e h = ground arith

length-without : (key : Text) (ps : Pairs) → length (without key ps) ≤ length ps
length-without key [] = omega arith
length-without key (p ∷ ps) = ground (arith, length-without key ps)

without-all : (key : Text) (ps : Pairs) → length (without key ps) ≡ length ps → without key ps ≡ ps
without-all key [] h = refl
without-all key (p ∷ ps) h = ground (arith, without-all key ps, length-without key ps)

-- Where every pair in the file is plain and the write succeeds: after `remove` the pairs of that name
-- are gone and every other one is there, in its order; it answers `true` exactly where there was one
-- to remove.
pub load-remove :
    (file : Option Text) (key : Text)
    → All IsPair (load file)
    → (load (remove true file key).0 ≡ without key (load file))
      × ((remove true file key).1
          ≡ ok (not (length (without key (load file)) == length (load file))))
unfolding remove write
load-remove file key pairs =
    elim (Bool-cases (length (without key (load file)) == length (load file))) [
      | inl same ↦ rw same (sym (without-all key (load file) ((==_iff _ _).0 same)), refl)
      | inr fewer ↦ rw fewer (
        (unfold load in
            parse-print (without key (load file)) (without-IsPair key (load file) pairs)),
        refl,
      )
    ]
