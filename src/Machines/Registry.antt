-- ===== src/Machines/Registry.antt =====
-- `add`, `forget` and `find`: no two machines of one name, and what each call does to the answers.
use devpipe.Prelude.{
  is_some, arith, ◌++◌, ◌∷◌, [], List, some, none, not, false, true, Bool, inr, inl, refl, ◌≡◌,
  retain, Option-cases, Bool-cases, if◌then◌else◌,
}
use devpipe.Machines.{Error, saved, named, find_machine, valid_name, Machine, forget, add, Machines}
use devpipe.Prelude.Text.{text_eq_iff, text_eq, Text}
use devpipe.Prelude.Result.{err, ok, Result}

-- Every name is valid and stands once.
abbrev pub IsRegistry : Machines → Type 0
IsRegistry [] = Unit
IsRegistry (m ∷ ms) = (valid_name m.name ≡ ok tt) × (find_machine m.name ms ≡ none) × IsRegistry ms

find-append :
    (n : Text) (ms : Machines) (m : Machine)
    → find_machine n (ms ++ m ∷ []) ≡ (
        if is_some (find_machine n ms)
        then find_machine n ms
        else if named n m
        then some m
        else none)
find-append n [] m = refl
find-append n (x ∷ ms) m = ground (arith, find-append n ms m)

find-retain :
    (n name : Text) (ms : Machines)
    → find_machine n (retain (λ m. not (named name m)) ms)
      ≡ (if text_eq name n then none else find_machine n ms)
find-retain n name [] = ground arith
find-retain n name (x ∷ ms) = ground (
  arith,
  find-retain n name ms,
  text_eq_iff name n,
  text_eq_iff x.name n,
  text_eq_iff x.name name,
)

append-IsRegistry :
    (ms : Machines) (m : Machine)
    → IsRegistry ms
    → valid_name m.name ≡ ok tt
    → find_machine m.name ms ≡ none
    → IsRegistry (ms ++ m ∷ [])
append-IsRegistry [] m h v f = (v, refl, tt)
append-IsRegistry (x ∷ ms) m h v f = (
  h.0,
  ground (arith, find-append x.name ms m, text_eq_iff x.name m.name, text_eq_iff m.name x.name),
  append-IsRegistry ms m h.2 v (ground arith),
)

retain-IsRegistry :
    (name : Text) (ms : Machines) → IsRegistry ms → IsRegistry (retain (λ m. not (named name m)) ms)
retain-IsRegistry name [] h = tt
retain-IsRegistry name (x ∷ ms) h = elim (Bool-cases (named name x)) [
  | inl e ↦ rw e (retain-IsRegistry name ms h.2)
  | inr e ↦ rw e (h.0, ground (arith, find-retain x.name name ms), retain-IsRegistry name ms h.2)
]

saved-machines : (writes : Bool) (ms : Machines) → (saved writes ms).0 ≡ ms
saved-machines true ms = refl
saved-machines false ms = refl

add-IsRegistry :
    (writes : Bool) (ms : Machines) (m : Machine) → IsRegistry ms → IsRegistry (add writes ms m).0
unfolding add
add-IsRegistry writes ms m h = go (valid_name m.name) refl
  where
    go : (r : Result Error (Unit {0})) → valid_name m.name ≡ r → IsRegistry (add writes ms m).0
    go (err e) v = rw (v, add) h
    go (ok _) v =
        rw (v, add)
          (elim (Option-cases (find_machine m.name ms)) [
            | inl fresh ↦ rw fresh (rw saved-machines (append-IsRegistry ms m h v fresh))
            | inr (x, taken) ↦ rw taken h
          ])

forget-machines :
    (writes : Bool) (ms : Machines) (name : Text)
    → (forget writes ms name).0 ≡ retain (λ m. not (named name m)) ms
unfolding forget
forget-machines writes ms name = ground (arith, saved-machines writes)

forget-IsRegistry :
    (writes : Bool) (ms : Machines) (name : Text)
    → IsRegistry ms
    → IsRegistry (forget writes ms name).0
forget-IsRegistry writes ms name h =
    rw (forget-machines writes ms name) (retain-IsRegistry name ms h)

-- A laptop's history of `dp add` and `dp forget`, each with the outcome of its write.
pub data Call : Type 0 where
  adds : Bool → Machine → Call
  forgets : Bool → Text → Call

pub run : Machines → List Call → Machines
run ms [] = ms
run ms (adds w m ∷ calls) = run (add w ms m).0 calls
run ms (forgets w n ∷ calls) = run (forget w ms n).0 calls

-- Whatever is added and forgotten, in whatever order and whether or not the writes succeed, the list
-- keeps at most one machine of each name, and only valid names.
pub run-IsRegistry : (ms : Machines) (calls : List Call) → IsRegistry ms → IsRegistry (run ms calls)
unfolding run
run-IsRegistry ms [] h = h
run-IsRegistry ms (adds w m ∷ calls) h =
    run-IsRegistry (add w ms m).0 calls (add-IsRegistry w ms m h)
run-IsRegistry ms (forgets w n ∷ calls) h =
    run-IsRegistry (forget w ms n).0 calls (forget-IsRegistry w ms n h)

-- After `add` of a new valid name that name finds the machine, and every other name what it found.
pub find-add :
    (writes : Bool) (ms : Machines) (m : Machine) (n : Text)
    → valid_name m.name ≡ ok tt
    → find_machine m.name ms ≡ none
    → find_machine n (add writes ms m).0 ≡ (if text_eq m.name n then some m else find_machine n ms)
unfolding add
find-add writes ms m n v fresh =
    rw (v, add)
      (rw fresh (rw saved-machines (ground (arith, find-append n ms m, text_eq_iff m.name n))))

-- After `forget` its name finds nothing, and every other name what it found.
pub find-forget :
    (writes : Bool) (ms : Machines) (name n : Text)
    → find_machine n (forget writes ms name).0
      ≡ (if text_eq name n then none else find_machine n ms)
find-forget writes ms name n = rw (forget-machines writes ms name) (find-retain n name ms)
