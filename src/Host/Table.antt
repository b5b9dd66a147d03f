-- ===== src/Host/Table.antt =====
-- The table of environments as a map: what `find` sees after `insert` and `remove`.
use devpipe.Prelude.{
  or_else, arith, ◌++◌, ◌∷◌, [], List, some, none, Bool, inr, inl, refl, ◌≡◌, find, Bool-cases,
  if◌then◌else◌,
}
use devpipe.Host.{insert, remove_id, has_name, has_id, valid_name, Table}
use devpipe.Prelude.Text.{text_eq_iff, text_eq, Text}
use devpipe.Backend.{EnvSpec}
use devpipe.Prelude.Result.{ok}

-- No id and no name stands twice, and every name is a DNS label.
abbrev pub IsTable : Table → Type 0
IsTable [] = Unit
IsTable (e ∷ es) =
    (valid_name e.name ≡ ok tt)
    × (find (has_id e.id) es ≡ none)
    × (find (has_name e.name) es ≡ none)
    × IsTable es

pub find_id-remove_id :
    (i id : Text) (es : Table)
    → find (has_id i) (remove_id id es) ≡ (if text_eq id i then none else find (has_id i) es)
find_id-remove_id i id [] = ground arith
find_id-remove_id i id (e ∷ es) =
    ground
      (arith, find_id-remove_id i id es, text_eq_iff id i, text_eq_iff e.id i, text_eq_iff e.id id)

find_name-remove_id :
    (n id : Text) (es : Table)
    → find (has_name n) es ≡ none
    → find (has_name n) (remove_id id es) ≡ none
find_name-remove_id n id [] h = refl
find_name-remove_id n id (e ∷ es) h = ground (arith, find_name-remove_id n id es)

pub remove_id-IsTable : (id : Text) (es : Table) → IsTable es → IsTable (remove_id id es)
remove_id-IsTable id [] h = tt
remove_id-IsTable id (e ∷ es) h = elim (Bool-cases (has_id id e)) [
  | inl same ↦ rw same (remove_id-IsTable id es h.3)
  | inr other ↦ rw other (
    h.0,
    ground (arith, find_id-remove_id e.id id es),
    find_name-remove_id e.name id es h.2,
    remove_id-IsTable id es h.3,
  )
]

pub remove_id_fresh : (id : Text) (es : Table) → find (has_id id) es ≡ none → remove_id id es ≡ es
remove_id_fresh id [] h = refl
remove_id_fresh id (e ∷ es) h = ground (arith, remove_id_fresh id es)

pub find-append {ℓ} :
    {A : Type ℓ} (p : A → Bool) (xs : List A) (x : A)
    → find p (xs ++ x ∷ []) ≡ or_else (find p xs) (if p x then some x else none)
find-append p [] x = refl
find-append p (y ∷ xs) x = ground (arith, find-append p xs x)

append-IsTable :
    (es : Table) (e : EnvSpec)
    → IsTable es
    → valid_name e.name ≡ ok tt
    → find (has_id e.id) es ≡ none
    → find (has_name e.name) es ≡ none
    → IsTable (es ++ e ∷ [])
append-IsTable [] e h v i n = (v, refl, refl, tt)
append-IsTable (x ∷ es) e h v i n = (
  h.0,
  ground (arith, find-append (has_id x.id) es e, text_eq_iff x.id e.id, text_eq_iff e.id x.id),
  ground (
    arith,
    find-append (has_name x.name) es e,
    text_eq_iff x.name e.name,
    text_eq_iff e.name x.name,
  ),
  append-IsTable es e h.3 v (ground arith) (ground arith),
)

pub insert-IsTable :
    (es : Table) (e : EnvSpec)
    → IsTable es
    → valid_name e.name ≡ ok tt
    → find (has_id e.id) es ≡ none
    → find (has_name e.name) es ≡ none
    → IsTable (insert e es)
insert-IsTable es e h v i n = rw (remove_id_fresh e.id es i) (append-IsTable es e h v i n)
