-- ===== src/Command/Following/Environments.antt =====
-- The environments of a corner of the live tree (devpipe/src/main.rs), as a table by their ids.
use devpipe.Prelude.{
  arith, ◌∷◌, [], List, some, none, Option, not, false, true, inr, inl, ◌∙◌, ap, refl, ◌≡◌, find,
  retain, Bool-cases, if◌then◌else◌,
}
use devpipe.Prelude.Text.{text_eq_iff, text_eq, text_leb, Text}
use devpipe.Proto.Messages.{EnvInfo}
use devpipe.Command.Following.{sort_by_name, insert_by_name, has_id, put_environment}

abbrev pub find_id : Text → List EnvInfo → Option EnvInfo
find_id i = find (has_id i)

-- No id stands twice.
abbrev pub Distinct : List EnvInfo → Type 0
Distinct [] = Unit
Distinct (e ∷ es) = (find_id e.id es ≡ none) × Distinct es

abbrev Below : EnvInfo → List EnvInfo → Type 0
Below e [] = Unit
Below e (x ∷ xs) = text_leb e.name x.name ≡ true

-- In the order of the names.
abbrev pub IsSorted : List EnvInfo → Type 0
IsSorted [] = Unit
IsSorted (e ∷ es) = Below e es × IsSorted es

pub find_id-put_environment :
    (i : Text) (e : EnvInfo) (es : List EnvInfo)
    → find_id i (put_environment e es) ≡ (if text_eq e.id i then some e else find_id i es)
unfolding put_environment
find_id-put_environment i e [] = refl
find_id-put_environment i e (x ∷ xs) = ground (
  arith,
  find_id-put_environment i e xs,
  text_eq_iff x.id e.id,
  text_eq_iff x.id i,
  text_eq_iff e.id i,
)

pub find_id-retain :
    (i id : Text) (es : List EnvInfo)
    → find_id i (retain (λ e. not (has_id id e)) es) ≡ (if text_eq id i then none else find_id i es)
find_id-retain i id [] = ground arith
find_id-retain i id (x ∷ xs) =
    ground
      (arith, find_id-retain i id xs, text_eq_iff x.id id, text_eq_iff x.id i, text_eq_iff id i)

find_id-insert_by_name :
    (i : Text) (e : EnvInfo) (es : List EnvInfo)
    → find_id e.id es ≡ none
    → find_id i (insert_by_name e es) ≡ (if text_eq e.id i then some e else find_id i es)
find_id-insert_by_name i e [] h = refl
find_id-insert_by_name i e (x ∷ xs) h = ground (
  arith,
  find_id-insert_by_name i e xs,
  text_eq_iff x.id e.id,
  text_eq_iff x.id i,
  text_eq_iff e.id i,
)

pub put_environment-Distinct :
    (e : EnvInfo) (es : List EnvInfo) → Distinct es → Distinct (put_environment e es)
unfolding put_environment
put_environment-Distinct e [] h = (refl, tt)
put_environment-Distinct e (x ∷ xs) h = elim (Bool-cases (has_id e.id x)) [
  | inl same ↦ rw same (ground (arith, text_eq_iff x.id e.id), h.1)
  | inr other ↦ rw other (
    ground (arith, find_id-put_environment x.id e xs, text_eq_iff x.id e.id, text_eq_iff e.id x.id),
    put_environment-Distinct e xs h.1,
  )
]

pub retain-Distinct :
    (id : Text) (es : List EnvInfo) → Distinct es → Distinct (retain (λ e. not (has_id id e)) es)
retain-Distinct id [] h = tt
retain-Distinct id (x ∷ xs) h = elim (Bool-cases (has_id id x)) [
  | inl same ↦ rw same (retain-Distinct id xs h.1)
  | inr other ↦ rw other (ground (arith, find_id-retain x.id id xs), retain-Distinct id xs h.1)
]

insert_by_name-Distinct :
    (e : EnvInfo) (es : List EnvInfo)
    → find_id e.id es ≡ none
    → Distinct es
    → Distinct (insert_by_name e es)
insert_by_name-Distinct e [] new h = (refl, tt)
insert_by_name-Distinct e (x ∷ xs) new h = elim (Bool-cases (text_leb e.name x.name)) [
  | inl before ↦ rw before (new, h)
  | inr behind ↦ rw behind (
    ground (arith, find_id-insert_by_name x.id e xs, text_eq_iff x.id e.id, text_eq_iff e.id x.id),
    insert_by_name-Distinct e xs (ground arith) h.1,
  )
]

pub find_id-sort_by_name :
    (i : Text) (es : List EnvInfo) → Distinct es → find_id i (sort_by_name es) ≡ find_id i es
find_id-sort_by_name i [] h = refl
find_id-sort_by_name i (e ∷ es) h =
    find_id-insert_by_name i e (sort_by_name es) (find_id-sort_by_name e.id es h.1 ∙ h.0)
    ∙ ap (λ o. if text_eq e.id i then some e else o) (find_id-sort_by_name i es h.1)

pub sort_by_name-Distinct : (es : List EnvInfo) → Distinct es → Distinct (sort_by_name es)
sort_by_name-Distinct [] h = tt
sort_by_name-Distinct (e ∷ es) h =
    insert_by_name-Distinct e (sort_by_name es) (find_id-sort_by_name e.id es h.1 ∙ h.0)
      (sort_by_name-Distinct es h.1)

text_leb_total : (a b : Text) → text_leb a b ≡ false → text_leb b a ≡ true
text_leb_total [] b h = absurd (ground arith)
text_leb_total (c ∷ a) [] h = refl
text_leb_total (c ∷ a) (d ∷ b) h = ground (arith, text_leb_total a b)

insert_by_name-Below :
    (x e : EnvInfo) (es : List EnvInfo)
    → text_leb x.name e.name ≡ true
    → Below x es
    → Below x (insert_by_name e es)
insert_by_name-Below x e [] le h = le
insert_by_name-Below x e (y ∷ es) le h = ground arith

insert_by_name-IsSorted :
    (e : EnvInfo) (es : List EnvInfo) → IsSorted es → IsSorted (insert_by_name e es)
insert_by_name-IsSorted e [] h = (tt, tt)
insert_by_name-IsSorted e (x ∷ xs) h = elim (Bool-cases (text_leb e.name x.name)) [
  | inl before ↦ rw before (before, h)
  | inr behind ↦ rw behind (
    insert_by_name-Below x e xs (text_leb_total e.name x.name behind) h.0,
    insert_by_name-IsSorted e xs h.1,
  )
]

pub sort_by_name-IsSorted : (es : List EnvInfo) → IsSorted (sort_by_name es)
sort_by_name-IsSorted [] = tt
sort_by_name-IsSorted (e ∷ es) =
    insert_by_name-IsSorted e (sort_by_name es) (sort_by_name-IsSorted es)
