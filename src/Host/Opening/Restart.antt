-- ===== src/Host/Opening/Restart.antt =====
-- What a host is after a restart.
use devpipe.Host
use devpipe.Host.{remove_id, Backend, Host, Table, insert, sort_by_name, insert_by_name, has_id}
use devpipe.Proto.Messages.{Json}
use devpipe.Backend.{EnvSpec}
use devpipe.Prelude.{
  Option, get_or, List, false, true, inr, inl, ℕ, Bool-cases, arith, ◌∷◌, [], some, none, ◌∙◌, refl,
  ◌≡◌, find, or_else, if◌then◌else◌,
}
use devpipe.Prelude.Text.{is_empty, text_leb, text_eq_iff, Text}
use devpipe.Host.Table.{find_id-remove_id, find-append, IsTable}
use devpipe.Host.Opening.{
  no_state, opened, no_options, state_of, Options, Opened, open_host, State, adopt,
}

-- No two of one id.
Apart : Table → Type 0
Apart [] = Unit
Apart (e ∷ es) = (find (has_id e.id) es ≡ none) × Apart es

find-insert_by_name :
    (i : Text) (e : EnvSpec) (es : Table)
    → find (has_id e.id) es ≡ none
    → find (has_id i) (insert_by_name e es) ≡ (if has_id i e then some e else find (has_id i) es)
find-insert_by_name i e [] free = refl
find-insert_by_name i e (x ∷ es) free = ground (
  arith,
  find-insert_by_name i e es,
  text_eq_iff e.id i,
  text_eq_iff x.id i,
  text_eq_iff x.id e.id,
)

insert_by_name-Apart :
    (e : EnvSpec) (es : Table)
    → find (has_id e.id) es ≡ none
    → Apart es
    → Apart (insert_by_name e es)
unfolding Apart
insert_by_name-Apart e [] free apart = (refl, tt)
insert_by_name-Apart e (x ∷ es) free apart = elim (Bool-cases (text_leb e.name x.name)) [
  | inl before ↦ rw before (free, apart)
  | inr after ↦ rw after (
    find-insert_by_name x.id e es (ground (arith, free))
        ∙ ground (arith, free, apart.0, text_eq_iff e.id x.id, text_eq_iff x.id e.id),
    insert_by_name-Apart e es (ground (arith, free)) apart.1,
  )
]

IsTable-Apart : (es : Table) → IsTable es → Apart es
unfolding Apart
IsTable-Apart [] h = tt
IsTable-Apart (e ∷ es) h = (h.1, IsTable-Apart es h.3)

find-sort_by_name :
    (i : Text) (es : Table) → Apart es → find (has_id i) (sort_by_name es) ≡ find (has_id i) es
unfolding Apart
find-sort_by_name i [] h = refl
find-sort_by_name i (e ∷ es) h =
    find-insert_by_name i e (sort_by_name es) (find-sort_by_name e.id es h.1 ∙ h.0)
    ∙ rw (find-sort_by_name i es h.1) refl

sort_by_name-Apart : (es : Table) → Apart es → Apart (sort_by_name es)
unfolding Apart
sort_by_name-Apart [] h = tt
sort_by_name-Apart (e ∷ es) h =
    insert_by_name-Apart e (sort_by_name es) (find-sort_by_name e.id es h.1 ∙ h.0)
      (sort_by_name-Apart es h.1)

find-insert :
    (i : Text) (e : EnvSpec) (es : Table)
    → find (has_id i) (insert e es) ≡ (if has_id i e then some e else find (has_id i) es)
find-insert i e es =
    ground (arith, find-append (has_id i) (remove_id e.id es) e, find_id-remove_id i e.id es)

find-adopt :
    (i : Text) (table specs : Table)
    → Apart specs
    → find (has_id i) (adopt table specs) ≡ or_else (find (has_id i) specs) (find (has_id i) table)
unfolding Apart
find-adopt i table [] h = refl
find-adopt i table (e ∷ specs) h =
    ground (
      arith,
      find-adopt i (insert e table) specs h.1,
      find-insert i e table,
      h.0,
      text_eq_iff e.id i,
    )

or_else-none : (o : Option EnvSpec) → or_else o none ≡ o
or_else-none none = refl
or_else-none (some e) = refl

or_else-some : (o : Option Text) (t : Text) → or_else o (some t) ≡ some (get_or t o)
or_else-some none t = refl
or_else-some (some s) t = refl

module _ (b : Backend) (json : Json State) where
  -- A host that is opened again without options, where its last save and this one are written, is the
  -- host that was saved: the same id, image and memory, and by each id the same environment.
  pub open_host-state_of :
      (o : Opened b json) (drawn token i : Text) (world : b.World)
      → is_empty o.id ≡ false
      → IsTable o.host.environments
      → (again : Opened b json) × ((open_host b json true drawn no_options
            (some token)
            world
            (some (json.to_vec (state_of b json o)))).1
          ≡ some again)
        × (again.id ≡ o.id)
        × (again.host.image ≡ o.host.image)
        × (again.host.memory ≡ o.host.memory)
        × (find (has_id i) again.host.environments ≡ find (has_id i) o.host.environments)
  unfolding open_host
  open_host-state_of o drawn token i world named table =
      let apart = IsTable-Apart o.host.environments table in
      let sorted = sort_by_name o.host.environments in
      rw (json.from_slice-to_vec (state_of b json o), named)
        (
          _,
          refl,
          refl,
          refl,
          refl,
          find-adopt i [] sorted (sort_by_name-Apart o.host.environments apart)
              ∙ or_else-none (find (has_id i) sorted)
              ∙ find-sort_by_name i o.host.environments apart,
        )

  -- A state file that cannot be parsed is taken for none: the host comes up under a new id and without
  -- its environments, and the file is written over with that.
  pub open_host-unparsed :
      (drawn token : Text) (o : Options) (world : b.World) (bytes : List ℕ)
      → json.from_slice bytes ≡ none
      → (fresh : Opened b json) × (open_host b json true drawn o (some token) world (some bytes)
          ≡ (some (json.to_vec (state_of b json fresh)), some fresh))
        × (fresh.id ≡ drawn)
        × (fresh.host.environments ≡ [])
  unfolding open_host
  open_host-unparsed drawn token o world bytes bad =
      let h = opened b json drawn no_state o world (get_or token o.token) in
      (
        record h { host = (Host.save b true h.host).0 },
        cc (or_else-some o.token token, bad),
        refl,
        refl,
      )
