-- ===== src/Host/Invariant.antt =====
-- The host through any history of its calls.
use devpipe.Prelude.{
  or_else, is_some, some, Option, inr, inl, ◌⊎◌, arith, none, ◌&&◌, not, false, true, Bool, refl,
  ◌≡◌, find,
}
use devpipe.Host.{
  remove_id, close, get, found, checked, at_world, spec_of, insert, Table, local_holds_one,
  no_environments, destroy, already_here, stop, start, create, has_name, has_id, find_environment,
  and_then, Request, valid_name, save, Error, finish_create, check_create, Host, Backend,
}
use devpipe.Prelude.Text.{codes, text_eq, Text}
use devpipe.Host.Table.{remove_id-IsTable, insert-IsTable, IsTable}
use devpipe.Backend.{EnvSpec}
use devpipe.Prelude.Result.{err, bail_if, ◌>>◌, ok, Result}

pub find_environment-free :
    (which : Text) (es : Table)
    → find_environment which es ≡ none
    → (find (has_id which) es ≡ none) × (find (has_name which) es ≡ none)
find_environment-free which es h = go (find (has_id which) es) h
  where
    go :
        (o : Option EnvSpec)
        → or_else o (find (has_name which) es) ≡ none
        → (o ≡ none) × (find (has_name which) es ≡ none)
    go none h = (refl, h)
    go (some e) h = cc

module _ (b : Backend) where
  -- To show something of where a chain ends: show it where the step fails and where it goes on.
  pub and_then_inv {ℓ κ} :
      {A : Type ℓ} (P : Host b → Type κ) (e : Error) (r : Host b × Bool)
      (f : Host b → Host b × Result Error A)
      → P r.0
      → P (f r.0).0
      → P (and_then b e r f).0
  and_then_inv P e (h, true) f failed went_on = went_on
  and_then_inv P e (h, false) f failed went_on = failed

  save-environments : (saves : Bool) (h : Host b) → (save b saves h).0.environments ≡ h.environments
  save-environments true h = refl
  save-environments false h = refl

  -- What `check_create` lets pass.
  pub check_create-ok :
      (h : Host b) (name : Text)
      → check_create b h name ≡ ok tt
      → (valid_name name ≡ ok tt) × (find_environment name h.environments ≡ none)
  unfolding check_create
  check_create-ok h name e = go (valid_name name) e
    where
      go :
          (v : Result Error (Unit {0}))
          → (v
              >> (bail_if (is_some (find_environment name h.environments)) (already_here name)
                  >> bail_if
                      (text_eq b.kind (codes "local") && not (no_environments h.environments))
                      local_holds_one))
            ≡ ok tt
          → (v ≡ ok tt) × (find_environment name h.environments ≡ none)
      go (err x) e = cc
      go (ok _) e = ground arith

  abbrev Sound : Host b → Type 0
  Sound h = IsTable h.environments

  abbrev OneOf : Table → Table → Host b → Type 0
  OneOf before after k = (k.environments ≡ before) ⊎ (k.environments ≡ after)

  OneOf-Sound :
      (before after : Table) (k : Host b)
      → OneOf before after k
      → IsTable before
      → IsTable after
      → Sound k
  OneOf-Sound before after k (inl e) s t = rw e s
  OneOf-Sound before after k (inr e) s t = rw e t

  -- Whatever fails, the table is as it was or has the new environment in it.
  finish_create-environments :
      (saves : Bool) (h : Host b) (spec : EnvSpec)
      → OneOf h.environments (insert spec h.environments) (finish_create b saves h spec).0
  unfolding finish_create
  finish_create-environments saves h spec =
      let P = OneOf h.environments (insert spec h.environments) in
      let made = at_world b h (b.create spec h.world) in
      let started = at_world b made.0 (b.start spec made.0.world) in
      let added = record (started.0) { environments = insert spec h.environments } in
      and_then_inv P _ made _ (inl refl) (
        and_then_inv P _ started _ (inl refl) (
          and_then_inv P _ (save b saves added) _ (inr (save-environments saves added))
            (inr (save-environments saves added))))

  create-Sound :
      (saves : Bool) (id workspaces : Text) (h : Host b) (r : Request b)
      → Sound h
      → find (has_id id) h.environments ≡ none
      → Sound (create b saves id workspaces h r).0
  unfolding create
  create-Sound saves id workspaces h r s fresh =
      go (check_create b h r.name) (check_create-ok h r.name)
    where
      spec : EnvSpec
      spec = spec_of b h id workspaces r

      go :
          (c : Result Error (Unit {0}))
          → (c ≡ ok tt
              → (valid_name r.name ≡ ok tt) × (find_environment r.name h.environments ≡ none))
          → Sound (checked b h c (finish_create b saves h spec)).0
      go (err e) passed = s
      go (ok _) passed =
          let (valid, free) = passed refl in
          OneOf-Sound h.environments (insert spec h.environments) (finish_create b saves h spec).0
            (finish_create-environments saves h spec) s
            (insert-IsTable h.environments spec s valid fresh
              (find_environment-free r.name h.environments free).1)

  found_inv {ℓ κ} :
      {A : Type ℓ} (P : Host b → Type κ) (h : Host b) (r : Result Error EnvSpec)
      (f : EnvSpec → Host b × Result Error A)
      → P h
      → ((spec : EnvSpec) → P (f spec).0)
      → P (found b h r f).0
  found_inv P h (err e) f missing went_on = missing
  found_inv P h (ok spec) f missing went_on = went_on spec

  start-Sound : (h : Host b) (which : Text) → Sound h → Sound (start b h which).0
  unfolding start
  start-Sound h which s =
      found_inv Sound h (get (some which) h.environments) _ s
        λ spec. and_then_inv Sound _ (at_world b h (b.start spec h.world)) _ s s

  stop-Sound : (h : Host b) (which : Text) → Sound h → Sound (stop b h which).0
  unfolding stop
  stop-Sound h which s =
      found_inv Sound h (get (some which) h.environments) _ s
        λ spec. and_then_inv Sound _ (at_world b (close b spec h) (b.stop spec h.world)) _ s s

  destroy-Sound :
      (saves : Bool) (h : Host b) (which : Text) → Sound h → Sound (destroy b saves h which).0
  unfolding destroy
  destroy-Sound saves h which s = found_inv Sound h (get (some which) h.environments) _ s λ spec.
      let gone = at_world b (close b spec h) (b.destroy spec h.world) in
      let left = record (gone.0) { environments = remove_id spec.id h.environments } in
      let kept : Sound (save b saves left).0 =
        rw (save-environments saves left) (remove_id-IsTable spec.id h.environments s) in
      and_then_inv Sound _ gone _ s (and_then_inv Sound _ (save b saves left) _ kept kept)

  -- The calls, as steps. An id that `create` draws is one that no environment here has.
  pub data Step (h : Host b) : Host b → Type 0 where
    creates :
        (saves : Bool) (id workspaces : Text) (r : Request b)
        → find (has_id id) h.environments ≡ none
        → Step h (create b saves id workspaces h r).0
    starts : (which : Text) → Step h (start b h which).0
    stops : (which : Text) → Step h (stop b h which).0
    destroys : (saves : Bool) (which : Text) → Step h (destroy b saves h which).0

  pub data Reach (h : Host b) : Host b → Type 0 where
    here : Reach h h
    next : {g k : Host b} → Reach h g → Step g k → Reach h k

  Step-Sound : {h k : Host b} → Step h k → Sound h → Sound k
  Step-Sound {h} (creates saves id workspaces r fresh) s =
      create-Sound saves id workspaces h r s fresh
  Step-Sound {h} (starts which) s = start-Sound h which s
  Step-Sound {h} (stops which) s = stop-Sound h which s
  Step-Sound {h} (destroys saves which) s = destroy-Sound saves h which s

  -- Through any sequence of `create` (drawing ids not in use), `start`, `stop` and `destroy`, each
  -- run to its end before the next, whichever of them the backend or the disk fails: no two
  -- environments share a name or an id, and every name is a DNS label.
  pub Reach-IsTable : {h k : Host b} → Reach h k → IsTable h.environments → IsTable k.environments
  Reach-IsTable here s = s
  Reach-IsTable (next r st) s = Step-Sound st (Reach-IsTable r s)
