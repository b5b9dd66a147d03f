-- ===== src/Host/Race.antt =====
-- `create` from its check to its end: what one call leaves, and what two calls leave whose checks
-- both came first. Nothing is held across the awaits between them.
use devpipe.Prelude.{
  subst, sym, arith, inr, ◌⊎◌, ap, ◌++◌, ◌∷◌, [], some, none, false, true, Bool, ◌≢◌, ◌∙◌, refl,
  ◌≡◌, find,
}
use devpipe.Host.{
  has_name, Table, get, create, spec_of, has_id, environment, check_create, Request, at_world,
  sort_by_name, and_then, insert, finish_create, Host, Error, Backend,
}
use devpipe.Backend.{EnvSpec}
use devpipe.Prelude.Result.{ok, Result}
use devpipe.Prelude.Text.{text_eq_iff, text_eq_refl, Text}
use devpipe.Host.Table.{find-append, remove_id_fresh, IsTable}
use devpipe.Host.Invariant.{check_create-ok, find_environment-free}

get-added :
    (which : Text) (es : Table) (spec : EnvSpec)
    → find (has_id which) es ≡ none
    → find (has_name which) es ≡ none
    → (has_id which spec ≡ true) ⊎ (has_name which spec ≡ true)
    → get (some which) (es ++ spec ∷ []) ≡ ok spec
unfolding get
get-added which es spec i n is =
    ground (arith, find-append (has_id which) es spec, find-append (has_name which) es spec)

pub get-added_id :
    (es : Table) (spec : EnvSpec)
    → find (has_id spec.id) es ≡ none
    → get (some spec.id) (es ++ spec ∷ []) ≡ ok spec
unfolding get
get-added_id es spec i = ground (arith, find-append (has_id spec.id) es spec, text_eq_refl spec.id)

IsTable-last :
    (es : Table) (e : EnvSpec) → IsTable (es ++ e ∷ []) → find (has_name e.name) es ≡ none
IsTable-last [] e h = refl
IsTable-last (x ∷ es) e h = ground (
  arith,
  IsTable-last es e h.3,
  find-append (has_name x.name) es e,
  text_eq_iff x.name e.name,
  text_eq_iff e.name x.name,
)

-- A name that the last entry has cannot be the next one's.
not-IsTable-twice :
    (es : Table) (one two : EnvSpec)
    → one.name ≡ two.name
    → ¬ IsTable ((es ++ one ∷ []) ++ two ∷ [])
not-IsTable-twice es one two same h = ground (
  arith,
  IsTable-last (es ++ one ∷ []) two h,
  find-append (has_name two.name) es one,
  text_eq_iff one.name two.name,
)

module _ (b : Backend) where
  pub and_then-ok {ℓ} :
      {A : Type ℓ} (e : Error) (r : Host b × Bool) (f : Host b → Host b × Result Error A)
      → r.1 ≡ true
      → and_then b e r f ≡ f r.0
  and_then-ok e (h, true) f done = refl
  and_then-ok e (h, false) f done = cc

  -- A backend on which making and starting an environment do not fail.
  pub record Works : Type 0 where
    pub creates : (spec : EnvSpec) (w : b.World) → (b.create spec w).1 ≡ true
    pub starts : (spec : EnvSpec) (w : b.World) → (b.start spec w).1 ≡ true

  -- The host after a `finish_create` in which nothing fails.
  unfoldable pub created : Host b → EnvSpec → Host b
  created h spec =
      let table = insert spec h.environments in
      record h {
        environments = table;
        saved = sort_by_name table;
        world = (b.start spec (b.create spec h.world).0).0;
        announced = h.announced ++ environment spec.id ∷ [];
      }

  finish_create-created :
      (h : Host b) (spec : EnvSpec)
      → Works
      → finish_create b true h spec ≡ (created h spec, ok spec)
  unfolding finish_create created
  finish_create-created h spec works =
      let made = at_world b h (b.create spec h.world) in
      let started = at_world b made.0 (b.start spec made.0.world) in
      and_then-ok _ made _ (works.creates spec h.world)
      ∙ and_then-ok _ started _ (works.starts spec made.0.world)

  pub create-created :
      (h : Host b) (id workspaces : Text) (r : Request b)
      → Works
      → check_create b h r.name ≡ ok tt
      → create b true id workspaces h r
        ≡ (created h (spec_of b h id workspaces r), ok (spec_of b h id workspaces r))
  unfolding create
  create-created h id workspaces r works passed =
      rw passed (finish_create-created h (spec_of b h id workspaces r) works)

  pub created-environments :
      (h : Host b) (spec : EnvSpec)
      → find (has_id spec.id) h.environments ≡ none
      → (created h spec).environments ≡ h.environments ++ spec ∷ []
  unfolding created
  created-environments h spec fresh =
      ap (λ t. t ++ spec ∷ []) (remove_id_fresh spec.id h.environments fresh)

  -- Where nothing fails, a `create` of a valid name that finds nothing, on a host that is not the
  -- local backend's, answers with the environment that the request asks for; that environment is
  -- then found by its name and by its id, is in the saved list, and is announced.
  pub create-get :
      (h : Host b) (id workspaces : Text) (r : Request b)
      → Works
      → check_create b h r.name ≡ ok tt
      → find (has_id id) h.environments ≡ none
      → let spec = spec_of b h id workspaces r in
        let after = (create b true id workspaces h r).0 in
        ((create b true id workspaces h r).1 ≡ ok spec)
        × (get (some r.name) after.environments ≡ ok spec)
        × (get (some id) after.environments ≡ ok spec)
        × (after.saved ≡ sort_by_name (h.environments ++ spec ∷ []))
        × (after.announced ≡ h.announced ++ environment id ∷ [])
  create-get h id workspaces r works passed fresh =
      let spec = spec_of b h id workspaces r in
      let whole = create-created h id workspaces r works passed in
      let free =
        find_environment-free r.name h.environments (check_create-ok b h r.name passed).1 in
      let table = remove_id_fresh id h.environments fresh in
      let there = created-environments h spec fresh in
      rw whole (
        refl,
        rw there (get-added r.name h.environments spec free.0 free.1 (inr (text_eq_refl r.name))),
        rw there (get-added_id h.environments spec fresh),
        (unfold created in ap sort_by_name there),
        (unfold created in refl),
      )

  -- Two calls of `create` for one name, both past the check before either has inserted anything,
  -- both succeed, and leave two environments of that name: the table is no longer one.
  pub create_race :
      (h : Host b) (name : Text) (one two : EnvSpec)
      → Works
      → check_create b h name ≡ ok tt
      → one.name ≡ name
      → two.name ≡ name
      → find (has_id one.id) h.environments ≡ none
      → find (has_id two.id) h.environments ≡ none
      → one.id ≢ two.id
      → let first = finish_create b true h one in
        let second = finish_create b true first.0 two in
        (first.1 ≡ ok one) × (second.1 ≡ ok two) × (¬ IsTable second.0.environments)
  create_race h name one two works passed n m i j apart =
      let first = finish_create-created h one works in
      rw first (
        let second = finish_create-created (created h one) two works in
        let there1 = created-environments h one i in
        let fresh2 : find (has_id two.id) (created h one).environments ≡ none = rw there1 (
          ground
            (arith, find-append (has_id two.id) h.environments one, text_eq_iff one.id two.id)) in
        let path =
          ap (λ r. r.0.environments) second
          ∙ created-environments (created h one) two fresh2
          ∙ ap (λ t. t ++ two ∷ []) there1 in
        (
          refl,
          ap (λ r. r.1) second,
          λ sound. not-IsTable-twice h.environments one two (n ∙ sym m) (subst IsTable path sound),
        ))
