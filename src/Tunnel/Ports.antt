-- ===== src/Tunnel/Ports.antt =====
-- `resolve`: every port asked for, in order, with the host port of its publication.
use devpipe.Prelude.{
  append_assoc, ◌∙◌, All, arith, append-nil, map, ◌++◌, ◌∷◌, [], List, some, none, Option, refl,
  ◌≡◌, ℕ, find,
}
use devpipe.Proto.Messages.{PortMap}
use devpipe.Tunnel.{resolve, not_published, publishes, Asked, resolve_each}
use devpipe.Prelude.Result.{err, ok}

-- The answer to `asked`: each with the outside port of the first publication of its number.
abbrev pub Matches : List PortMap → List Asked → List (Asked × ℕ) → Type 0
Matches published [] [] = Unit
Matches published (want ∷ asked) ((got, outside) ∷ found) =
    (got ≡ want)
    × ((p : PortMap) × (find (publishes want.inside) published ≡ some p) × (p.outside ≡ outside))
    × Matches published asked found
Matches published _ _ = ⊥

resolve_each-Matches :
    (published : List PortMap) (asked : List Asked) (before found : List (Asked × ℕ))
    → resolve_each published before asked ≡ ok found
    → (rest : List (Asked × ℕ)) × (found ≡ before ++ rest) × Matches published asked rest
unfolding resolve_each
resolve_each-Matches published [] before found e = ([], ground (arith, append-nil before), tt)
resolve_each-Matches published (want ∷ asked) before found e =
    go (find (publishes want.inside) published) refl
      (λ b. resolve_each-Matches published asked b found) e
  where
    go :
        (o : Option PortMap)
        → find (publishes want.inside) published ≡ o
        → ((b : List (Asked × ℕ))
            → resolve_each published b asked ≡ ok found
            → (rest : List (Asked × ℕ)) × (found ≡ b ++ rest) × Matches published asked rest)
        → elim o [
          | some mapped ↦ resolve_each published (before ++ (want, mapped.outside) ∷ []) asked
          | none ↦ err (not_published want.inside (map (λ p. p.inside) published))
        ]
          ≡ ok found
        → (rest : List (Asked × ℕ)) × (found ≡ before ++ rest)
          × Matches published (want ∷ asked) rest
    go none h ih e = cc
    go (some p) h ih e =
        let (rest, shape, fits) = ih (before ++ (want, p.outside) ∷ []) e in
        (
          (want, p.outside) ∷ rest,
          shape ∙ append_assoc before ((want, p.outside) ∷ []) rest,
          (refl, (p, h, refl), fits),
        )

-- What `resolve` answers is one pair for each port asked for, in the order asked, with the outside
-- port under which the environment publishes that number first.
pub resolve-Matches :
    (published : List PortMap) (asked : List Asked) (found : List (Asked × ℕ))
    → resolve published asked ≡ ok found
    → Matches published asked found
unfolding resolve
resolve-Matches [] asked found e = cc
resolve-Matches (p ∷ published) asked found e =
    let (rest, shape, fits) = resolve_each-Matches (p ∷ published) asked [] found e in rw shape fits

abbrev pub Published : List PortMap → Asked → Type 0
Published published want = (p : PortMap) × (find (publishes want.inside) published ≡ some p)

resolve_each_total :
    (published : List PortMap) (asked : List Asked) (before : List (Asked × ℕ))
    → All (Published published) asked
    → (found : List (Asked × ℕ)) × (resolve_each published before asked ≡ ok found)
unfolding resolve_each
resolve_each_total published [] before h = (before, refl)
resolve_each_total published (want ∷ asked) before h =
    let (p, e) = h.0 in
    rw (e, resolve_each) (resolve_each_total published asked (before ++ (want, p.outside) ∷ []) h.1)

-- Where the environment publishes something, and every port asked for, `resolve` answers, with one
-- pair for each port asked for, in the order asked.
pub resolve_total :
    (p : PortMap) (published : List PortMap) (asked : List Asked)
    → All (Published (p ∷ published)) asked
    → (found : List (Asked × ℕ)) × (resolve (p ∷ published) asked ≡ ok found)
      × Matches (p ∷ published) asked found
unfolding resolve
resolve_total p published asked h =
    let (found, e) = resolve_each_total (p ∷ published) asked [] h in
    (found, e, resolve-Matches (p ∷ published) asked found e)
