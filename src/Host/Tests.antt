-- ===== src/Host/Tests.antt =====
-- The theorems about the host at a backend that counts its calls and never fails.
use Prim.Native.String.{String}
use devpipe.Host.Invariant.{here, next, creates, Reach-IsTable}
use devpipe.Prelude.{◌∷◌, [], none, true, refl, ◌≡◌, suc, ℕ, find}
use devpipe.Host.{
  already_here, has_id, env_names, spec_of, valid_name, finish_create, check_create, create,
  Request, Host, Backend,
}
use devpipe.Host.Race.{Works, create_race}
use devpipe.Host.Table.{IsTable}
use devpipe.Backend.{EnvSpec}
use devpipe.Prelude.Text.{text_eq_iff, codes}
use devpipe.Host.Invariant.{here, next, Reach-IsTable}
use devpipe.Prelude.Result.{err, ok}

abbrev counting : Backend
counting = record {
  World = ℕ;
  kind = codes "docker";
  create = λ spec n. (suc n, true);
  start = λ spec n. (suc n, true);
  stop = λ spec n. (suc n, true);
  destroy = λ spec n. (suc n, true);
}

abbrev counting_works : Works counting
counting_works = record { creates = λ spec n. refl; starts = λ spec n. refl }

abbrev empty : Host counting
empty = record {
  image = codes "ubuntu:24.04";
  memory = none;
  environments = [];
  saved = [];
  world = 0;
  announced = [];
  closed = [];
}

abbrev asks : String → Request counting
asks name = record {
  name = codes name;
  image = none;
  ports = 3000 ∷ [];
  workspace = none;
  memory = none;
}

abbrev two_created : Host counting
two_created =
    (create counting true (codes "b2") (codes "/w")
      (create counting true (codes "a1") (codes "/w") empty (asks "web")).0 (asks "api")).0

names_sorted : env_names two_created.saved ≡ codes "api" ∷ codes "web" ∷ []
unfolding create check_create finish_create valid_name
names_sorted = refl

a_name_taken :
    (create counting true (codes "c3") (codes "/w") two_created (asks "web")).1
    ≡ err (already_here (codes "web"))
unfolding create check_create finish_create valid_name
a_name_taken = refl

fresh_b2 :
    find
      (has_id (codes "b2"))
      (create counting true (codes "a1") (codes "/w") empty (asks "web")).0.environments
    ≡ none
unfolding create check_create finish_create valid_name
fresh_b2 = refl

Reach-IsTable_example : IsTable two_created.environments
Reach-IsTable_example =
    Reach-IsTable counting
      (next (next here (creates true (codes "a1") (codes "/w") (asks "web") refl))
        (creates true (codes "b2") (codes "/w") (asks "api") fresh_b2))
      tt

passes : check_create counting empty (codes "web") ≡ ok tt
unfolding check_create valid_name
passes = refl

abbrev web : String → EnvSpec
web id = spec_of counting empty (codes id) (codes "/w") (asks "web")

create_race_example :
    let first = finish_create counting true empty (web "a1") in
    let second = finish_create counting true first.0 (web "b2") in
    (first.1 ≡ ok (web "a1")) × (second.1 ≡ ok (web "b2")) × (¬ IsTable second.0.environments)
create_race_example =
    create_race counting empty (codes "web") (web "a1") (web "b2") counting_works passes refl refl
      refl refl (λ e. cc ((text_eq_iff (codes "a1") (codes "b2")).1 e))
