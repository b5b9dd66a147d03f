-- ===== src/Keys/Saved.antt =====
-- What another process that opens the file finds.
use devpipe.Prelude.{
  ap, inr, sym, ◌∙◌, [], ltb, inl, Bool-cases, Bool, refl, ◌++◌, ◌-◌, ◌≤◌, ◌∷◌, ℕ, length, true,
  false, Option, List, ◌≡◌, ◌⊎◌, arith,
}
use devpipe.Proto.Messages.{Json}
use devpipe.Store.{Stage, write_private-cases}
use devpipe.Keys.{
  minted, or_not_written, Can, kept, Error, grant, revoke, Key, Keys, open_keys, save,
}
use devpipe.Prelude.Text.{Text}
use devpipe.Prelude.Result.{err, ok, Result}
use devpipe.Prelude.Text.Utf8.{len}

-- The registry that the file holds.
abbrev pub IsSaved : Json (List Key) → Keys → Type 0
IsSaved json ks = (open_keys json ks.disk).keys ≡ ks.keys

length-kept : (prefix : Text) (keys : List Key) → length (kept prefix keys) ≤ length keys
length-kept prefix [] = omega arith
length-kept prefix (k ∷ keys) = ground (arith, length-kept prefix keys)

-- A filter that drops nothing keeps everything.
kept-all :
    (prefix : Text) (keys : List Key)
    → length keys ≤ length (kept prefix keys)
    → kept prefix keys ≡ keys
kept-all prefix [] h = refl
kept-all prefix (k ∷ keys) h = ground (arith, kept-all prefix keys, length-kept prefix keys)

save-keys :
    (json : Json (List Key)) (fails : Option Stage) (ks : Keys)
    → (save json fails ks).0.keys ≡ ks.keys
unfolding save
save-keys json fails ks = refl

module _ (json : Json (List Key)) where
  abbrev OnDisk : List Key → Keys → Type 0
  OnDisk keys ks = (open_keys json ks.disk).keys ≡ keys

  save-OnDisk :
      (fails : Option Stage) (ks : Keys)
      → (((save json fails ks).1 ≡ true) × OnDisk ks.keys (save json fails ks).0)
        ⊎ (((save json fails ks).1 ≡ false)
            × OnDisk (open_keys json ks.disk).keys (save json fails ks).0)
  unfolding save open_keys
  save-OnDisk fails ks = ground (
    arith,
    write_private-cases fails (json.to_vec ks.keys) ks.disk,
    json.from_slice-to_vec ks.keys,
  )

  -- After a call that succeeds the file holds the registry; after one that fails, what it held.
  abbrev pub Settled {ℓ} : {A : Type ℓ} → Keys → Keys × Result Error A → Type 0
  Settled before (ks, ok a) = IsSaved json ks
  Settled before (ks, err e) = OnDisk (open_keys json before.disk).keys ks

  or_not_written-Settled {ℓ} :
      {A : Type ℓ} (fails : Option Stage) (before ks : Keys) (a : A)
      → before.disk ≡ ks.disk
      → Settled before (or_not_written (save json fails ks) a)
  or_not_written-Settled fails before ks a same =
      go (save json fails ks) (save-OnDisk fails ks) (save-keys json fails ks)
    where
      go :
          (r : Keys × Bool)
          → ((r.1 ≡ true) × OnDisk ks.keys r.0)
            ⊎ ((r.1 ≡ false) × OnDisk (open_keys json ks.disk).keys r.0)
          → r.0.keys ≡ ks.keys
          → Settled before (or_not_written r a)
      go (ks', true) (inl (e, h)) k = h ∙ sym k
      go (ks', true) (inr (e, h)) k = cc
      go (ks', false) (inl (e, h)) k = cc
      go (ks', false) (inr (e, h)) k = h ∙ ap (λ d. (open_keys json d).keys) (sym same)

  -- `revoke` on a registry that its file holds: on success the file holds what is left, also where
  -- nothing was left out; where the prefix is refused or the write fails the file is as it was.
  pub revoke-Settled :
      (fails : Option Stage) (ks : Keys) (prefix : Text)
      → IsSaved json ks
      → Settled ks (revoke json fails ks prefix)
  unfolding revoke
  revoke-Settled fails ks prefix h =
      let left = record ks { keys = kept prefix ks.keys } in
      let gone = length ks.keys - length (kept prefix ks.keys) in
      elim (Bool-cases (ltb (len prefix) 6)) [
        | inl short ↦ rw short refl
        | inr long ↦ rw long (elim (Bool-cases (ltb 0 gone)) [
          | inl some_gone ↦ rw some_gone (or_not_written-Settled fails ks left gone refl)
          | inr none_gone ↦
              rw none_gone
                (h ∙ sym (kept-all prefix ks.keys (ground (arith, length-kept prefix ks.keys))))
        ])
      ]

-- `grant` on any registry: on success the file holds the new key with the others, and where the
-- account is empty or the write fails the file is as it was.
pub grant-Settled :
    (digest : Text → List ℕ) (json : Json (List Key)) (fails : Option Stage) (token : Text)
    (ks : Keys) (account : Text) (can : Can) (note : Text)
    → Settled json ks (grant digest json fails token ks account can note)
unfolding grant
grant-Settled digest json fails token ks [] can note = refl
grant-Settled digest json fails token ks (c ∷ account) can note =
    or_not_written-Settled json fails ks
      (record ks { keys = ks.keys ++ minted digest token (c ∷ account) can note ∷ [] }) token refl
