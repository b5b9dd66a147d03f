-- ===== src/Keys/Lookup.antt =====
-- `account_for` and what `grant` and `revoke` do to its answers, whether or not the file is written.
use mathlib.Core.List.{reverse, reverse-cons}
use devpipe.Prelude.{
  length, ◌-◌, ℕ, ◌≤◌, Bool, true, false, ◌&&◌, Option, none, some, List, [], ◌∷◌, ◌++◌, ◌≡◌, ◌≢◌,
  refl, sym, ap, ◌∙◌, arith, ltb, if◌then◌else◌, find, Bool-cases, inl, inr,
}
use devpipe.Prelude.Text.{Text, text_eq, text_eq_iff, starts_with}
use devpipe.Prelude.Text.Utf8.{len}
use devpipe.Proto.Messages.{Json}
use devpipe.Store.{Stage}
use devpipe.Keys.{
  or_not_written, Can, can_eq, Key, Keys, hash_of, opens, account_from, account_for, minted, kept,
  grant, revoke, save,
}

save-keys :
    (json : Json (List Key)) (fails : Option Stage) (ks : Keys)
    → (save json fails ks).0.keys ≡ ks.keys
unfolding save
save-keys json fails ks = refl

or_not_written-keys {ℓ} :
    {A : Type ℓ} (r : Keys × Bool) (a : A) → (or_not_written r a).0.keys ≡ r.0.keys
or_not_written-keys (ks, true) a = refl
or_not_written-keys (ks, false) a = refl

pub revoke-keys :
    (json : Json (List Key)) (fails : Option Stage) (ks : Keys) (prefix : Text)
    → 6 ≤ len prefix
    → (revoke json fails ks prefix).0.keys ≡ kept prefix ks.keys
unfolding revoke
revoke-keys json fails ks prefix h =
    let long : ltb (len prefix) 6 ≡ false = ground arith in
    let gone = length ks.keys - length (kept prefix ks.keys) in
    rw long (elim (Bool-cases (ltb 0 gone)) [
      | inl e ↦ rw e (
          or_not_written-keys (save json fails (record ks { keys = kept prefix ks.keys })) gone
          ∙ save-keys json fails _)
      | inr e ↦ rw e refl
    ])

module _ (digest : Text → List ℕ) where
  account_from-append :
      (found : Option Text) (p : Text) (can : Can) (xs ys : List Key)
      → account_from digest found p can (xs ++ ys)
        ≡ account_from digest (account_from digest found p can xs) p can ys
  unfolding account_from
  account_from-append found p can [] ys = refl
  account_from-append found p can (x ∷ xs) ys =
      account_from-append (if opens digest p can x then some x.account else found) p can xs ys

  abbrev pub or_found : Option Key → Option Text → Option Text
  or_found (some key) found = some key.account
  or_found none found = found

  find-append :
      (p : Text) (can : Can) (xs : List Key) (key : Key) (found : Option Text)
      → or_found (find (opens digest p can) (xs ++ key ∷ [])) found
        ≡ or_found
            (find (opens digest p can) xs)
            (if opens digest p can key then some key.account else found)
  find-append p can [] key found = ground arith
  find-append p can (x ∷ xs) key found = ground (arith, find-append p can xs key found)

  account_from-find :
      (found : Option Text) (p : Text) (can : Can) (keys : List Key)
      → account_from digest found p can keys
        ≡ or_found (find (opens digest p can) (reverse keys)) found
  unfolding account_from
  account_from-find found p can [] = refl
  account_from-find found p can (x ∷ keys) =
      account_from-find (if opens digest p can x then some x.account else found) p can keys
      ∙ sym (find-append p can (reverse keys) x found)
      ∙ ap (λ l. or_found (find (opens digest p can) l) found) (sym (reverse-cons x keys))

  -- A token speaks for the account of the newest key with its hash and that purpose, and for
  -- nobody where there is none.
  pub account_for-find :
      (ks : Keys) (token : Text) (can : Can)
      → account_for digest ks token can
        ≡ or_found (find (opens digest (hash_of digest token) can) (reverse ks.keys)) none
  unfolding account_for
  account_for-find ks token can = account_from-find none (hash_of digest token) can ks.keys

  kept-none :
      (prefix p : Text) (can : Can) (found : Option Text) (keys : List Key)
      → starts_with prefix p ≡ true
      → account_from digest found p can (kept prefix keys) ≡ found
  unfolding account_from
  kept-none prefix p can found [] h = refl
  kept-none prefix p can found (k ∷ keys) h =
      ground (arith, kept-none prefix p can found keys h, text_eq_iff k.hash p)

  kept-same :
      (prefix p : Text) (can : Can) (found : Option Text) (keys : List Key)
      → starts_with prefix p ≡ false
      → account_from digest found p can (kept prefix keys) ≡ account_from digest found p can keys
  unfolding account_from
  kept-same prefix p can found [] h = refl
  kept-same prefix p can found (k ∷ keys) h = ground (
    arith,
    kept-same prefix p can found keys h,
    kept-same prefix p can (some k.account) keys h,
    text_eq_iff k.hash p,
  )

  module _ (json : Json (List Key)) where
    grant-keys :
        (fails : Option Stage) (token : Text) (ks : Keys) (account : Text) (can : Can) (note : Text)
        → account ≢ []
        → (grant digest json fails token ks account can note).0.keys
          ≡ ks.keys ++ minted digest token account can note ∷ []
    unfolding grant
    grant-keys fails token ks [] can note h = absurd (h refl)
    grant-keys fails token ks (c ∷ account) can note h =
        or_not_written-keys
          (save json fails
            (record ks { keys = ks.keys ++ minted digest token (c ∷ account) can note ∷ [] }))
          token
        ∙ save-keys json fails _

    -- A granted token speaks for its account and its purpose at once; every token of another hash,
    -- and every other purpose, speaks for whom it spoke before.
    pub account_for-grant :
        (fails : Option Stage) (token : Text) (ks : Keys) (account : Text) (can : Can) (note : Text)
        → account ≢ []
        → (t : Text) (c : Can)
        → account_for digest (grant digest json fails token ks account can note).0 t c ≡ (
            if text_eq (hash_of digest token) (hash_of digest t) && can_eq can c
            then some account
            else account_for digest ks t c)
    unfolding account_for
    account_for-grant fails token ks account can note h t c =
        rw (grant-keys fails token ks account can note h) (
          account_from-append none (hash_of digest t) c ks.keys
            (minted digest token account can note ∷ [])
          ∙ (unfold account_from in refl))

    -- After `revoke` with a prefix that is long enough, a token whose hash begins with it speaks for
    -- nobody, for either purpose, and every other token speaks for whom it spoke before.
    pub account_for-revoke :
        (fails : Option Stage) (ks : Keys) (prefix : Text)
        → 6 ≤ len prefix
        → (t : Text) (c : Can)
        → account_for digest (revoke json fails ks prefix).0 t c
          ≡ (if starts_with prefix (hash_of digest t) then none else account_for digest ks t c)
    unfolding account_for
    account_for-revoke fails ks prefix h t c =
        rw (revoke-keys json fails ks prefix h)
          (elim (Bool-cases (starts_with prefix (hash_of digest t))) [
            | inl e ↦ rw e (kept-none prefix (hash_of digest t) c none ks.keys e)
            | inr e ↦ rw e (kept-same prefix (hash_of digest t) c none ks.keys e)
          ])
