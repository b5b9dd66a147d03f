-- ===== src/Relay/Access.antt =====
-- What a token lets its holder see at the relay (devpipe/src/relay.rs).
use devpipe.Prelude.{map, inr, inl, ap, Option-cases, arith, ◌∷◌, [], List, refl, ◌≡◌, ℕ, retain}
use devpipe.Prelude.Text.{text_eq, Text}
use devpipe.Relay.{sort_texts, lookup, introduce, Relay, Enrolled, online}

abbrev owned : Text → List Enrolled → List Enrolled
owned account = retain (λ e. text_eq e.account account)

lookup-owned :
    (account name : Text) (es : List Enrolled)
    → lookup account name (owned account es) ≡ lookup account name es
lookup-owned account name [] = refl
lookup-owned account name (e ∷ es) = ground (arith, lookup-owned account name es)

owned-owned :
    (account : Text) (es : List Enrolled) → owned account (owned account es) ≡ owned account es
owned-owned account [] = refl
owned-owned account (e ∷ es) = ground (arith, owned-owned account es)

-- What an account is shown as online, and what an introduction answers and awaits, depend on the
-- account's own machines only: whether others have a machine of that name or not makes no difference.
pub others_unseen :
    (client : ℕ) (ticket account machine : Text) (r : Relay)
    → let alone = record r { machines = owned account r.machines } in
      (online account alone.machines ≡ online account r.machines)
      × ((introduce client ticket account machine alone).said
          ≡ (introduce client ticket account machine r).said)
      × ((introduce client ticket account machine alone).pending
          ≡ (introduce client ticket account machine r).pending)
unfolding online introduce
others_unseen client ticket account machine r =
    let same = lookup-owned account machine r.machines in
    let list = ap (λ es. sort_texts (map (λ e. e.name) es)) (owned-owned account r.machines) in
    elim (Option-cases (lookup account machine r.machines)) [
      | inl none_there ↦
          (list, rw (same, none_there, introduce) refl, rw (same, none_there, introduce) refl)
      | inr (e, there) ↦ (list, rw (same, there, introduce) refl, rw (same, there, introduce) refl)
    ]
