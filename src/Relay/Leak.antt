-- ===== src/Relay/Leak.antt =====
-- An enrolment whose reply cannot be sent.
use devpipe.Relay.Invariant.{
  signed_in_inv, puts_through, authorized_inv, gives_up, dials, leaves, greets, Step, Reach, here,
  next,
}
use devpipe.Keys
use devpipe.Keys.{Keys, Can, Key, enrol, reach, account_for}
use devpipe.Prelude.{
  is_some, ◌++◌, ◌≢◌, ◌∙◌, ap, find, Option-cases, arith, ◌∷◌, [], List, some, none, ◌&&◌, not,
  false, true, Bool, inr, inl, refl, ◌≡◌, ℕ, retain, Bool-cases, and-eq-true,
}
use devpipe.Prelude.Text.{text_eq_refl, text_eq_iff, text_eq, Text}
use devpipe.Relay.{
  mint_key, reach_machine, put_through, list_online, offer, give_up, enrol_as, dialled, ToRelay,
  granted, Given, mint, greet, already_enrolled, has_ticket, enter, refuse, claim, introduce,
  announce, leave, hold, owns, lookup, Relay, Enrolled,
}
use devpipe.Host.Table.{find-append}
use devpipe.Proto.Messages.{Json}
use devpipe.Prelude.Result.{ok, err, Result}

-- The machine is in the table, and no `hold` is in its loop for it.
abbrev pub Orphan : Text → Text → Relay → Type 0
Orphan account name r =
    (is_some (lookup account name r.machines) ≡ true) × (lookup account name r.holding ≡ none)

apart :
    (a n account name : Text) (es : List Enrolled)
    → is_some (lookup a n es) ≢ is_some (lookup account name es)
    → (text_eq a account && text_eq n name) ≡ false
apart a n account name es differ = elim (Bool-cases (text_eq a account && text_eq n name)) [
  | inl both ↦
      let (same_a, same_n) = and-eq-true (text_eq a account) (text_eq n name) both in
      let p = (text_eq_iff a account).0 same_a in
      let q = (text_eq_iff n name).0 same_n in
      absurd
        (differ (ap (λ a. is_some (lookup a n es)) p ∙ ap (λ n. is_some (lookup account n es)) q))
  | inr other ↦ other
]

lookup-retain :
    (a n account name : Text) (es : List Enrolled)
    → (text_eq a account && text_eq n name) ≡ false
    → lookup account name (retain (λ m. not (owns a n m)) es) ≡ lookup account name es
lookup-retain a n account name [] h = refl
lookup-retain a n account name (e ∷ es) h = ground (
  arith,
  lookup-retain a n account name es,
  text_eq_iff a account,
  text_eq_iff n name,
  text_eq_iff e.account a,
  text_eq_iff e.name n,
  text_eq_iff e.account account,
  text_eq_iff e.name name,
)

-- A table with one more entry, of another name.
lookup_other :
    (account name : Text) (es : List Enrolled) (e : Enrolled)
    → owns account name e ≡ false
    → lookup account name (es ++ e ∷ []) ≡ lookup account name es
lookup_other account name es e other = find-append (owns account name) es e ∙ ground arith

announce-Orphan :
    (sends : Bool) (account name : Text) (e : Enrolled) (r : Relay)
    → owns account name e ≡ false
    → Orphan account name r
    → Orphan account name (announce sends e (enter e r))
announce-Orphan sends account name e r other h =
    ground (arith, lookup_other account name r.machines e, lookup_other account name r.holding e)

hold-Orphan :
    (sends : Bool) (socket : ℕ) (a n account name : Text) (r : Relay)
    → Orphan account name r
    → Orphan account name (hold sends socket a n r)
unfolding hold
hold-Orphan sends socket a n account name r h = elim (Option-cases (lookup a n r.machines)) [
  | inl free ↦
      let e : Enrolled = record { account = a; name = n; control = socket } in
      let other = apart a n account name r.machines (λ same. cc (same, free, h.0)) in
      rw (free, hold) (announce-Orphan sends account name e r other h)
  | inr (e, there) ↦ rw (there, hold) h
]

leave-Orphan :
    (e : Enrolled) (account name : Text) (r : Relay)
    → lookup e.account e.name r.holding ≡ some e
    → Orphan account name r
    → Orphan account name (leave e r)
unfolding leave
leave-Orphan e account name r held h =
    let other = apart e.account e.name account name r.holding (λ same. cc (same, held, h.1)) in
    (
      ap is_some (lookup-retain e.account e.name account name r.machines other) ∙ h.0,
      lookup-retain e.account e.name account name r.holding other ∙ h.1,
    )

introduce-Orphan :
    (client : ℕ) (ticket a machine account name : Text) (r : Relay)
    → Orphan account name r
    → Orphan account name (introduce client ticket a machine r)
unfolding introduce
introduce-Orphan client ticket a machine account name r h =
    elim (Option-cases (lookup a machine r.machines)) [
      | inl free ↦ rw (free, introduce) h
      | inr (e, there) ↦ rw (there, introduce) h
    ]

claim-Orphan :
    (socket : ℕ) (ticket account name : Text) (r : Relay)
    → Orphan account name r
    → Orphan account name (claim socket ticket r)
unfolding claim
claim-Orphan socket ticket account name r h =
    elim (Option-cases (find (has_ticket ticket) r.pending)) [
      | inl free ↦ rw (free, claim) h
      | inr (w, there) ↦ rw (there, claim) h
    ]

hold_refused :
    (sends : Bool) (socket : ℕ) (account name : Text) (r : Relay)
    → is_some (lookup account name r.machines) ≡ true
    → hold sends socket account name r ≡ refuse socket (already_enrolled name) r
unfolding hold
hold_refused sends socket account name r there =
    elim (Option-cases (lookup account name r.machines)) [
      | inl free ↦ absurd (cc (free, there))
      | inr (e, found) ↦ rw (found, hold) refl
    ]

hold_unsent :
    (socket : ℕ) (account name : Text) (r : Relay)
    → lookup account name r.machines ≡ none
    → lookup account name r.holding ≡ none
    → Orphan account name (hold false socket account name r)
unfolding hold
hold_unsent socket account name r free idle =
    rw (free, hold)
      (ground (
        arith,
        find-append (owns account name) r.machines
            (record { account = account; name = name; control = socket }),
        text_eq_refl account,
        text_eq_refl name,
      ))

module _ (digest : Text → List ℕ) (json : Json (List Key)) where
  granted-Orphan :
      (socket : ℕ) (a : Text) (can : Can) (account name : Text) (r : Relay)
      (g : Keys × Result Keys.Error Text)
      → Orphan account name r
      → Orphan account name (granted digest json socket a can r g)
  granted-Orphan socket a can account name r (ks, err e) h = h
  granted-Orphan socket a can account name r (ks, ok token) h = h

  greet-Orphan :
      (given : Given digest json) (socket : ℕ) (m : ToRelay) (account name : Text) (r : Relay)
      → Orphan account name r
      → Orphan account name (greet digest json given socket m r)
  unfolding greet mint
  greet-Orphan given socket (enrol_as n token) account name r h =
      authorized_inv digest json (Orphan account name) socket
        (account_for digest r.keys token enrol) _ r (λ why. h)
        λ a. hold-Orphan given.sends socket a n account name r h
  greet-Orphan given socket (offer ticket) account name r h =
      claim-Orphan socket ticket account name r h
  greet-Orphan given socket (list_online token) account name r h =
      authorized_inv digest json (Orphan account name) socket
        (account_for digest r.keys token reach) _ r (λ why. h) λ a. h
  greet-Orphan given socket (reach_machine token machine) account name r h =
      authorized_inv digest json (Orphan account name) socket
        (account_for digest r.keys token reach) _ r (λ why. h)
        λ a. introduce-Orphan socket given.ticket a machine account name r h
  greet-Orphan given socket (mint_key can) account name r h = elim (Bool-cases given.verifies) [
    | inl on ↦ rw on (
        signed_in_inv digest json (Orphan account name) socket given.session _ r (λ why. h)
          λ a. granted-Orphan socket a can account name r _ h)
    | inr off ↦ rw off h
  ]

  Step-Orphan :
      {r k : Relay} (account name : Text)
      → Step digest json r k
      → Orphan account name r
      → Orphan account name k
  Step-Orphan {r} account name (greets given socket m) h =
      greet-Orphan given socket m account name r h
  Step-Orphan {r} account name (leaves e held) h = leave-Orphan e account name r held h
  Step-Orphan account name (dials w) h = unfold dialled in h
  Step-Orphan account name (gives_up why w) h = unfold give_up in h
  Step-Orphan account name (puts_through true w host ticket there) h = unfold put_through in h
  Step-Orphan account name (puts_through false w host ticket there) h = unfold put_through in h

  Reach-Orphan :
      {r k : Relay} (account name : Text)
      → Reach digest json r k
      → Orphan account name r
      → Orphan account name k
  Reach-Orphan account name here h = h
  Reach-Orphan account name (next q st) h =
      Step-Orphan account name st (Reach-Orphan account name q h)

  -- Where a machine that is not in the table enrols and the reply cannot be sent, the entry is never
  -- removed: whatever happens afterwards, the machine is refused as already enrolled.
  pub enrolment_lost :
      (socket : ℕ) (account name : Text) (r k : Relay)
      → lookup account name r.machines ≡ none
      → lookup account name r.holding ≡ none
      → Reach digest json (hold false socket account name r) k
      → (sends : Bool) (again : ℕ)
      → hold sends again account name k ≡ refuse again (already_enrolled name) k
  enrolment_lost socket account name r k free idle q sends again =
      let orphan = Reach-Orphan account name q (hold_unsent socket account name r free idle) in
      hold_refused sends again account name k orphan.0
