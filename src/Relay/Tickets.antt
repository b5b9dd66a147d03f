-- ===== src/Relay/Tickets.antt =====
-- What a ticket of devpipe/src/relay.rs is good for once it was offered: the calls that keep it spent.
pub mod Once
use devpipe.Relay.Invariant.{find-retain}
use devpipe.Host.Table.{find-append}
use devpipe.Prelude.{
  append-nil, Option-cases, Bool-cases, arith, ◌∙◌, inl, inr, ◌⊎◌, ◌++◌, ◌≢◌, ◌∷◌, [], List, some,
  none, Option, not, true, false, Bool, refl, ◌≡◌, ℕ, find, retain, if◌then◌else◌,
}
use devpipe.Prelude.Text.{text_eq, text_eq_iff, Text}
use devpipe.Relay.{
  Relay, Waiting, Enrolled, has_ticket, without_ticket, unclaimed, claim, introduce, lookup, hold,
  announce,
}

-- The introductions of that ticket, each with the data connection that came for it.
abbrev pub of_ticket : Text → List (Waiting × ℕ) → List (Waiting × ℕ)
of_ticket ticket = retain (λ c. has_ticket ticket c.0)

pub without_ticket-find :
    (ticket : Text) (ws : List Waiting) → find (has_ticket ticket) (without_ticket ticket ws) ≡ none
without_ticket-find ticket [] = refl
without_ticket-find ticket (w ∷ ws) = ground (arith, without_ticket-find ticket ws)

pub find_hit {ℓ} :
    {A : Type ℓ} (p : A → Bool) (xs : List A) (x : A) → find p xs ≡ some x → p x ≡ true
find_hit p [] x h = absurd (cc)
find_hit p (y ∷ xs) x h = elim (Bool-cases (p y)) [
  | inl hit ↦ let same : ◌≡◌ {A = Option _} (some y) (some x) = rw hit at h in cc
  | inr miss ↦ find_hit p xs x (rw miss at h)
]

-- Nothing before the one that is found, of another predicate, has it.
find-other {ℓ} :
    {A : Type ℓ} (p q : A → Bool) (xs : List A) (x : A)
    → find p xs ≡ none
    → find q xs ≡ some x
    → p x ≡ false
find-other p q [] x h e = absurd (cc)
find-other p q (y ∷ xs) x h e = ground (arith, find-other p q xs x)

pub retain-last {ℓ} :
    {A : Type ℓ} (p : A → Bool) (xs : List A) (x : A)
    → retain p (xs ++ x ∷ []) ≡ retain p xs ++ (if p x then x ∷ [] else [])
retain-last p [] x = ground arith
retain-last p (y ∷ xs) x = ground (arith, retain-last p xs x)

pub find-not_retained {ℓ} :
    {A : Type ℓ} (p q : A → Bool) (xs : List A) (x : A)
    → find p xs ≡ some x
    → q x ≡ true
    → retain q xs ≢ []
find-not_retained p q [] x e hit gone = cc
find-not_retained p q (y ∷ xs) x e hit gone = ground (arith, find-not_retained p q xs x)

-- The first of what is retained, where only one is.
pub find-only {ℓ} :
    {A : Type ℓ} (p q : A → Bool) (xs : List A) (x d : A)
    → find p xs ≡ some x
    → q x ≡ true
    → retain q xs ≡ d ∷ []
    → x ≡ d
find-only p q [] x d e hit only = absurd (cc)
find-only p q (y ∷ xs) x d e hit only = elim (Bool-cases (p y)) [
  | inl at_y ↦ let same : ◌≡◌ {A = Option _} (some y) (some x) = rw at_y at e in ground arith
  | inr on ↦ elim (Bool-cases (q y)) [
    | inl taken ↦ absurd (find-not_retained p q xs x (rw on at e) hit (ground arith))
    | inr left ↦ find-only p q xs x d (rw on at e) hit (rw left at only)
  ]
]

pub of_ticket-unclaimed :
    (ticket other : Text) (cs : List (Waiting × ℕ))
    → of_ticket ticket (unclaimed other cs)
      ≡ (if text_eq other ticket then [] else of_ticket ticket cs)
of_ticket-unclaimed ticket other [] = ground arith
of_ticket-unclaimed ticket other (c ∷ cs) = ground (
  arith,
  of_ticket-unclaimed ticket other cs,
  text_eq_iff other ticket,
  text_eq_iff c.0.ticket ticket,
  text_eq_iff c.0.ticket other,
)

-- Nobody can offer the ticket; of those who did, `c` alone was taken, and it is put through at most
-- once, behind `before`.
abbrev pub Spent : Text → Waiting × ℕ → List (Waiting × ℕ) → Relay → Type 0
Spent ticket c before r =
    (find (has_ticket ticket) r.pending ≡ none)
    × (((of_ticket ticket r.claimed ≡ c ∷ []) × (of_ticket ticket r.spliced ≡ before))
        ⊎ ((of_ticket ticket r.claimed ≡ [])
            × ((of_ticket ticket r.spliced ≡ before)
                ⊎ (of_ticket ticket r.spliced ≡ before ++ c ∷ []))))

module _ (ticket : Text) (c : Waiting × ℕ) (before : List (Waiting × ℕ)) where
  pub announce-Spent :
      (sends : Bool) (e : Enrolled) (r : Relay)
      → Spent ticket c before r
      → Spent ticket c before (announce sends e r)
  announce-Spent true e r h = h
  announce-Spent false e r h = h

  pub hold-Spent :
      (sends : Bool) (socket : ℕ) (a n : Text) (r : Relay)
      → Spent ticket c before r
      → Spent ticket c before (hold sends socket a n r)
  unfolding hold
  hold-Spent true socket a n r h = elim (Option-cases (lookup a n r.machines)) [
    | inl free ↦ rw (free, hold) h
    | inr (e, there) ↦ rw (there, hold) h
  ]
  hold-Spent false socket a n r h = elim (Option-cases (lookup a n r.machines)) [
    | inl free ↦ rw (free, hold) h
    | inr (e, there) ↦ rw (there, hold) h
  ]

  pub claim-Spent :
      (socket : ℕ) (other : Text) (r : Relay)
      → Spent ticket c before r
      → Spent ticket c before (claim socket other r)
  unfolding claim
  claim-Spent socket other r (gone, h) = elim (Option-cases (find (has_ticket other) r.pending)) [
    | inl free ↦ rw (free, claim) (gone, h)
    | inr (w, there) ↦
        let apart = find-other (has_ticket ticket) (has_ticket other) r.pending w gone there in
        let same : of_ticket ticket (r.claimed ++ (w, socket) ∷ []) ≡ of_ticket ticket r.claimed =
          retain-last (λ c. has_ticket ticket c.0) r.claimed (w, socket)
          ∙ rw apart (append-nil _) in
        rw (there, claim)
          (
            find-retain (has_ticket ticket) (λ w. not (has_ticket other w)) r.pending gone,
            rw same h,
          )
  ]

  pub introduce-Spent :
      (client : ℕ) (drawn a machine : Text) (r : Relay)
      → text_eq drawn ticket ≡ false
      → Spent ticket c before r
      → Spent ticket c before (introduce client drawn a machine r)
  unfolding introduce
  introduce-Spent client drawn a machine r new (gone, h) =
      elim (Option-cases (lookup a machine r.machines)) [
        | inl free ↦ rw (free, introduce) (gone, h)
        | inr (e, there) ↦
            rw (there, introduce)
              ((
                find-append (has_ticket ticket) (without_ticket drawn r.pending) _
                    ∙ rw
                        (
                          find-retain (has_ticket ticket) (λ w. not (has_ticket drawn w)) r.pending
                              gone,
                          new,
                        )
                        refl,
                h,
              ))
      ]

  -- The introduction of that ticket is over, or another's is.
  pub unclaimed-Spent :
      (other : Text) (claimed spliced : List (Waiting × ℕ))
      → let state = λ (cs : List (Waiting × ℕ)).
        ((of_ticket ticket cs ≡ c ∷ []) × (of_ticket ticket spliced ≡ before))
        ⊎ ((of_ticket ticket cs ≡ [])
            × ((of_ticket ticket spliced ≡ before)
                ⊎ (of_ticket ticket spliced ≡ before ++ c ∷ []))) in
        state claimed → state (unclaimed other claimed)
  unclaimed-Spent other claimed spliced h =
      let left = of_ticket-unclaimed ticket other claimed in
      elim (Bool-cases (text_eq other ticket)) [
        | inl this ↦
            let none_left : of_ticket ticket (unclaimed other claimed) ≡ [] = left ∙ rw this refl in
            rw none_left (elim h [
              | inl (was, same) ↦ inr (refl, inl same)
              | inr (was, same) ↦ inr (refl, same)
            ])
        | inr that ↦
            let all_left : of_ticket ticket (unclaimed other claimed) ≡ of_ticket ticket claimed =
              left ∙ rw that refl in
            rw all_left h
      ]
