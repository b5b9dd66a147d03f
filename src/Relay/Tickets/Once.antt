-- ===== src/Relay/Tickets/Once.antt =====
-- A ticket is good for one introduction, through any interleaving of the calls that the relay's tasks
-- (devpipe/src/relay.rs) make after it was offered.
use devpipe.Relay.Invariant.{
  Step, Reach, greets, leaves, dials, gives_up, puts_through, here, next, authorized_inv,
  signed_in_inv, find-retain,
}
use devpipe.Relay.Tickets.{
  of_ticket, Spent, hold-Spent, claim-Spent, introduce-Spent, unclaimed-Spent, find_hit, find-only,
  retain-last, find-not_retained, of_ticket-unclaimed, without_ticket-find,
}
use devpipe.Keys
use devpipe.Keys.{Keys, Can, Key, enrol, reach, account_for}
use devpipe.Prelude.{
  append-nil, Bool-cases, or-eq-false, ap, ◌∙◌, inl, inr, ◌⊎◌, ◌++◌, ◌∷◌, [], List, some, none,
  ◌||◌, not, true, false, Bool, refl, ◌≡◌, ℕ, find, retain, if◌then◌else◌,
}
use devpipe.Prelude.Text.{text_eq, Text}
use devpipe.Proto.Messages.{Json}
use devpipe.Prelude.Result.{ok, err, Result}
use devpipe.Relay.{
  Relay, Waiting, enrol_as, offer, reach_machine, list_online, mint_key, unclaimed, has_ticket,
  no_such_ticket, refuse, claim, leave, dialled, give_up, put_through, granted, mint, greet,
}

claim_taken :
    (socket : ℕ) (ticket : Text) (r : Relay) (w : Waiting)
    → find (has_ticket ticket) r.pending ≡ some w
    → claim socket ticket r ≡ record r {
      pending = retain (λ v. not (has_ticket ticket v)) r.pending;
      claimed = r.claimed ++ (w, socket) ∷ [];
    }
unfolding claim
claim_taken socket ticket r w there = rw (there, claim) refl

claim_refused :
    (socket : ℕ) (ticket : Text) (r : Relay)
    → find (has_ticket ticket) r.pending ≡ none
    → claim socket ticket r ≡ refuse socket no_such_ticket r
unfolding claim
claim_refused socket ticket r gone = rw (gone, claim) refl

-- A data connection that came for a ticket is spliced at most once.
module _ (ticket : Text) (c : Waiting × ℕ) (before : List (Waiting × ℕ)) where
  put_through-Spent :
      (sends : Bool) (w : Waiting) (host : ℕ) (other : Text) (r : Relay)
      → find (λ d. has_ticket other d.0) r.claimed ≡ some (w, host)
      → Spent ticket c before r
      → Spent ticket c before (put_through sends w host r)
  unfolding put_through
  put_through-Spent false w host other r there (gone, h) =
      (gone, unclaimed-Spent ticket c before w.ticket r.claimed r.spliced h)
  put_through-Spent true w host other r there (gone, h) =
      let spliced = r.spliced ++ (w, host) ∷ [] in
      let one_more : of_ticket ticket spliced
          ≡ of_ticket ticket r.spliced ++ (if text_eq w.ticket ticket then (w, host) ∷ [] else []) =
        retain-last (λ d. has_ticket ticket d.0) r.spliced (w, host) in
      elim (Bool-cases (text_eq w.ticket ticket)) [
        | inr that ↦
            let same : of_ticket ticket spliced ≡ of_ticket ticket r.spliced =
              one_more ∙ rw that (append-nil _) in
            (gone, unclaimed-Spent ticket c before w.ticket r.claimed spliced (rw same h))
        | inl this ↦
            let left : of_ticket ticket (unclaimed w.ticket r.claimed) ≡ [] =
              of_ticket-unclaimed ticket w.ticket r.claimed ∙ rw this refl in
            (
              gone,
              inr (
                left,
                inr (elim h [
                  | inl (was, same) ↦
                      let is_c =
                        find-only (λ d. has_ticket other d.0) (λ d. has_ticket ticket d.0) r.claimed
                          (w, host) c there this was in
                      one_more ∙ rw (this, same) (ap (λ d. before ++ d ∷ []) is_c)
                  | inr (was, _) ↦ absurd (
                      find-not_retained (λ d. has_ticket other d.0) (λ d. has_ticket ticket d.0)
                        r.claimed (w, host) there this was)
                ]),
              ),
            )
      ]

module _ (digest : Text → List ℕ) (json : Json (List Key)) where
  -- The ticket is drawn again, for another introduction.
  abbrev pub drawn_in : {r k : Relay} → Text → Step digest json r k → Bool
  drawn_in ticket (greets given socket (reach_machine token machine)) = text_eq given.ticket ticket
  drawn_in ticket (greets given socket (enrol_as name token)) = false
  drawn_in ticket (greets given socket (offer other)) = false
  drawn_in ticket (greets given socket (list_online token)) = false
  drawn_in ticket (greets given socket (mint_key can)) = false
  drawn_in ticket (leaves e held) = false
  drawn_in ticket (dials w) = false
  drawn_in ticket (gives_up why w) = false
  drawn_in ticket (puts_through sends w host other there) = false

  abbrev pub is_drawn : {r k : Relay} → Text → Reach digest json r k → Bool
  is_drawn ticket here = false
  is_drawn ticket (next q st) = is_drawn ticket q || drawn_in ticket st

  module _ (ticket : Text) (c : Waiting × ℕ) (before : List (Waiting × ℕ)) where
    granted-Spent :
        (socket : ℕ) (a : Text) (can : Can) (r : Relay) (g : Keys × Result Keys.Error Text)
        → Spent ticket c before r
        → Spent ticket c before (granted digest json socket a can r g)
    granted-Spent socket a can r (ks, err e) h = h
    granted-Spent socket a can r (ks, ok token) h = h

    Step-Spent :
        {r k : Relay} (st : Step digest json r k)
        → drawn_in ticket st ≡ false
        → Spent ticket c before r
        → Spent ticket c before k
    unfolding greet mint leave dialled give_up
    Step-Spent {r} (greets given socket (enrol_as n token)) new h =
        authorized_inv digest json (Spent ticket c before) socket
          (account_for digest r.keys token enrol) _ r (λ why. h)
          λ a. hold-Spent ticket c before given.sends socket a n r h
    Step-Spent {r} (greets given socket (offer other)) new h =
        claim-Spent ticket c before socket other r h
    Step-Spent {r} (greets given socket (list_online token)) new h =
        authorized_inv digest json (Spent ticket c before) socket
          (account_for digest r.keys token reach) _ r (λ why. h) λ a. h
    Step-Spent {r} (greets given socket (reach_machine token machine)) new h =
        authorized_inv digest json (Spent ticket c before) socket
          (account_for digest r.keys token reach) _ r (λ why. h)
          λ a. introduce-Spent ticket c before socket given.ticket a machine r new h
    Step-Spent {r} (greets given socket (mint_key can)) new h = elim (Bool-cases given.verifies) [
      | inl on ↦ rw on (
          signed_in_inv digest json (Spent ticket c before) socket given.session _ r (λ why. h)
            λ a. granted-Spent socket a can r _ h)
      | inr off ↦ rw off h
    ]
    Step-Spent {r} (leaves e held) new h = h
    Step-Spent {r} (dials w) new h = h
    Step-Spent {r} (gives_up why w) new (gone, h) = (
      find-retain (has_ticket ticket) (λ v. not (has_ticket w.ticket v)) r.pending gone,
      unclaimed-Spent ticket c before w.ticket r.claimed r.spliced h,
    )
    Step-Spent {r} (puts_through sends w host other there) new h =
        put_through-Spent ticket c before sends w host other r there h

    Reach-Spent :
        {r k : Relay} (q : Reach digest json r k)
        → is_drawn ticket q ≡ false
        → Spent ticket c before r
        → Spent ticket c before k
    Reach-Spent here new h = h
    Reach-Spent (next q st) new h =
        let fresh = or-eq-false (is_drawn ticket q) (drawn_in ticket st) new in
        Step-Spent st fresh.1 (Reach-Spent q fresh.0 h)

  -- Where a ticket is waited for, and no data connection has come for it, the first socket to offer it
  -- is taken for that introduction. Whatever the relay's tasks do afterwards, as long as none draws the
  -- same ticket again: every later offer of it is refused and changes nothing else; nobody but that
  -- first socket is ever in the introduction's channel; and at most one conversation is copied for that
  -- ticket, which is the first socket's.
  pub claim_once :
      (r : Relay) (ticket : Text) (w : Waiting) (first : ℕ) {k : Relay}
      → find (has_ticket ticket) r.pending ≡ some w
      → of_ticket ticket r.claimed ≡ []
      → (q : Reach digest json (claim first ticket r) k) → is_drawn ticket q ≡ false
      → (later : ℕ)
      → ((claim first ticket r).claimed ≡ r.claimed ++ (w, first) ∷ [])
        × (claim later ticket k ≡ refuse later no_such_ticket k)
        × (((of_ticket ticket k.claimed ≡ (w, first) ∷ [])
              × (of_ticket ticket k.spliced ≡ of_ticket ticket r.spliced))
            ⊎ ((of_ticket ticket k.claimed ≡ [])
                × ((of_ticket ticket k.spliced ≡ of_ticket ticket r.spliced)
                    ⊎ (of_ticket ticket k.spliced
                        ≡ of_ticket ticket r.spliced ++ (w, first) ∷ []))))
  claim_once r ticket w first {k} there free q new later =
      let taken = claim_taken first ticket r w there in
      let mine = find_hit (has_ticket ticket) r.pending w there in
      let start : Spent ticket (w, first) (of_ticket ticket r.spliced) (claim first ticket r) =
        rw taken (
          without_ticket-find ticket r.pending,
          inl (
            retain-last (λ d. has_ticket ticket d.0) r.claimed (w, first) ∙ rw (free, mine) refl,
            refl,
          ),
        ) in
      let (gone, h) = Reach-Spent ticket (w, first) (of_ticket ticket r.spliced) q new start in
      (ap (λ after. after.claimed) taken, claim_refused later ticket k gone, h)
