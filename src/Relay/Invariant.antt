-- ===== src/Relay/Invariant.antt =====
-- The relay through any interleaving of its tasks' calls: whose machine a client can be put through
-- to.
use devpipe.Keys
use devpipe.Keys.{enrol, reach}
use devpipe.Prelude.{
  Option, some, subst, All-find, All-retain, and-eq-true, arith, ◌++◌, ◌∷◌, [], List, none, ◌&&◌,
  false, true, Bool, inr, inl, refl, ◌≡◌, ℕ, any-append, All-map, All-append, All, find, any,
  retain, Option-cases, Bool-cases, ◌==◌,
}
use devpipe.Prelude.Text.{text_eq, text_eq_iff, text_eq_refl, Text}
use devpipe.Relay.{
  sign_in_first, unauthorized, refuse, granted, mint_key, reach_machine, list_online, offer,
  enrol_as, new_relay, ToRelay, mint, dialled, Given, greet, signed_in, authorized, has_ticket,
  Refusal, without_ticket, claim, put_through, give_up, introduce, leave, enter, announce, lookup,
  Waiting, owns, hold, Relay, Enrolled,
}
use devpipe.Proto.Messages.{Json}
use devpipe.Keys.{reach, enrol, account_for, Keys, Can, Key}
use devpipe.Prelude.Result.{ok, err, Result}

-- This socket enrolled as that machine, at some time.
abbrev is_entry : Text → Text → ℕ → Enrolled → Bool
is_entry account name control e = owns account name e && e.control == control

abbrev pub EnrolledAs : List Enrolled → Text → Text → ℕ → Type 0
EnrolledAs ever account name control = any (is_entry account name control) ever ≡ true

-- The socket that is asked to dial enrolled as the machine that is waited for, in that account.
abbrev pub Rightful : List Enrolled → Waiting → Type 0
Rightful ever w = EnrolledAs ever w.account w.machine w.dial

abbrev Known : List Enrolled → Enrolled → Type 0
Known ever e = EnrolledAs ever e.account e.name e.control

-- No two machines of one account and name.
abbrev pub OneEach : List Enrolled → Type 0
OneEach [] = Unit
OneEach (e ∷ es) = (lookup e.account e.name es ≡ none) × OneEach es

abbrev pub Sound : Relay → Type 0
Sound r =
    OneEach r.machines
    × All (Known r.ever) r.machines
    × All (Rightful r.ever) r.pending
    × All (λ c. Rightful r.ever c.0) r.claimed
    × All (λ c. Rightful r.ever c.0) r.spliced

pub find-retain {ℓ} :
    {A : Type ℓ} (p q : A → Bool) (xs : List A) → find p xs ≡ none → find p (retain q xs) ≡ none
find-retain p q [] h = refl
find-retain p q (x ∷ xs) h = ground (arith, find-retain p q xs)

OneEach-retain : (p : Enrolled → Bool) (es : List Enrolled) → OneEach es → OneEach (retain p es)
OneEach-retain p [] h = tt
OneEach-retain p (e ∷ es) h = elim (Bool-cases (p e)) [
  | inl same ↦ rw same (find-retain (owns e.account e.name) p es h.0, OneEach-retain p es h.1)
  | inr other ↦ rw other (OneEach-retain p es h.1)
]

lookup-last :
    (es : List Enrolled) (x e : Enrolled)
    → lookup x.account x.name es ≡ none
    → owns e.account e.name x ≡ false
    → lookup x.account x.name (es ++ e ∷ []) ≡ none
lookup-last [] x e h apart = ground (
  arith,
  text_eq_iff x.account e.account,
  text_eq_iff e.account x.account,
  text_eq_iff x.name e.name,
  text_eq_iff e.name x.name,
)
lookup-last (y ∷ es) x e h apart = ground (arith, lookup-last es x e)

OneEach-last :
    (es : List Enrolled) (e : Enrolled)
    → OneEach es
    → lookup e.account e.name es ≡ none
    → OneEach (es ++ e ∷ [])
OneEach-last [] e h free = (refl, tt)
OneEach-last (x ∷ es) e h free = elim (Bool-cases (owns e.account e.name x)) [
  | inl taken ↦ absurd (cc (rw taken at free))
  | inr apart ↦ (lookup-last es x e h.0 apart, OneEach-last es e h.1 (rw apart at free))
]

EnrolledAs-grows :
    (ever : List Enrolled) (e : Enrolled) (account name : Text) (control : ℕ)
    → EnrolledAs ever account name control
    → EnrolledAs (ever ++ e ∷ []) account name control
EnrolledAs-grows ever e account name control h =
    rw (any-append (is_entry account name control) ever (e ∷ []), h) refl

Known-last : (ever : List Enrolled) (e : Enrolled) → Known (ever ++ e ∷ []) e
Known-last ever e = ground (
  arith,
  any-append (is_entry e.account e.name e.control) ever (e ∷ []),
  text_eq_refl e.account,
  text_eq_refl e.name,
)

enter-Sound :
    (e : Enrolled) (r : Relay)
    → Sound r
    → lookup e.account e.name r.machines ≡ none
    → Sound (enter e r)
enter-Sound e r s free = (
  OneEach-last r.machines e s.0 free,
  All-append (Known (r.ever ++ e ∷ [])) r.machines (e ∷ [])
      (All-map (Known r.ever) (Known (r.ever ++ e ∷ []))
        (λ m. EnrolledAs-grows r.ever e m.account m.name m.control) r.machines s.1)
      (Known-last r.ever e, tt),
  All-map (Rightful r.ever) (Rightful (r.ever ++ e ∷ [])) grows r.pending s.2,
  All-map _ (λ c. Rightful (r.ever ++ e ∷ []) c.0) (λ c. grows c.0) r.claimed s.3,
  All-map _ (λ c. Rightful (r.ever ++ e ∷ []) c.0) (λ c. grows c.0) r.spliced s.4,
)
  where
    grows : (w : Waiting) → Rightful r.ever w → Rightful (r.ever ++ e ∷ []) w
    grows w = EnrolledAs-grows r.ever e w.account w.machine w.dial

hold-Sound :
    (sends : Bool) (socket : ℕ) (account name : Text) (r : Relay)
    → Sound r
    → Sound (hold sends socket account name r)
unfolding hold
hold-Sound sends socket account name r s = elim (Option-cases (lookup account name r.machines)) [
  | inl free ↦
      let e : Enrolled = record { account = account; name = name; control = socket } in
      rw (free, hold) (announced sends e (enter e r) (enter-Sound e r s free))
  | inr (e, there) ↦ rw (there, hold) s
]
  where
    announced : (sends : Bool) (e : Enrolled) (r : Relay) → Sound r → Sound (announce sends e r)
    announced true e r s = s
    announced false e r s = s

leave-Sound : (e : Enrolled) (r : Relay) → Sound r → Sound (leave e r)
unfolding leave
leave-Sound e r s =
    (OneEach-retain _ r.machines s.0, All-retain (Known r.ever) _ r.machines s.1, s.2, s.3, s.4)

some-eq : (x e : Enrolled) → some x ≡ some e → x ≡ e
some-eq x e h = cc

lookup-Rightful :
    (ever es : List Enrolled) (account name : Text) (e : Enrolled)
    → All (Known ever) es
    → lookup account name es ≡ some e
    → EnrolledAs ever account name e.control
lookup-Rightful ever [] account name e known h = absurd (ground arith)
lookup-Rightful ever (x ∷ es) account name e known h = elim (Bool-cases (owns account name x)) [
  | inl hit ↦
      let same = some-eq x e (rw hit at h) in
      let both = and-eq-true (text_eq x.account account) (text_eq x.name name) hit in
      let a = (text_eq_iff x.account account).0 both.0 in
      let n = (text_eq_iff x.name name).0 both.1 in
      subst (λ y. EnrolledAs ever account name y.control) same
        (subst (λ y. EnrolledAs ever y name x.control) a
          (subst (λ y. EnrolledAs ever x.account y x.control) n known.0))
  | inr miss ↦ lookup-Rightful ever es account name e known.1 (rw miss at h)
]

introduce-Sound :
    (client : ℕ) (ticket account machine : Text) (r : Relay)
    → Sound r
    → Sound (introduce client ticket account machine r)
unfolding introduce
introduce-Sound client ticket account machine r s =
    elim (Option-cases (lookup account machine r.machines)) [
      | inl free ↦ rw (free, introduce) s
      | inr (e, there) ↦
          rw (there, introduce)
            (
              s.0,
              s.1,
              All-append (Rightful r.ever) (without_ticket ticket r.pending) _
                  (All-retain (Rightful r.ever) _ r.pending s.2)
                  (lookup-Rightful r.ever r.machines account machine e s.1 there, tt),
              s.3,
              s.4,
            )
    ]

give_up-Sound : (why : Text → Refusal) (w : Waiting) (r : Relay) → Sound r → Sound (give_up why w r)
unfolding give_up
give_up-Sound why w r s = (
  s.0,
  s.1,
  All-retain (Rightful r.ever) _ r.pending s.2,
  All-retain (λ c. Rightful r.ever c.0) _ r.claimed s.3,
  s.4,
)

put_through-Sound :
    (sends : Bool) (w : Waiting) (host : ℕ) (r : Relay)
    → Sound r
    → Rightful r.ever w
    → Sound (put_through sends w host r)
unfolding put_through
put_through-Sound true w host r s right = (
  s.0,
  s.1,
  s.2,
  All-retain (λ c. Rightful r.ever c.0) _ r.claimed s.3,
  All-append (λ c. Rightful r.ever c.0) r.spliced ((w, host) ∷ []) s.4 (right, tt),
)
put_through-Sound false w host r s right =
    (s.0, s.1, s.2, All-retain (λ c. Rightful r.ever c.0) _ r.claimed s.3, s.4)

claim-Sound : (socket : ℕ) (ticket : Text) (r : Relay) → Sound r → Sound (claim socket ticket r)
unfolding claim
claim-Sound socket ticket r s = elim (Option-cases (find (has_ticket ticket) r.pending)) [
  | inl none_such ↦ rw (none_such, claim) s
  | inr (w, there) ↦
      rw (there, claim)
        (
          s.0,
          s.1,
          All-retain (Rightful r.ever) _ r.pending s.2,
          All-append (λ c. Rightful r.ever c.0) r.claimed ((w, socket) ∷ []) s.3
              (All-find (Rightful r.ever) (has_ticket ticket) r.pending w s.2 there, tt),
          s.4,
        )
]

module _ (digest : Text → List ℕ) (json : Json (List Key)) where
  -- To show something of what a guard leads to, where a refusal says it to the socket only.
  pub authorized_inv {ℓ} :
      (P : Relay → Type ℓ) (socket : ℕ) (o : Option Text) (f : Text → Relay → Relay) (r : Relay)
      → ((why : Refusal) → P (refuse socket why r))
      → ((account : Text) → P (f account r))
      → P (authorized digest json socket o f r)
  authorized_inv P socket none f r refused went_on = refused unauthorized
  authorized_inv P socket (some account) f r refused went_on = went_on account

  pub signed_in_inv {ℓ} :
      (P : Relay → Type ℓ) (socket : ℕ) (o : Option Text) (f : Text → Relay → Relay) (r : Relay)
      → ((why : Refusal) → P (refuse socket why r))
      → ((account : Text) → P (f account r))
      → P (signed_in digest json socket o f r)
  signed_in_inv P socket none f r refused went_on = refused sign_in_first
  signed_in_inv P socket (some account) f r refused went_on = went_on account

  granted-Sound :
      (socket : ℕ) (account : Text) (can : Can) (r : Relay) (g : Keys × Result Keys.Error Text)
      → Sound r
      → Sound (granted digest json socket account can r g)
  granted-Sound socket account can r (ks, err e) s = s
  granted-Sound socket account can r (ks, ok token) s = s

  greet-Sound :
      (given : Given digest json) (socket : ℕ) (m : ToRelay) (r : Relay)
      → Sound r
      → Sound (greet digest json given socket m r)
  unfolding greet mint
  greet-Sound given socket (enrol_as name token) r s =
      authorized_inv Sound socket (account_for digest r.keys token enrol) _ r (λ why. s)
        λ account. hold-Sound given.sends socket account name r s
  greet-Sound given socket (offer ticket) r s = claim-Sound socket ticket r s
  greet-Sound given socket (list_online token) r s =
      authorized_inv Sound socket (account_for digest r.keys token reach) _ r (λ why. s)
        λ account. s
  greet-Sound given socket (reach_machine token machine) r s =
      authorized_inv Sound socket (account_for digest r.keys token reach) _ r (λ why. s)
        λ account. introduce-Sound socket given.ticket account machine r s
  greet-Sound given socket (mint_key can) r s = elim (Bool-cases given.verifies) [
    | inl on ↦ rw on (
        signed_in_inv Sound socket given.session _ r (λ why. s)
          λ account. granted-Sound socket account can r _ s)
    | inr off ↦ rw off s
  ]

  -- One call of one task. An entry is removed by the `hold` that is in its loop, and only an introduction whose data connection has come is put through.
  pub data Step (r : Relay) : Relay → Type 0 where
    greets :
        (given : Given digest json) (socket : ℕ) (m : ToRelay)
        → Step r (greet digest json given socket m r)
    leaves : (e : Enrolled) → lookup e.account e.name r.holding ≡ some e → Step r (leave e r)
    dials : (w : Waiting) → Step r (dialled w r)
    gives_up : (why : Text → Refusal) (w : Waiting) → Step r (give_up why w r)
    puts_through :
        (sends : Bool) (w : Waiting) (host : ℕ) (ticket : Text)
        → find (λ c. has_ticket ticket c.0) r.claimed ≡ some (w, host)
        → Step r (put_through sends w host r)

  pub data Reach (r : Relay) : Relay → Type 0 where
    here : Reach r r
    next : {g k : Relay} → Reach r g → Step g k → Reach r k

  Step-Sound : {r k : Relay} → Step r k → Sound r → Sound k
  Step-Sound {r} (greets given socket m) s = greet-Sound given socket m r s
  Step-Sound {r} (leaves e held) s = leave-Sound e r s
  Step-Sound {r} (dials w) s = unfold dialled in s
  Step-Sound {r} (gives_up why w) s = give_up-Sound why w r s
  Step-Sound {r} (puts_through sends w host ticket there) s = put_through-Sound sends w host r s (
      All-find (λ c. Rightful r.ever c.0) (λ c. has_ticket ticket c.0) r.claimed (w, host) s.3
        there)

  Reach-Sound : {r k : Relay} → Reach r k → Sound r → Sound k
  Reach-Sound here s = s
  Reach-Sound (next q st) s = Step-Sound st (Reach-Sound q s)

  -- Through any interleaving of the tasks' calls, from a relay that has just started: no account has
  -- two machines of one name, and for every conversation that the relay copies, or is about to, the
  -- socket that was asked to dial had enrolled as the machine that the client asked for, in the
  -- account of the client's introduction.
  pub Reach-Rightful :
      (keys : Keys) (r : Relay)
      → Reach (new_relay keys) r
      → OneEach r.machines
        × All (λ c. Rightful r.ever c.0) r.claimed
        × All (λ c. Rightful r.ever c.0) r.spliced
  Reach-Rightful keys r q = let s = Reach-Sound q (tt, tt, tt, tt, tt) in (s.0, s.3, s.4)
