-- ===== src/Keeper/Serving/Joined/Shows.antt =====
-- What an attached client has since the last screen that it took (devpipe/src/keeper.rs).
use devpipe.Keeper.Serving.Joined.{
  Client, Join, screened, received, overtaken, subscribes, acts, screens, receives, lags,
}
use devpipe.Session
use devpipe.Session.{Act, Run, Terminal, here, next, replay}
use devpipe.Session.Mirror.{in_hand, painted_in, sent_in, painted, Act-Passes}
use devpipe.Keeper.Serving.{Seen, chunk, lagged}
use devpipe.Prelude.{
  arith, append_assoc, append-nil, map, map-append, ◌++◌, ◌∷◌, [], List, some, false, true, inr,
  inl, ◌⊎◌, ◌∙◌, ap, sym, refl, ◌≡◌, ◌≤◌, suc, zero, ℕ, drop, length, length-append, get_elem?,
}

drop-append_le {ℓ} :
    {A : Type ℓ} (n : ℕ) (xs ys : List A) → n ≤ length xs → drop n (xs ++ ys) ≡ drop n xs ++ ys
drop-append_le zero xs ys h = refl
drop-append_le (suc n) [] ys h = absurd (omega arith)
drop-append_le (suc n) (x ∷ xs) ys h = drop-append_le n xs ys (omega arith)

drop-get {ℓ} :
    {A : Type ℓ} (n : ℕ) (xs : List A) (x : A)
    → get_elem? xs n ≡ some x
    → drop n xs ≡ x ∷ drop (suc n) xs
drop-get n [] x h = absurd (cc)
drop-get zero (y ∷ xs) x h = ground arith
drop-get (suc n) (y ∷ xs) x h = drop-get n xs x h

get-lt_length {ℓ} :
    {A : Type ℓ} (n : ℕ) (xs : List A) (x : A) → get_elem? xs n ≡ some x → suc n ≤ length xs
get-lt_length n [] x h = absurd (cc)
get-lt_length zero (y ∷ xs) x h = omega arith
get-lt_length (suc n) (y ∷ xs) x h = omega (arith, get-lt_length n xs x h)

module _ {T : Type 0} (t : Terminal T) where
  -- Since the last screen, that of `g`, the chunks came; with what waits in the channel and what the
  -- thread has in hand they are what that screen shows already, from `from` on, and all that was painted
  -- since.
  pub record Shows (c : Client T) : Type 0 where
    pub g : Session.Session T
    pub after : Run t g c.session
    pub earlier : List Seen
    pub chunks : List (List ℕ)
    pub from : ℕ
    pub saw : c.got ≡ earlier ++ lagged (replay t g) ∷ map chunk chunks
    pub follows :
        chunks ++ (drop c.place c.session.sent ++ in_hand c.session.pump)
        ≡ (drop from g.sent ++ in_hand g.pump) ++ painted t after

  abbrev pub Holds : Client T → Type 0
  Holds c = (c.place ≤ length c.session.sent) × ((c.due ≡ true) ⊎ Shows c)

  -- What waits, over one act.
  waits-Act :
      (s k : Session.Session T) (a : Act t s k) (n : ℕ)
      → n ≤ length s.sent
      → drop n k.sent ++ in_hand k.pump ≡ (drop n s.sent ++ in_hand s.pump) ++ painted_in t a
  waits-Act s k a n h =
      let (grows, hand) = Act-Passes t a in
      ap (λ x. drop n x ++ in_hand k.pump) grows
      ∙ (ap (λ x. x ++ in_hand k.pump) (drop-append_le n s.sent (sent_in t a) h)
          ∙ (append_assoc (drop n s.sent) (sent_in t a) (in_hand k.pump)
              ∙ (ap (λ x. drop n s.sent ++ x) (sym hand)
                  ∙ sym (append_assoc (drop n s.sent) (in_hand s.pump) (painted_in t a)))))

  acts-Shows :
      (c : Client T) (k : Session.Session T) (a : Act t c.session k)
      → c.place ≤ length c.session.sent
      → Shows c
      → Shows (record c { session = k })
  acts-Shows c k a h w = record {
    g = w.g;
    after = next w.after a;
    earlier = w.earlier;
    chunks = w.chunks;
    from = w.from;
    saw = w.saw;
    follows =
        ap (λ x. w.chunks ++ x) (waits-Act c.session k a c.place h)
        ∙ (sym (append_assoc w.chunks _ (painted_in t a))
            ∙ (ap (λ x. x ++ painted_in t a) w.follows
                ∙ append_assoc (drop w.from w.g.sent ++ in_hand w.g.pump) (painted t w.after)
                    (painted_in t a)));
  }

  screens-Shows : (c : Client T) → Shows (screened t c)
  unfolding screened
  screens-Shows c = record {
    g = c.session;
    after = here;
    earlier = c.got;
    chunks = [];
    from = c.place;
    saw = refl;
    follows = sym (append-nil _);
  }

  receives-Shows :
      (c : Client T) (bytes : List ℕ)
      → get_elem? c.session.sent c.place ≡ some bytes
      → Shows c
      → Shows (received bytes c)
  unfolding received
  receives-Shows c bytes there w = record {
    g = w.g;
    after = w.after;
    earlier = w.earlier;
    chunks = w.chunks ++ bytes ∷ [];
    from = w.from;
    saw =
        ap (λ x. x ++ chunk bytes ∷ []) w.saw
        ∙ (append_assoc w.earlier (lagged (replay t w.g) ∷ map chunk w.chunks) (chunk bytes ∷ [])
            ∙ ap (λ x. w.earlier ++ lagged (replay t w.g) ∷ x)
                (sym (map-append chunk w.chunks (bytes ∷ []))));
    follows =
        append_assoc w.chunks (bytes ∷ []) _
        ∙ (ap (λ x. w.chunks ++ (x ++ in_hand c.session.pump))
              (sym (drop-get c.place c.session.sent bytes there))
            ∙ w.follows);
  }

  acts-Holds :
      (c : Client T) (k : Session.Session T) (a : Act t c.session k)
      → Holds c
      → Holds (record c { session = k })
  acts-Holds c k a (h, shows) = (
    rw (Act-Passes t a).0 (omega (arith, length-append c.session.sent (sent_in t a))),
    elim shows [ inl due ↦ inl due | inr w ↦ inr (acts-Shows c k a h w) ],
  )

  receives-Holds :
      (c : Client T) (bytes : List ℕ)
      → c.due ≡ false
      → get_elem? c.session.sent c.place ≡ some bytes
      → Holds c
      → Holds (received bytes c)
  unfolding received
  receives-Holds c bytes on there (h, shows) = (
    get-lt_length c.place c.session.sent bytes there,
    elim shows [
      | inl due ↦ absurd (cc (on, due))
      | inr w ↦ inr (unfold received in receives-Shows c bytes there w)
    ],
  )

  pub Join-Holds : {s : Session.Session T} {c : Client T} → Join t s c → Holds c
  unfolding screened received overtaken
  Join-Holds {s} subscribes = (omega arith, inl refl)
  Join-Holds (acts {c} {k} j a) = acts-Holds c k a (Join-Holds j)
  Join-Holds (screens {c} j due) = ((Join-Holds j).0, inr (screens-Shows c))
  Join-Holds (receives {c} bytes j on there) = receives-Holds c bytes on there (Join-Holds j)
  Join-Holds (lags {c} oldest j on behind bound) = (bound, inl refl)
