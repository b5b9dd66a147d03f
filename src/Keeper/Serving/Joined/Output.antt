-- ===== src/Keeper/Serving/Joined/Output.antt =====
-- The output of an attached client against what its session paints (devpipe/src/keeper.rs).
use devpipe.Keeper.Serving.Joined.{
  Client, Join, screened, received, overtaken, subscribes, acts, screens, receives, lags, end_by,
}
use devpipe.Keeper.Serving.Joined.Shows.{Join-Holds}
use devpipe.Session
use devpipe.Session.{Act, Run, Terminal, here, next, replay}
use devpipe.Session.Mirror.{in_hand, painted, Run-mirror, resized, feed_all}
use devpipe.Keeper.Serving.{Seen, chunk, lagged, closed, gone, attached, woken}
use devpipe.Keeper.Serving
use devpipe.Keeper.Serving.Attached.{shown, output, attached-output, is_through}
use devpipe.Marker.Chunks.{concat}
use devpipe.Proto.Messages.{PaneEvent, Json}
use devpipe.Prelude.{
  append_assoc, append-nil, map, ◌++◌, ◌∷◌, [], List, false, true, Bool, ◌||◌, or-eq-false, inr,
  inl, ◌⊎◌, ◌∙◌, ap, sym, refl, ◌≡◌, ℕ, Bool-cases, suc, zero, take, drop, if◌then◌else◌,
}

is_through-append : (xs ys : List Seen) → is_through (xs ++ ys) ≡ is_through xs || is_through ys
is_through-append [] ys = refl
is_through-append (chunk bytes ∷ xs) ys = is_through-append xs ys
is_through-append (lagged screen ∷ xs) ys = is_through-append xs ys
is_through-append (woken ∷ xs) ys = is_through-append xs ys
is_through-append (closed ∷ xs) ys = refl
is_through-append (gone ∷ xs) ys = refl

shown-append : (xs ys : List Seen) → is_through xs ≡ false → shown (xs ++ ys) ≡ shown xs ++ shown ys
shown-append [] ys h = refl
shown-append (chunk bytes ∷ xs) ys h =
    ap (λ r. bytes ++ r) (shown-append xs ys h) ∙ sym (append_assoc bytes (shown xs) (shown ys))
shown-append (lagged screen ∷ xs) ys h =
    ap (λ r. screen ++ r) (shown-append xs ys h) ∙ sym (append_assoc screen (shown xs) (shown ys))
shown-append (woken ∷ xs) ys h = shown-append xs ys h
shown-append (closed ∷ xs) ys h = absurd (cc)
shown-append (gone ∷ xs) ys h = absurd (cc)

take-drop {ℓ} : {A : Type ℓ} (n : ℕ) (xs : List A) → take n xs ++ drop n xs ≡ xs
take-drop zero xs = refl
take-drop (suc n) [] = refl
take-drop (suc n) (x ∷ xs) = ap (◌∷◌ x) (take-drop n xs)

shown-chunks : (cs : List (List ℕ)) → shown (map chunk cs) ≡ concat cs
shown-chunks [] = refl
shown-chunks (c ∷ cs) = ap (λ r. c ++ r) (shown-chunks cs)

concat-append : (cs ds : List (List ℕ)) → concat (cs ++ ds) ≡ concat cs ++ concat ds
concat-append [] ds = refl
concat-append (c ∷ cs) ds =
    ap (λ r. c ++ r) (concat-append cs ds) ∙ sym (append_assoc c (concat cs) (concat ds))

shown-end :
    (seen : List Seen) (ends : Bool) (left : List (List ℕ))
    → is_through seen ≡ false
    → shown (seen ++ end_by ends ∷ [])
        ++ (if is_through (seen ++ end_by ends ∷ []) then concat left else [])
      ≡ shown seen ++ concat left
shown-end seen true left h =
    rw (is_through-append seen (closed ∷ []), h, shown-append seen (closed ∷ []) h, append-nil) refl
shown-end seen false left h =
    rw (is_through-append seen (gone ∷ []), h, shown-append seen (gone ∷ []) h, append-nil) refl

module _ {T : Type 0} (t : Terminal T) where
  Join-open : {s : Session.Session T} {c : Client T} → Join t s c → is_through c.got ≡ false
  unfolding screened received overtaken
  Join-open subscribes = refl
  Join-open (acts j a) = Join-open j
  Join-open (screens {c} j due) =
      is_through-append c.got (lagged (replay t c.session) ∷ []) ∙ rw (Join-open j) refl
  Join-open (receives {c} bytes j on there) =
      is_through-append c.got (chunk bytes ∷ []) ∙ rw (Join-open j) refl
  Join-open (lags oldest j on behind bound) = Join-open j

  -- What an attached client gets, whatever the session's callers and its thread do meanwhile, however
  -- often the client falls behind in its loop, and however that ends: `screen` is the one that it took
  -- first, `seen` what its loop saw then, and the next `n` of what is left in the channel come last.
  -- There is a last screen, and a moment of the session that it shows; the output ends with that screen
  -- and the chunks behind it. Those, with what was left in the channel even then and the chunk that the
  -- thread has in hand, are first the end of what had been painted when the screen was taken (it comes
  -- again, because the client subscribes before it takes the screen, or because the channel keeps it)
  -- and then all that has been painted since, in order, with nothing missing in between and nothing
  -- twice; and unless the session was resized since, the mirror is the screen's fed with that.
  pub joined-output :
      {s : Session.Session T} {c : Client T} (json : Json PaneEvent) (described : Serving.Session)
      (screen : List ℕ) (seen : List Seen) (ends alive : Bool) (n : ℕ)
      → Join t s c
      → c.due ≡ false
      → c.got ≡ lagged screen ∷ seen
      → let waits = drop c.place c.session.sent in
        let frames =
          attached json
            (record described { screen = screen })
            (seen ++ end_by ends ∷ [])
            alive
            (take n waits) in
        (g : Session.Session T) × (after : Run t g c.session) × (earlier : List ℕ) × (chunks : List
          (List ℕ))
        × (from : ℕ) × (output frames ≡ earlier ++ (replay t g ++ concat chunks))
        × (chunks ++ (drop n waits ++ in_hand c.session.pump)
            ≡ (drop from g.sent ++ in_hand g.pump) ++ painted t after)
        × ((resized t after ≡ true) ⊎ (c.session.mirror ≡ feed_all t (painted t after) g.mirror))
  joined-output {s} {c} json described screen seen ends alive n j on saw = elim (Join-Holds t j).1 [
    | inl due ↦ absurd (cc (on, due))
    | inr w ↦
        let waits = drop c.place c.session.sent in
        let left = take n waits in
        let open_got : is_through (lagged screen ∷ seen) ≡ false =
          ap is_through (sym saw) ∙ Join-open j in
        let open_earlier : is_through w.earlier ≡ false =
          (or-eq-false (is_through w.earlier) _ (
            sym (is_through-append w.earlier (lagged (replay t w.g) ∷ map chunk w.chunks))
            ∙ (ap is_through (sym w.saw) ∙ Join-open j))).0 in
        let shown_got : screen ++ shown seen
            ≡ shown w.earlier ++ (replay t w.g ++ concat w.chunks) =
          ap shown (sym saw ∙ w.saw)
          ∙ (shown-append w.earlier (lagged (replay t w.g) ∷ map chunk w.chunks) open_earlier
              ∙ ap (λ x. shown w.earlier ++ (replay t w.g ++ x)) (shown-chunks w.chunks)) in
        (
          w.g,
          w.after,
          shown w.earlier,
          w.chunks ++ left,
          w.from,
          attached-output json (record described { screen = screen }) (seen ++ end_by ends ∷ [])
                alive left
              ∙ (ap (λ x. screen ++ x) (shown-end seen ends left open_got)
                  ∙ (sym (append_assoc screen (shown seen) (concat left))
                      ∙ (ap (λ x. x ++ concat left) shown_got
                          ∙ (append_assoc (shown w.earlier) _ (concat left)
                              ∙ ap (λ x. shown w.earlier ++ x)
                                  (append_assoc (replay t w.g) (concat w.chunks) (concat left)
                                    ∙ ap (λ x. replay t w.g ++ x)
                                        (sym (concat-append w.chunks left))))))),
          append_assoc w.chunks left (drop n waits ++ in_hand c.session.pump)
              ∙ (ap (λ x. w.chunks ++ x)
                    (sym (append_assoc left (drop n waits) (in_hand c.session.pump))
                      ∙ ap (λ x. x ++ in_hand c.session.pump) (take-drop n waits))
                  ∙ w.follows),
          elim (Bool-cases (resized t w.after)) [
            | inl moved ↦ inl moved
            | inr still ↦ inr (Run-mirror t w.g c.session w.after still)
          ],
        )
  ]
