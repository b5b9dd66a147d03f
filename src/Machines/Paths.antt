-- ===== src/Machines/Paths.antt =====
-- `Spot::parse`: what is read off the tree can be typed back.
use devpipe.Prelude.{
  arith, ◌++◌, ◌∷◌, [], List, some, none, not, false, ◌≢◌, ◌∙◌, ap, refl, ◌≡◌, All, retain,
}
use devpipe.Prelude.Text.{text_eq_iff, split, is_empty, contains, Text}
use devpipe.Machines.{
  machine_names, say_which_path, find_machine, of_parts, Machine, Machines, parts, parse,
}
use devpipe.Prelude.Result.{err, ok}

-- What a path is made of: words with no slash in them.
abbrev pub IsWord : Text → Type 0
IsWord w = (w ≢ []) × (contains b'/' w ≡ false)

abbrev pub join : List Text → Text
join [] = []
join (w ∷ []) = w
join (w ∷ v ∷ ws) = w ++ b'/' ∷ join (v ∷ ws)

split-word : (w : Text) → contains b'/' w ≡ false → split b'/' w ≡ w ∷ []
split-word [] h = refl
split-word (c ∷ w) h = ground (arith, split-word w)

split-append :
    (w rest : Text) → contains b'/' w ≡ false → split b'/' (w ++ b'/' ∷ rest) ≡ w ∷ split b'/' rest
split-append [] rest h = refl
split-append (c ∷ w) rest h = ground (arith, split-append w rest)

keep_word :
    (w : Text) (ws : List Text)
    → w ≢ []
    → retain (λ p. not (is_empty p)) (w ∷ ws) ≡ w ∷ retain (λ p. not (is_empty p)) ws
keep_word [] ws h = absurd (h refl)
keep_word (c ∷ w) ws h = refl

parts-join : (ws : List Text) → All IsWord ws → parts (join ws) ≡ ws
parts-join [] h = refl
parts-join (w ∷ []) h = rw (split-word w h.0.1) (keep_word w [] h.0.0)
parts-join (w ∷ v ∷ ws) h =
    rw (split-append w (join (v ∷ ws)) h.0.1)
      (keep_word w (split b'/' (join (v ∷ ws))) h.0.0 ∙ ap (◌∷◌ w) (parts-join (v ∷ ws) h.1))

parse-join : (ws : List Text) (ms : Machines) → All IsWord ws → parse (join ws) ms ≡ of_parts ws ms
unfolding parse
parse-join ws ms h = ap (λ ps. of_parts ps ms) (parts-join ws h)

-- Each path that the tree prints means what it was printed for: a registered machine, an
-- environment on a machine, a session in it. (That the machine of the longer ones is registered is
-- `Spot::machine`'s to say.)
pub parse_printed :
    (m e s : Text) (ms : Machines) {x : Machine}
    → IsWord m
    → IsWord e
    → IsWord s
    → find_machine m ms ≡ some x
    → (parse m ms ≡ ok (record { machine = some m; environment = none; session = none }))
      × (parse (m ++ b'/' ∷ e) ms
          ≡ ok (record { machine = some m; environment = some e; session = none }))
      × (parse (m ++ b'/' ∷ (e ++ b'/' ∷ s)) ms
          ≡ ok (record { machine = some m; environment = some e; session = some s }))
parse_printed m e s ms hm he hs found = (
  parse-join (m ∷ []) ms (hm, tt) ∙ (unfold of_parts in rw found refl),
  parse-join (m ∷ e ∷ []) ms (hm, (he, tt)) ∙ (unfold of_parts in refl),
  parse-join (m ∷ e ∷ s ∷ []) ms (hm, (he, (hs, tt))) ∙ (unfold of_parts in refl),
)

-- A bare word that names no machine, where there are several, is refused with the names of all of
-- them, and the path made of a name and the word is then understood.
pub parse_ambiguous :
    (word n : Text) (a b : Machine) (ms : Machines)
    → IsWord word
    → IsWord n
    → find_machine word (a ∷ b ∷ ms) ≡ none
    → (parse word (a ∷ b ∷ ms) ≡ err (say_which_path word (machine_names (a ∷ b ∷ ms))))
      × (parse (n ++ b'/' ∷ word) (a ∷ b ∷ ms)
          ≡ ok (record { machine = some n; environment = some word; session = none }))
parse_ambiguous word n a b ms h hn missing = (
  parse-join (word ∷ []) (a ∷ b ∷ ms) (h, tt) ∙ (unfold of_parts in rw missing refl),
  parse-join (n ∷ word ∷ []) (a ∷ b ∷ ms) (hn, (h, tt)) ∙ (unfold of_parts in refl),
)

-- With one machine a bare word that is not its name is an environment on it.
pub parse_only :
    (word : Text) (only : Machine)
    → IsWord word
    → only.name ≢ word
    → parse word (only ∷ [])
      ≡ ok (record { machine = some only.name; environment = some word; session = none })
parse_only word only h other =
    parse-join (word ∷ []) (only ∷ []) (h, tt)
    ∙ (unfold of_parts in ground (arith, text_eq_iff only.name word))
