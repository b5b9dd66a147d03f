-- ===== src/Environment/Listing.antt =====
-- What `describe` lists, and what it removes.
use devpipe.Prelude.{
  ◌++◌, Bool-cases, if◌then◌else◌, arith, ◌∷◌, [], List, some, none, Option, ◌||◌, ◌&&◌, not, false,
  true, Bool, inr, inl, ◌∙◌, ap, sym, refl, ◌≡◌, any, retain, is_some,
}
use devpipe.Prelude.Text.{text_eq_refl, text_eq_iff, text_eq, Text}
use devpipe.Keeper.Link.{Detail}
use devpipe.Environment.{
  links, Room, Seen, info_of, describe, sort_sessions, insert_session, one_link, forget, look,
}
use devpipe.Proto.Messages.{SessionInfo}
use devpipe.Keeper.Sockets.{sockets_for, any-congr, any-sockets_for, on_session, session_of}
use devpipe.Backend.{EnvSpec}

-- A socket of this environment whose keeper does not answer.
abbrev pub is_none {ℓ} : {A : Type ℓ} → Option A → Bool
is_none none = true
is_none (some a) = false

abbrev pub is_litter : (Text → Option Detail) → Text → Text → Bool
is_litter asks e name = is_some (session_of e name) && is_none (asks name)

-- A socket of this environment whose keeper answers that this session is running.
abbrev pub runs_as : Text → Option Detail → Bool
runs_as id none = false
runs_as id (some d) = d.running && text_eq d.id id

abbrev pub is_running : (Text → Option Detail) → Text → Text → Text → Bool
is_running asks e id name = is_some (session_of e name) && runs_as id (asks name)

abbrev dead_at : (Text → Option Detail) → Text → Text × Text → Bool
dead_at asks n link = is_none (asks link.1) && text_eq n link.1

retain-retain {ℓ} :
    {A : Type ℓ} (p q : A → Bool) (xs : List A)
    → retain q (retain p xs) ≡ retain (λ x. p x && q x) xs
retain-retain p q [] = refl
retain-retain p q (x ∷ xs) = ground (arith, retain-retain p q xs)

retain-congr {ℓ} :
    {A : Type ℓ} (p q : A → Bool)
    → ((x : A) → p x ≡ q x)
    → (xs : List A) → retain p xs ≡ retain q xs
retain-congr p q h [] = refl
retain-congr p q h (x ∷ xs) = ground (arith, h x, retain-congr p q h xs)

retain_all {ℓ} : {A : Type ℓ} (xs : List A) → retain (λ x. true) xs ≡ xs
retain_all [] = refl
retain_all (x ∷ xs) = ap (◌∷◌ x) (retain_all xs)

-- One link, and then the rest of them.
one_link-sockets :
    (asks : Text → Option Detail) (links : List (Text × Text)) (name : Text) (o : Option Detail)
    (ss : List SessionInfo) (ns : List Text)
    → ((ss : List SessionInfo) (ns : List Text)
        → (look asks links (ss, ns)).1 ≡ retain (λ n. not (any (dead_at asks n) links)) ns)
    → (look asks links (one_link o name (ss, ns))).1
      ≡ retain (λ n. not (is_none o && text_eq n name || any (dead_at asks n) links)) ns
one_link-sockets asks links name none ss ns ih =
    ih ss (forget name ns)
    ∙ retain-retain (λ n. not (text_eq n name)) (λ n. not (any (dead_at asks n) links)) ns
    ∙ retain-congr (λ n. not (text_eq n name) && not (any (dead_at asks n) links))
        (λ n. not (text_eq n name || any (dead_at asks n) links)) (λ n. ground arith) ns
one_link-sockets asks links name (some d) ss ns ih =
    ih (if d.running then ss ++ info_of d ∷ [] else ss) ns

look-sockets :
    (asks : Text → Option Detail) (links : List (Text × Text)) (ss : List SessionInfo)
    (ns : List Text)
    → (look asks links (ss, ns)).1 ≡ retain (λ n. not (any (dead_at asks n) links)) ns
unfolding look
look-sockets asks [] ss ns = sym (retain_all ns)
look-sockets asks ((t, name) ∷ links) ss ns =
    one_link-sockets asks links name (asks name) ss ns (look-sockets asks links)

pub any-append_one {ℓ} :
    {A : Type ℓ} (q : A → Bool) (xs : List A) (x : A) → any q (xs ++ x ∷ []) ≡ (any q xs || q x)
any-append_one q [] x = ground arith
any-append_one q (y ∷ xs) x = ground (arith, any-append_one q xs x)

one_link-sessions :
    (id : Text) (asks : Text → Option Detail) (links : List (Text × Text)) (name : Text)
    (o : Option Detail) (ss : List SessionInfo) (ns : List Text)
    → ((ss : List SessionInfo) (ns : List Text)
        → any (λ s. text_eq s.id id) (look asks links (ss, ns)).0
          ≡ (any (λ s. text_eq s.id id) ss || any (λ l. runs_as id (asks l.1)) links))
    → any (λ s. text_eq s.id id) (look asks links (one_link o name (ss, ns))).0
      ≡ (any (λ s. text_eq s.id id) ss || (runs_as id o || any (λ l. runs_as id (asks l.1)) links))
one_link-sessions id asks links name none ss ns ih = ih ss (forget name ns)
one_link-sessions id asks links name (some d) ss ns ih = elim (Bool-cases d.running) [
  | inl on ↦ rw on (
      ih (ss ++ info_of d ∷ []) ns
      ∙ rw (any-append_one (λ s. text_eq s.id id) ss (info_of d)) (ground arith))
  | inr off ↦ rw off (ih ss ns)
]

look-sessions :
    (id : Text) (asks : Text → Option Detail) (links : List (Text × Text)) (ss : List SessionInfo)
    (ns : List Text)
    → any (λ s. text_eq s.id id) (look asks links (ss, ns)).0
      ≡ (any (λ s. text_eq s.id id) ss || any (λ l. runs_as id (asks l.1)) links)
unfolding look
look-sessions id asks [] ss ns = ground arith
look-sessions id asks ((t, name) ∷ links) ss ns =
    one_link-sessions id asks links name (asks name) ss ns (look-sessions id asks links)

any-insert_session :
    (q : SessionInfo → Bool) (s : SessionInfo) (ss : List SessionInfo)
    → any q (insert_session s ss) ≡ (q s || any q ss)
any-insert_session q s [] = refl
any-insert_session q s (t ∷ ts) = ground (arith, any-insert_session q s ts)

any-sort_sessions :
    (q : SessionInfo → Bool) (ss : List SessionInfo) → any q (sort_sessions ss) ≡ any q ss
any-sort_sessions q [] = refl
any-sort_sessions q (s ∷ ss) =
    any-insert_session q s (sort_sessions ss) ∙ ap (λ (b : Bool). q s || b) (any-sort_sessions q ss)

on_session_guard :
    (p : Text × Text → Bool) (b : Bool) (o : Option Text) (name : Text)
    → ((t : Text) → p (t, name) ≡ b)
    → on_session p o name ≡ (is_some o && b)
on_session_guard p b none name h = refl
on_session_guard p b (some t) name h = h t

-- Which sessions a description lists: exactly those for which the directory has a socket of this
-- environment whose keeper answers, says that its child is running, and names that session.
pub describe-sessions :
    (spec : EnvSpec) (seen : Seen) (room : Room) (id : Text)
    → any (λ s. text_eq s.id id) (describe spec seen room).1.sessions
      ≡ any (is_running seen.asks spec.id id) room.sockets
unfolding describe
describe-sessions spec seen room id =
    any-sort_sessions (λ s. text_eq s.id id) (look seen.asks (links spec room) ([], room.sockets)).0
    ∙ look-sessions id seen.asks (links spec room) [] room.sockets
    ∙ any-sockets_for (λ l. runs_as id (seen.asks l.1)) room.sockets spec.id
    ∙ any-congr (λ n. on_session (λ l. runs_as id (seen.asks l.1)) (session_of spec.id n) n)
        (is_running seen.asks spec.id id)
        (λ n.
          on_session_guard (λ l. runs_as id (seen.asks l.1)) (runs_as id (seen.asks n))
            (session_of spec.id n) n (λ t. refl))
        room.sockets

any_at :
    (q : Text → Bool) (n : Text) (names : List Text)
    → any (λ m. q m && text_eq n m) names ≡ (q n && any (text_eq n) names)
any_at q n [] = ground arith
any_at q n (m ∷ names) = elim (Bool-cases (text_eq n m)) [
  | inl here ↦ let same = (text_eq_iff n m).0 here in ground (arith, any_at q n names, ap q same)
  | inr other ↦ ground (arith, any_at q n names)
]

retain-congr_on :
    (p q : Text → Bool) (names : List Text)
    → ((n : Text) → any (text_eq n) names ≡ true → p n ≡ q n)
    → retain p names ≡ retain q names
retain-congr_on p q [] h = refl
retain-congr_on p q (m ∷ names) h =
    let first = h m (ground (arith, text_eq_refl m)) in
    let rest = retain-congr_on p q names (λ n there. h n (rw there (ground arith))) in
    ground (arith, first, rest)

dead_at-is_litter :
    (asks : Text → Option Detail) (e n : Text) (names : List Text)
    → any (text_eq n) names ≡ true
    → not (any (dead_at asks n) (sockets_for names e)) ≡ not (is_litter asks e n)
dead_at-is_litter asks e n names there = ap not (
    any-sockets_for (dead_at asks n) names e
    ∙ any-congr (λ m. on_session (dead_at asks n) (session_of e m) m)
        (λ m. is_litter asks e m && text_eq n m)
        (λ m.
          on_session_guard (dead_at asks n) (is_none (asks m) && text_eq n m) (session_of e m) m
            (λ t. refl)
          ∙ ground arith)
        names
    ∙ any_at (is_litter asks e) n names
    ∙ rw there (ground arith))

-- What a description removes from the directory: exactly the sockets of this environment behind
-- which no keeper answers. All the others stay, in their order: those of running sessions, of
-- finished ones, and of other environments.
pub describe-sockets :
    (spec : EnvSpec) (seen : Seen) (room : Room)
    → (describe spec seen room).0.sockets
      ≡ retain (λ n. not (is_litter seen.asks spec.id n)) room.sockets
unfolding describe
describe-sockets spec seen room =
    look-sockets seen.asks (links spec room) [] room.sockets
    ∙ retain-congr_on (λ n. not (any (dead_at seen.asks n) (links spec room)))
        (λ n. not (is_litter seen.asks spec.id n)) room.sockets
        (λ n there. dead_at-is_litter seen.asks spec.id n room.sockets there)
