-- ===== src/Keeper/Sockets.antt =====
-- `socket_path` and `sockets_for` of devpipe/src/keeper.rs: the names of the sockets in the runtime
-- directory, which tell a restarted daemon whose sessions are still there. The listing of the
-- directory is an argument; a path is the name in it.
use devpipe.Prelude.{
  true, Bool-cases, append_assoc, ◌||◌, Bool, ◌≢◌, ◌∙◌, ap, sym, any, arith, ◌++◌, ◌∷◌, [], List,
  some, none, Option, false, inr, inl, refl, ◌≡◌, ◌<◌, ℕ, length-append, length, Option-cases,
  if◌then◌else◌,
}
use devpipe.Prelude.Text.{
  split_once-append, contains, strip_prefix-eq-some, strip_prefix-append, text_eq_iff, text_eq_refl,
  text_leb, strip_prefix, codes, text_eq, Text,
}

-- `str::strip_suffix`
abbrev pub cons_some : ℕ → Option Text → Option Text
cons_some c none = none
cons_some c (some s) = some (c ∷ s)

unfoldable pub strip_suffix : Text → Text → Option Text
strip_suffix suffix [] = if text_eq [] suffix then some [] else none
strip_suffix suffix (c ∷ s) =
    let later = cons_some c (strip_suffix suffix s) in
    if text_eq (c ∷ s) suffix then some [] else later

abbrev pub dot_sock : Text
dot_sock = codes ".sock"

unfoldable pub socket_name : Text → Text → Text
socket_name environment session = environment ++ (b'-' ∷ (session ++ dot_sock))

abbrev pub after_environment : Text → Option Text → Option Text
after_environment environment none = none
after_environment environment (some stem) = strip_prefix (environment ++ b'-' ∷ []) stem

unfoldable pub session_of : Text → Text → Option Text
session_of environment name = after_environment environment (strip_suffix dot_sock name)

abbrev pub insert_found : Text × Text → List (Text × Text) → List (Text × Text)
insert_found f [] = f ∷ []
insert_found f (g ∷ found) = if text_leb f.0 g.0 then f ∷ g ∷ found else g ∷ insert_found f found

abbrev pub add_found : Option Text → Text → List (Text × Text) → List (Text × Text)
add_found none name found = found
add_found (some session) name found = insert_found (session, name) found

-- The sessions, with the names of their sockets, in order.
unfoldable pub sockets_for : List Text → Text → List (Text × Text)
sockets_for [] environment = []
sockets_for (name ∷ names) environment =
    add_found (session_of environment name) name (sockets_for names environment)

strip_suffix_self : (suffix : Text) → strip_suffix suffix suffix ≡ some []
unfolding strip_suffix
strip_suffix_self [] = refl
strip_suffix_self (c ∷ s) = rw (text_eq_refl (c ∷ s)) refl

longer_apart : (a b : Text) → length b < length a → text_eq a b ≡ false
longer_apart [] b h = absurd (omega arith)
longer_apart (c ∷ a) [] h = refl
longer_apart (c ∷ a) (d ∷ b) h = ground (arith, longer_apart a b)

strip_suffix-append : (suffix s : Text) → strip_suffix suffix (s ++ suffix) ≡ some s
unfolding strip_suffix
strip_suffix-append suffix [] = strip_suffix_self suffix
strip_suffix-append suffix (c ∷ s) =
    rw
      (
        longer_apart (c ∷ (s ++ suffix)) suffix (omega (arith, length-append s suffix)),
        strip_suffix-append suffix s,
      )
      refl

strip_suffix-eq-some : (suffix s r : Text) → strip_suffix suffix s ≡ some r → s ≡ r ++ suffix
unfolding strip_suffix
strip_suffix-eq-some suffix [] r h = ground (arith, text_eq_iff [] suffix)
strip_suffix-eq-some suffix (c ∷ s) r h = elim (Option-cases (strip_suffix suffix s)) [
  | inl missing ↦ ground (arith, text_eq_iff (c ∷ s) suffix)
  | inr (q, there) ↦
      ground (arith, text_eq_iff (c ∷ s) suffix, strip_suffix-eq-some suffix s q there)
]

socket_name-append : (e s : Text) → socket_name e s ≡ ((e ++ b'-' ∷ []) ++ s) ++ dot_sock
unfolding socket_name
socket_name-append e s =
    sym (append_assoc e (b'-' ∷ []) (s ++ dot_sock))
    ∙ sym (append_assoc (e ++ b'-' ∷ []) s dot_sock)

pub session_of-socket_name :
    (environment session : Text)
    → session_of environment (socket_name environment session) ≡ some session
unfolding session_of
session_of-socket_name e s =
    rw (socket_name-append e s, strip_suffix-append dot_sock ((e ++ b'-' ∷ []) ++ s))
      (strip_prefix-append (e ++ b'-' ∷ []) s)

pub session_of-eq-some :
    (environment name session : Text)
    → session_of environment name ≡ some session
    → name ≡ socket_name environment session
unfolding session_of
session_of-eq-some e n s h = elim (Option-cases (strip_suffix dot_sock n)) [
  | inl other ↦ absurd (cc (rw other at h))
  | inr (stem, there) ↦
      let p = strip_prefix-eq-some (e ++ b'-' ∷ []) stem s (rw there at h) in
      strip_suffix-eq-some dot_sock n stem there
      ∙ ap (λ t. t ++ dot_sock) p
      ∙ sym (socket_name-append e s)
]

abbrev pub on_session : (Text × Text → Bool) → Option Text → Text → Bool
on_session p none name = false
on_session p (some session) name = p (session, name)

any-insert_found :
    (p : Text × Text → Bool) (f : Text × Text) (found : List (Text × Text))
    → any p (insert_found f found) ≡ (p f || any p found)
any-insert_found p f [] = refl
any-insert_found p f (g ∷ found) = ground (arith, any-insert_found p f found)

any-add_found :
    (p : Text × Text → Bool) (o : Option Text) (name : Text) (found : List (Text × Text))
    → any p (add_found o name found) ≡ (on_session p o name || any p found)
any-add_found p none name found = refl
any-add_found p (some t) name found = any-insert_found p (t, name) found

-- Whatever is asked of the links of an environment can be asked of the directory's names.
pub any-sockets_for :
    (p : Text × Text → Bool) (names : List Text) (e : Text)
    → any p (sockets_for names e) ≡ any (λ n. on_session p (session_of e n) n) names
unfolding sockets_for
any-sockets_for p [] e = refl
any-sockets_for p (n ∷ names) e =
    any-add_found p (session_of e n) n (sockets_for names e)
    ∙ ap (λ (b : Bool). on_session p (session_of e n) n || b) (any-sockets_for p names e)

abbrev pub lists : Text → List (Text × Text) → Bool
lists session = any (λ f. text_eq f.0 session)

abbrev pub present : Text → List Text → Bool
present name = any (λ n. text_eq n name)

socket_name-injective : (e s t : Text) → socket_name e s ≡ socket_name e t → s ≡ t
socket_name-injective e s t h =
    cc (session_of-socket_name e s, session_of-socket_name e t, ap (session_of e) h)

hit_both : (t session : Text) (b : Bool) → b ≡ true → t ≡ session → text_eq t session ≡ b
hit_both t session b hit both = (text_eq_iff t session).1 both ∙ sym hit

same_test :
    (e session name t : Text)
    → name ≡ socket_name e t
    → text_eq t session ≡ text_eq name (socket_name e session)
same_test e session name t h = elim (Bool-cases (text_eq t session)) [
  | inl hit ↦
      let same = (text_eq_iff t session).0 hit in
      hit ∙ sym ((text_eq_iff name (socket_name e session)).1 (h ∙ ap (socket_name e) same))
  | inr miss ↦ elim (Bool-cases (text_eq name (socket_name e session))) [
    | inl hit ↦
        let same = (text_eq_iff name (socket_name e session)).0 hit in
        let both = socket_name-injective e t session (sym h ∙ same) in
        hit_both t session (text_eq name (socket_name e session)) hit both
    | inr other ↦ miss ∙ sym other
  ]
]

on_session-lists :
    (e session name : Text) (o : Option Text)
    → session_of e name ≡ o
    → on_session (λ f. text_eq f.0 session) o name ≡ text_eq name (socket_name e session)
on_session-lists e session name none h = elim (Bool-cases (text_eq name (socket_name e session))) [
  | inl hit ↦
      let same = (text_eq_iff name (socket_name e session)).0 hit in
      absurd (cc (ap (session_of e) same, h, session_of-socket_name e session))
  | inr miss ↦ sym miss
]
on_session-lists e session name (some t) h =
    same_test e session name t (session_of-eq-some e name t h)

pub any-congr {ℓ} :
    {A : Type ℓ} (p q : A → Bool) → ((a : A) → p a ≡ q a) → (xs : List A) → any p xs ≡ any q xs
any-congr p q h [] = refl
any-congr p q h (x ∷ xs) = ground (arith, h x, any-congr p q h xs)

-- A session is listed for an environment exactly where a socket of its name is in the directory.
pub lists-sockets_for :
    (names : List Text) (environment session : Text)
    → lists session (sockets_for names environment)
      ≡ present (socket_name environment session) names
lists-sockets_for names e s =
    any-sockets_for (λ f. text_eq f.0 s) names e
    ∙ any-congr (λ n. on_session (λ f. text_eq f.0 s) (session_of e n) n)
        (λ n. text_eq n (socket_name e s)) (λ n. on_session-lists e s n (session_of e n) refl) names

hyphen_first :
    (mine other session t : Text)
    → contains b'-' mine ≡ false
    → contains b'-' other ≡ false
    → socket_name other session ≡ socket_name mine t
    → mine ≡ other
unfolding socket_name
hyphen_first mine other session t plain_mine plain_other same = cc (
  split_once-append b'-' mine (t ++ dot_sock) plain_mine,
  split_once-append b'-' other (session ++ dot_sock) plain_other,
)

-- Two environments without a hyphen in their ids, which are hexadecimal, have no socket in common:
-- the name of one session's is read as that session by its own environment, and by no other.
pub session_of_apart :
    (mine other session : Text)
    → contains b'-' mine ≡ false
    → contains b'-' other ≡ false
    → mine ≢ other
    → session_of mine (socket_name other session) ≡ none
session_of_apart mine other session plain_mine plain_other apart =
    elim (Option-cases (session_of mine (socket_name other session))) [
      | inl nothing ↦ nothing
      | inr (t, read) ↦
          let same = session_of-eq-some mine (socket_name other session) t read in
          absurd (apart (hyphen_first mine other session t plain_mine plain_other same))
    ]
