-- ===== src/Keys/Tests.antt =====
-- A concrete digest and a concrete serialisation, and the theorems about keys at an example.
use devpipe.Prelude.{Option, ℕ, zero, suc, List, [], ◌∷◌, ◌≡◌, refl, ap, ◌∙◌, none, some, arith}
use devpipe.Prelude.Text.{Text, codes}
use devpipe.Proto.Messages.{Json}
use devpipe.Store.{Disk}
use devpipe.Keys.{open_keys, revoke, account_for, Can, enrol, reach, Key, Keys}
use devpipe.Keys.Saved.{IsSaved}
use devpipe.Keys.Lookup.{account_for-revoke}

-- Texts one after another, each character raised by one and each text ended by a zero.
unfoldable pub write_text : Text → List ℕ → List ℕ
write_text [] rest = 0 ∷ rest
write_text (c ∷ t) rest = suc c ∷ write_text t rest

unfoldable pub write_texts : List Text → List ℕ
unfolding write_text
write_texts [] = []
write_texts (t ∷ ts) = write_text t (write_texts ts)

push_char : ℕ → List Text → List Text
push_char c [] = (c ∷ []) ∷ []
push_char c (t ∷ ts) = (c ∷ t) ∷ ts

unfoldable pub read_texts : List ℕ → List Text
unfolding push_char
read_texts [] = []
read_texts (zero ∷ bytes) = [] ∷ read_texts bytes
read_texts (suc c ∷ bytes) = push_char c (read_texts bytes)

read-write_text : (t : Text) (rest : List ℕ) → read_texts (write_text t rest) ≡ t ∷ read_texts rest
unfolding read_texts write_text
read-write_text [] rest = refl
read-write_text (c ∷ t) rest = ap (push_char c) (read-write_text t rest)

unfoldable pub maybe : Option Text → Text
maybe none = []
maybe (some t) = 0 ∷ t

unfoldable pub text_maybe : Text → Option Text
text_maybe [] = none
text_maybe (_ ∷ t) = some t

pub text_maybe-maybe : (o : Option Text) → text_maybe (maybe o) ≡ o
unfolding text_maybe maybe
text_maybe-maybe none = refl
text_maybe-maybe (some t) = refl

can_text : Can → Text
can_text enrol = []
can_text reach = 1 ∷ []

text_can : Text → Can
text_can [] = enrol
text_can (_ ∷ _) = reach

pub key_texts : List Key → List Text
unfolding can_text
key_texts [] = []
key_texts (k ∷ ks) = k.hash ∷ k.account ∷ can_text k.can ∷ k.note ∷ key_texts ks

pub texts_key : List Text → List Key
unfolding text_can
texts_key (h ∷ a ∷ c ∷ n ∷ ts) =
    record { hash = h; account = a; can = text_can c; note = n } ∷ texts_key ts
texts_key _ = []

text_can-can_text : (c : Can) → text_can (can_text c) ≡ c
unfolding text_can can_text
text_can-can_text enrol = refl
text_can-can_text reach = refl

texts_key-key_texts : (ks : List Key) → texts_key (key_texts ks) ≡ ks
unfolding texts_key key_texts
texts_key-key_texts [] = refl
texts_key-key_texts (k ∷ ks) = ground (arith, texts_key-key_texts ks, text_can-can_text k.can)

pub read-write_texts : (ts : List Text) → read_texts (write_texts ts) ≡ ts
unfolding write_texts
read-write_texts [] = unfold read_texts in refl
read-write_texts (t ∷ ts) = read-write_text t (write_texts ts) ∙ ap (◌∷◌ t) (read-write_texts ts)

pub key_json-law :
    (ks : List Key) → some (texts_key (read_texts (write_texts (key_texts ks)))) ≡ some ks
key_json-law ks = ap some (ap texts_key (read-write_texts (key_texts ks)) ∙ texts_key-key_texts ks)

abbrev pub key_json : Json (List Key)
key_json = record {
  to_vec = λ ks. write_texts (key_texts ks);
  from_slice = λ bytes. some (texts_key (read_texts bytes));
  from_slice-to_vec = key_json-law;
}

abbrev pub digest : Text → List ℕ
digest token = token

abbrev pub empty_disk : Disk
empty_disk = record { file = none; scratch = none }

-- `hex` of the token "box-a".
abbrev box_key : Key
box_key = record {
  hash = codes "626f782d61";
  account = codes "wess";
  can = enrol;
  note = codes "box";
}

abbrev one_key : Keys
one_key = record { keys = box_key ∷ []; disk = empty_disk }

account_for-revoke_example :
    account_for digest (revoke key_json none one_key (codes "626f78")).0 (codes "box-a") enrol
    ≡ none
account_for-revoke_example =
    account_for-revoke digest key_json none one_key (codes "626f78") (omega arith) (codes "box-a")
      enrol

abbrev saved_key : Keys
saved_key = record one_key {
  disk = record { file = some (write_texts (key_texts (box_key ∷ []))); scratch = none };
}

saved_key-IsSaved : IsSaved key_json saved_key
unfolding open_keys
saved_key-IsSaved =
    ap texts_key (read-write_texts (key_texts (box_key ∷ []))) ∙ texts_key-key_texts (box_key ∷ [])
