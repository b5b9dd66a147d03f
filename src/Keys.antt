-- ===== src/Keys.antt =====
-- devpipe/src/keys.rs: the relay's keys, one hash for each token, an account and a purpose.
-- SHA-256 is sha2's and JSON serde's: `digest` and `json` are parameters. The token that `grant`
-- mints is an argument of it, and so is the outcome of each write (Store).
pub mod Lookup
pub mod Saved
pub mod Tests
use devpipe.Prelude.{
  ℕ, ◌+◌, ◌-◌, ◌/◌, ◌%◌, Bool, true, false, not, ◌&&◌, Option, none, some, List, [], ◌∷◌, ◌++◌, ltb,
  ◌==◌, if◌then◌else◌, length, retain,
}
use devpipe.Prelude.Result.{Result, ok, err}
use devpipe.Prelude.Text.{Text, codes, text_eq, starts_with, is_empty}
use devpipe.Prelude.Text.Utf8.{len}
use devpipe.Proto.Messages.{Json}
use devpipe.Store.{Stage, Disk, write_private}

pub data Can : Type 0 where
  enrol reach : Can

abbrev pub can_eq : Can → Can → Bool
can_eq enrol enrol = true
can_eq reach reach = true
can_eq _ _ = false

pub as_str : Can → Text
as_str enrol = codes "enrol"
as_str reach = codes "reach"

pub data Error : Type 0 where
  not_a_purpose : Text → Error
  no_account : Error
  say_more : Text → Error
  not_written : Error

pub can_from_str : Text → Result Error Can
can_from_str s =
    if text_eq s (codes "enrol")
    then ok enrol
    else if text_eq s (codes "enroll")
    then ok enrol
    else if text_eq s (codes "reach")
    then ok reach
    else err (not_a_purpose s)

pub record Key : Type 0 where
  pub hash : Text
  pub account : Text
  pub can : Can
  pub note : Text

-- The registry and the file behind it.
pub record Keys : Type 0 where
  pub keys : List Key
  pub disk : Disk

abbrev hex_digit : ℕ → ℕ
hex_digit n = if ltb n 10 then n + b'0' else n - 10 + b'a'

-- `{b:02x}` of each byte.
abbrev pub hex : List ℕ → Text
hex [] = []
hex (b ∷ bs) = hex_digit (b / 16) ∷ hex_digit (b % 16) ∷ hex bs

abbrev read_keys : Option (List Key) → List Key
read_keys none = []
read_keys (some keys) = keys

abbrev or_not_written {ℓ} : {A : Type ℓ} → Keys × Bool → A → Keys × Result Error A
or_not_written (ks, true) a = (ks, ok a)
or_not_written (ks, false) a = (ks, err not_written)

abbrev pub kept : Text → List Key → List Key
kept prefix = retain (λ k. not (starts_with prefix k.hash))

module _ (json : Json (List Key)) where
  abbrev pub from_file : Option (List ℕ) → List Key
  from_file none = []
  from_file (some bytes) = read_keys (json.from_slice bytes)

  -- A file that is missing or does not parse is no keys.
  unfoldable pub open_keys : Disk → Keys
  open_keys disk = record { keys = from_file disk.file; disk = disk }

  unfoldable pub save : Option Stage → Keys → Keys × Bool
  save fails ks =
      let (disk, written) = write_private fails (json.to_vec ks.keys) ks.disk in
      (record ks { disk = disk }, written)

  unfoldable pub revoke : Option Stage → Keys → Text → Keys × Result Error ℕ
  revoke fails ks prefix =
      let left = record ks { keys = kept prefix ks.keys } in
      let gone = length ks.keys - length (kept prefix ks.keys) in
      if ltb (len prefix) 6
      then (ks, err (say_more prefix))
      else if ltb 0 gone
      then or_not_written (save fails left) gone
      else (left, ok gone)

module _ (digest : Text → List ℕ) where
  abbrev pub hash_of : Text → Text
  hash_of token = hex (digest token)

  -- Does this key answer to that hash for that purpose?
  abbrev pub opens : Text → Can → Key → Bool
  opens presented can key = text_eq key.hash presented && can_eq key.can can

  -- The loop of `account_for`: every key is looked at, and the last that answers is kept.
  unfoldable pub account_from : Option Text → Text → Can → List Key → Option Text
  account_from found presented can [] = found
  account_from found presented can (key ∷ keys) =
      account_from (if opens presented can key then some key.account else found) presented can keys

  unfoldable pub account_for : Keys → Text → Can → Option Text
  account_for ks token can = account_from none (hash_of token) can ks.keys

  abbrev pub minted : Text → Text → Can → Text → Key
  minted token account can note = record {
    hash = hash_of token;
    account = account;
    can = can;
    note = note;
  }

  module _ (json : Json (List Key)) where
    -- The key is pushed before the file is written, and stays where the write fails.
    unfoldable pub grant : Option Stage → Text → Keys → Text → Can → Text → Keys × Result Error Text
    grant fails token ks account can note =
        if is_empty account
        then (ks, err no_account)
        else or_not_written
            (save json fails (record ks { keys = ks.keys ++ minted token account can note ∷ [] }))
            token
