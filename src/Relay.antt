-- ===== src/Relay.antt =====
-- devpipe/src/relay.rs: the relay's end, which machines enrol at and clients are put through by. A
-- socket is a number. A handler that awaits is cut at its awaits into calls that another task's may
-- come between: `hold` and `leave`; `introduce`, `dialled`, `give_up` and `put_through`. What a send
-- comes to, the ticket that is drawn, a minted token and the app's answer about a session are
-- arguments; the copying of bytes (`splice`) is the network's.
pub mod Invariant
pub mod Access
pub mod Leak
pub mod Tickets
pub mod Dialling
mod Tests
use devpipe.Keys
use devpipe.Keys.{Can, enrol, reach, can_eq, Key, Keys, account_for, revoke, grant}
use devpipe.Prelude.{
  map, ◌++◌, ◌∷◌, [], List, some, none, Option, ◌&&◌, not, Bool, ℕ, find, retain, if◌then◌else◌,
}
use devpipe.Prelude.Text.{text_leb, codes, text_eq, Text}
use devpipe.Proto.Messages.{Json}
use devpipe.Store.{Stage}
use devpipe.Prelude.Result.{ok, err, Result}

pub data ToRelay : Type 0 where
  enrol_as : (name token : Text) → ToRelay
  offer : (ticket : Text) → ToRelay
  reach_machine : (token machine : Text) → ToRelay
  list_online : (token : Text) → ToRelay
  mint_key : (can : Can) → ToRelay

pub data Refusal : Type 0 where
  unauthorized no_such_ticket no_minting sign_in_first : Refusal
  already_enrolled : (name : Text) → Refusal
  not_here not_answering not_in_time : (machine : Text) → Refusal

pub data FromRelay : Type 0 where
  enrolled : (name : Text) → FromRelay
  dial : (ticket : Text) → FromRelay
  reaching : (machine : Text) → FromRelay
  online_now : (machines : List Text) → FromRelay
  minted_key : (account : Text) (can : Can) (token : Text) → FromRelay
  error : Refusal → FromRelay

-- An entry of `machines`, with the control socket that its channel leads to.
pub record Enrolled : Type 0 where
  pub account : Text
  pub name : Text
  pub control : ℕ

-- An `introduce` that awaits: its locals, of which `ticket` is the key in `pending`.
pub record Waiting : Type 0 where
  pub ticket : Text
  pub client : ℕ
  pub account : Text
  pub machine : Text
  pub dial : ℕ

pub record Relay : Type 0 where
  pub keys : Keys
  pub machines : List Enrolled
  pub pending : List Waiting
  -- Introductions whose data connection is in the oneshot channel and not yet taken from it.
  pub claimed : List (Waiting × ℕ)
  -- Conversations that the relay copies, or has copied.
  pub spliced : List (Waiting × ℕ)
  -- The entries whose `hold` is in its loop, which removes them when the connection drops.
  pub holding : List Enrolled
  -- What was said to whom, whether or not it arrived.
  pub said : List (ℕ × FromRelay)
  -- Every entry that `machines` has had.
  pub ever : List Enrolled

abbrev pub new_relay : Keys → Relay
new_relay keys = record {
  keys = keys;
  machines = [];
  pending = [];
  claimed = [];
  spliced = [];
  holding = [];
  said = [];
  ever = [];
}

abbrev pub owns : Text → Text → Enrolled → Bool
owns account name e = text_eq e.account account && text_eq e.name name

abbrev pub lookup : Text → Text → List Enrolled → Option Enrolled
lookup account name = find (owns account name)

abbrev pub has_ticket : Text → Waiting → Bool
has_ticket ticket w = text_eq w.ticket ticket

abbrev pub without_ticket : Text → List Waiting → List Waiting
without_ticket ticket = retain (λ w. not (has_ticket ticket w))

abbrev pub unclaimed : Text → List (Waiting × ℕ) → List (Waiting × ℕ)
unclaimed ticket = retain (λ c. not (has_ticket ticket c.0))

abbrev pub say : ℕ → FromRelay → Relay → Relay
say socket message r = record r { said = r.said ++ (socket, message) ∷ [] }

abbrev pub refuse : ℕ → Refusal → Relay → Relay
refuse socket why = say socket (error why)

abbrev pub enter : Enrolled → Relay → Relay
enter e r = record r { machines = r.machines ++ e ∷ []; ever = r.ever ++ e ∷ [] }

abbrev pub announce : Bool → Enrolled → Relay → Relay
announce sends e r =
    if sends
    then record (say e.control (enrolled e.name) r) { holding = r.holding ++ e ∷ [] }
    else r

-- `hold` up to its loop. Where the reply cannot be sent it returns, and the entry stays.
unfoldable pub hold : Bool → ℕ → Text → Text → Relay → Relay
hold sends socket account name r = elim (lookup account name r.machines) [
  | some _ ↦ refuse socket (already_enrolled name) r
  | none ↦
      let e : Enrolled = record { account = account; name = name; control = socket } in
      announce sends e (enter e r)
]

-- The end of `hold`, when the connection drops.
unfoldable pub leave : Enrolled → Relay → Relay
leave e r = record r {
  machines = retain (λ m. not (owns e.account e.name m)) r.machines;
  holding = retain (λ m. not (owns e.account e.name m)) r.holding;
}

-- `introduce` up to its first await.
unfoldable pub introduce : ℕ → Text → Text → Text → Relay → Relay
introduce client ticket account machine r = elim (lookup account machine r.machines) [
  | none ↦ refuse client (not_here machine) r
  | some e ↦
      let w : Waiting = record {
        ticket = ticket;
        client = client;
        account = account;
        machine = machine;
        dial = e.control;
      } in
      record r { pending = without_ticket ticket r.pending ++ w ∷ [] }
]

unfoldable pub dialled : Waiting → Relay → Relay
dialled w = say w.dial (dial w.ticket)

-- The machine's channel is closed (`not_answering`), or nobody came in time (`not_in_time`).
unfoldable pub give_up : (Text → Refusal) → Waiting → Relay → Relay
give_up why w r = refuse w.client (why w.machine) (record r {
  pending = without_ticket w.ticket r.pending;
  claimed = unclaimed w.ticket r.claimed;
})

-- The data connection has come: `Reaching`, and then the two are spliced.
unfoldable pub put_through : Bool → Waiting → ℕ → Relay → Relay
put_through sends w host r =
    let taken = record r { claimed = unclaimed w.ticket r.claimed } in
    if sends
    then record (say w.client (reaching w.machine) taken) { spliced = r.spliced ++ (w, host) ∷ [] }
    else taken

-- `ToRelay::Offer`
unfoldable pub claim : ℕ → Text → Relay → Relay
claim socket ticket r = elim (find (has_ticket ticket) r.pending) [
  | some w ↦ record r {
    pending = without_ticket ticket r.pending;
    claimed = r.claimed ++ (w, socket) ∷ [];
  }
  | none ↦ refuse socket no_such_ticket r
]

abbrev pub insert_text : Text → List Text → List Text
insert_text t [] = t ∷ []
insert_text t (u ∷ us) = if text_leb t u then t ∷ u ∷ us else u ∷ insert_text t us

abbrev pub sort_texts : List Text → List Text
sort_texts [] = []
sort_texts (t ∷ ts) = insert_text t (sort_texts ts)

unfoldable pub online : Text → List Enrolled → List Text
online account machines =
    sort_texts (map (λ e. e.name) (retain (λ e. text_eq e.account account) machines))

module _ (digest : Text → List ℕ) (json : Json (List Key)) where
  abbrev stale : Text → Can → List Key → List Text
  stale account can keys =
      map (λ k. k.hash) (retain (λ k. text_eq k.account account && can_eq k.can can) keys)

  -- `let _ = keys.revoke(&hash)` for each, whatever comes of its write.
  abbrev revoke_all : (Text → Option Stage) → List Text → Keys → Keys
  revoke_all fails [] ks = ks
  revoke_all fails (hash ∷ hashes) ks = revoke_all fails hashes (revoke json (fails hash) ks hash).0

  abbrev granted : ℕ → Text → Can → Relay → Keys × Result Keys.Error Text → Relay
  granted socket account can r (ks, err e) = record r { keys = ks }
  granted socket account can r (ks, ok token) =
      say socket (minted_key account can token) (record r { keys = ks })

  unfoldable pub mint : (Text → Option Stage) → Option Stage → Text → ℕ → Text → Can → Relay → Relay
  mint revoke_fails grant_fails token socket account can r =
      let ks = revoke_all revoke_fails (stale account can r.keys.keys) r.keys in
      granted socket account can r
        (grant digest json grant_fails token ks account can (codes "minted from a session"))

  -- What the world gives one `greet`: whether the relay checks sessions, what the app says of this
  -- one, the ticket and the token that are drawn, whether the reply to an enrolment is sent, and the
  -- writes of the key file.
  pub record Given : Type 0 where
    pub verifies : Bool
    pub session : Option Text
    pub ticket : Text
    pub token : Text
    pub sends : Bool
    pub revoke_fails : Text → Option Stage
    pub grant_fails : Option Stage

  abbrev authorized : ℕ → Option Text → (Text → Relay → Relay) → Relay → Relay
  authorized socket none f r = refuse socket unauthorized r
  authorized socket (some account) f r = f account r

  abbrev signed_in : ℕ → Option Text → (Text → Relay → Relay) → Relay → Relay
  signed_in socket none f r = refuse socket sign_in_first r
  signed_in socket (some account) f r = f account r

  unfoldable pub greet : Given → ℕ → ToRelay → Relay → Relay
  greet given socket (enrol_as name token) r =
      authorized socket (account_for digest r.keys token enrol)
        (λ account. hold given.sends socket account name) r
  greet given socket (offer ticket) r = claim socket ticket r
  greet given socket (list_online token) r =
      authorized socket (account_for digest r.keys token reach)
        (λ account r. say socket (online_now (online account r.machines)) r) r
  greet given socket (mint_key can) r =
      if given.verifies
      then signed_in socket given.session
          (λ account. mint given.revoke_fails given.grant_fails given.token socket account can) r
      else refuse socket no_minting r
  greet given socket (reach_machine token machine) r =
      authorized socket (account_for digest r.keys token reach)
        (λ account. introduce socket given.ticket account machine) r
