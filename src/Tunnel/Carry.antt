-- ===== src/Tunnel/Carry.antt =====
-- What devpipe/src/tunnel.rs runs ssh with, and the wait for a forward to open. How ssh comes out and
-- what each look at it finds are arguments.
use devpipe.Tunnel.{Target}
use devpipe.Prelude.Text.Decimal.{show_u16}
use devpipe.Prelude.Text.Trim.{trim}
use devpipe.Prelude.{
  ◌&&◌, not, arith, map, ◌++◌, ◌∷◌, [], List, some, none, Option, false, true, Bool, inr, inl, refl,
  ◌≡◌, ℕ, any, Bool-cases, if◌then◌else◌,
}
use devpipe.Prelude.Text.{is_empty, codes, Text}
use devpipe.Prelude.Result.{ok, err, Result}

pub data Error : Type 0 where
  not_run unreadable_token empty_token nothing_to_forward : Error
  ssh_exited not_in_time : Error

-- `Target::ssh`
abbrev pub ssh : Target → List Text
ssh t = elim t.port [
  | some port ↦ codes "ssh" ∷ codes "-p" ∷ show_u16 port ∷ []
  | none ↦ codes "ssh" ∷ []
]

abbrev pub token_argv : Target → List Text
token_argv t = ssh t ++ t.host ∷ codes "cat ~/.devpipe/token" ∷ []

-- `Target::token`: whether ssh succeeded, and what it put out, where it could be run.
unfoldable pub token_from : Option (Bool × Text) → Result Error Text
token_from none = err not_run
token_from (some (false, out)) = err unreadable_token
token_from (some (true, out)) = if is_empty (trim out) then err empty_token else ok (trim out)

abbrev pub forward_args : List (ℕ × ℕ) → List Text
forward_args [] = []
forward_args ((here, there) ∷ pairs) =
    codes "-L"
    ∷ (codes "127.0.0.1:" ++ (show_u16 here ++ (codes ":127.0.0.1:" ++ show_u16 there)))
    ∷ forward_args pairs

abbrev pub fixed_args : List Text
fixed_args = map codes (
    "-N" ∷ "-T" ∷ "-e" ∷ "none" ∷ "-o" ∷ "ExitOnForwardFailure=yes" ∷ "-o"
    ∷ "ServerAliveInterval=15" ∷ "-o" ∷ "ServerAliveCountMax=3" ∷ [])

unfoldable pub forwarding_argv : Target → List (ℕ × ℕ) → List Text
forwarding_argv t pairs = ssh t ++ (fixed_args ++ (forward_args pairs ++ t.host ∷ []))

-- One round of the loop: whether the port takes a connection, ssh has ended, and it is late.
pub record Look : Type 0 where
  pub open_now : Bool
  pub has_ended : Bool
  pub is_late : Bool

-- `none` is a loop that still waits.
unfoldable pub wait : ℕ → List Look → Option (Result Error ℕ)
wait ready [] = none
wait ready (look ∷ looks) =
    let more = wait ready looks in
    if look.open_now
    then some (ok ready)
    else if look.has_ended
    then some (err ssh_exited)
    else if look.is_late
    then some (err not_in_time)
    else more

-- `Target::forwarding`: the argv that is run, and what comes of it.
unfoldable pub forwarding :
    Target → List (ℕ × ℕ) → ℕ → Bool → List Look → Option (List Text) × Option (Result Error ℕ)
forwarding t [] ready runs looks = (none, some (err nothing_to_forward))
forwarding t (p ∷ pairs) ready false looks = (none, some (err not_run))
forwarding t (p ∷ pairs) ready true looks = (some (forwarding_argv t (p ∷ pairs)), wait ready looks)

abbrev pub first_port : List (ℕ × ℕ) → ℕ
first_port [] = 0
first_port ((here, there) ∷ pairs) = here

-- `Target::forward_all`
unfoldable pub forward_all :
    Target → List (ℕ × ℕ) → Bool → List Look → Option (List Text) × Option (Result Error ℕ)
forward_all t pairs runs looks = forwarding t pairs (first_port pairs) runs looks

abbrev pub is_ok : Result Error ℕ → Bool
is_ok (ok ready) = true
is_ok (err e) = false

-- The wait is over at the latest with the first look that is late, and it is over well only where some
-- look found the port open.
pub wait_ends :
    (ready : ℕ) (looks : List Look)
    → any (λ l. l.is_late) looks ≡ true
    → (r : Result Error ℕ) × (wait ready looks ≡ some r)
      × (is_ok r && not (any (λ l. l.open_now) looks) ≡ false)
unfolding wait
wait_ends ready [] late = absurd (ground arith)
wait_ends ready (look ∷ looks) late = elim (Bool-cases look.open_now) [
  | inl up ↦ rw up (ok ready, refl, refl)
  | inr down ↦ elim (Bool-cases look.has_ended) [
    | inl over ↦ rw (down, over) (err ssh_exited, refl, refl)
    | inr there ↦ elim (Bool-cases look.is_late) [
      | inl now ↦ rw (down, there, now) (err not_in_time, refl, refl)
      | inr early ↦
          let (r, same, good) = wait_ends ready looks (ground (arith, early, late)) in
          rw (down, there, early) (r, same, good)
    ]
  ]
]
