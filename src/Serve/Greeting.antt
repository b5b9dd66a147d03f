-- ===== src/Serve/Greeting.antt =====
-- What a client can do that has not greeted as it should.
use devpipe.Proto
use devpipe.Proto.{version, decode, Frame}
use devpipe.Serve.{
  want_hello, version_mismatch, other_version, unauthorized, not_a_frame, expected_hello,
  not_authorized, broken, closed_before_hello, refuse, Handled, Stop, Conn, Given, Why, Facts,
  other, closing, broken_off, binary, Incoming,
}
use devpipe.Proto.Messages.{FromClient, FromServer, Json, hello, error}
use devpipe.Host.{Backend}
use devpipe.Prelude.{
  arith, append-nil, ◌++◌, ◌∷◌, [], List, some, none, Option, ◌&&◌, false, true, Bool, inr, inl,
  refl, ◌≡◌, Bool-cases, ◌==◌,
}
use devpipe.Backend.{Entry, EnvSpec}
use devpipe.Prelude.Text.{Text, text_eq}
use devpipe.Prelude.Result.{ok, err, Result}
use devpipe.Serve.Talk.{talk_on, greeted_by, greeted, authorized, talk}
use devpipe.Proto.Control.{json_of}

abbrev pub is_greeting : Facts → Option FromClient → Bool
is_greeting facts (some (hello v token client)) = v == version && text_eq facts.token token
is_greeting facts _ = false

abbrev pub greets_with : Facts → Json FromClient → Result Proto.Error Frame → Bool
greets_with facts json (err e) = false
greets_with facts json (ok frame) = is_greeting facts (json_of json frame)

-- Whether the first frame of the client is a `Hello` of this version, with the host's token.
abbrev pub greets : Facts → Json FromClient → List (Given × Incoming) → Bool
greets facts json [] = false
greets facts json ((g, other) ∷ rest) = greets facts json rest
greets facts json ((g, binary bytes) ∷ rest) = greets_with facts json (decode bytes)
greets facts json ((g, _) ∷ rest) = false

abbrev pub refusal : Option Why → List (FromServer Why)
refusal none = []
refusal (some why) = error why ∷ []

module _ (b : Backend) (enter : EnvSpec → List Text → List (Text × Text) → Entry)
    (json : Json FromClient) (facts : Facts) where
  -- Nothing but one refusal, perhaps, and the end of the conversation.
  pub IsTurnedAway : Conn b → Handled b → Type 0
  IsTurnedAway c h =
      (why : Option Why) × (stop : Stop) × (h.0 ≡ record c { said = c.said ++ refusal why })
      × (h.1 ≡ err stop)

  silent : (c : Conn b) (stop : Stop) → IsTurnedAway c (c, err stop)
  unfolding IsTurnedAway
  silent c stop = (none, stop, rw (append-nil c.said) refl, refl)

  refuse-IsTurnedAway :
      (g : Given) (why : Why) (stop : Stop) (c : Conn b) → IsTurnedAway c (refuse b g why stop c)
  unfolding IsTurnedAway
  refuse-IsTurnedAway g why stop c = elim (Bool-cases g.sends) [
    | inl on ↦ rw on (some why, stop, refl, refl)
    | inr off ↦ rw off (none, stop, rw (append-nil c.said) refl, refl)
  ]

  authorized-refused :
      (g : Given) (right : Bool) (c : Conn b) (f : Conn b → Handled b)
      → right ≡ false
      → IsTurnedAway c (authorized b enter json facts g right c f)
  authorized-refused g true c f e = absurd (ground arith)
  authorized-refused g false c f e = refuse-IsTurnedAway g not_authorized unauthorized c

  greeted-refused :
      (g : Given) (m : Option FromClient) (c : Conn b) (f : Conn b → Handled b)
      → is_greeting facts m ≡ false
      → IsTurnedAway c (greeted b enter json facts g m c f)
  greeted-refused g none c f e = silent c expected_hello
  greeted-refused g (some (hello v token client)) c f e = elim (Bool-cases (v == version)) [
    | inl same ↦ rw same (authorized-refused g (text_eq facts.token token) c f (ground (arith, e)))
    | inr apart ↦ rw apart (refuse-IsTurnedAway g (other_version v) version_mismatch c)
  ]
  greeted-refused g (some m) c f e = refuse-IsTurnedAway g want_hello expected_hello c

  greeted_by-refused :
      (g : Given) (r : Result Proto.Error Frame) (c : Conn b) (f : Conn b → Handled b)
      → greets_with facts json r ≡ false
      → IsTurnedAway c (greeted_by b enter json facts g r c f)
  greeted_by-refused g (err e) c f h = silent c not_a_frame
  greeted_by-refused g (ok frame) c f h = greeted-refused g (json_of json frame) c f h

  -- A client whose first frame is not a `Hello` of this version with the host's token, or that says
  -- nothing, is told at most one refusal and let go: the host, the secrets, the sessions and the panes
  -- are as they were.
  pub talk-IsTurnedAway :
      (messages : List (Given × Incoming)) (c : Conn b)
      → greets facts json messages ≡ false
      → IsTurnedAway c (talk b enter json facts messages c)
  unfolding talk
  talk-IsTurnedAway [] c h = silent c closed_before_hello
  talk-IsTurnedAway ((g, closing) ∷ rest) c h = silent c closed_before_hello
  talk-IsTurnedAway ((g, broken_off) ∷ rest) c h = silent c broken
  talk-IsTurnedAway ((g, other) ∷ rest) c h = talk-IsTurnedAway rest c h
  talk-IsTurnedAway ((g, binary bytes) ∷ rest) c h =
      greeted_by-refused g (decode bytes) c (talk_on b enter json facts rest) h
