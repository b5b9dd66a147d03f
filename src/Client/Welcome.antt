-- ===== src/Client/Welcome.antt =====
-- A client and a host that greet each other.
use devpipe.Environment
use devpipe.Environment.{describe, Room, Seen}
use devpipe.Proto.{Frame, version, encode}
use devpipe.Proto.Control.{json_of, control_frame, json_of-control_frame}
use devpipe.Proto.Messages.{welcome, EnvInfo, FromServer, FromClient, hello, Json, HostInfo}
use devpipe.Host.{Backend, sort_by_name}
use devpipe.Serve.{Given, Conn, Facts, Why, binary}
use devpipe.Prelude.{ℕ, arith, ap, refl, map, ◌∷◌, [], List, true, ◌≡◌}
use devpipe.Backend.{Entry, EnvSpec}
use devpipe.Prelude.Text.{text_eq_refl, Text}
use devpipe.Serve.Talk.{talk_on, talk}
use devpipe.Serve.Control.{describe_all, welcome_client}
use devpipe.Client.{next_control, over}
use devpipe.Prelude.Result.{ok}
use devpipe.Proto.Codec.{decode-encode}

-- What `describe_all` describes is what it is given, in order.
abbrev ids_of : List EnvInfo → List Text
ids_of = map (λ e. e.id)

describe_all-ids :
    (b : Backend) (enter : EnvSpec → List Text → List (Text × Text) → Entry)
    (json : Json FromClient) (facts : Facts) (seen : Text → Seen) (specs : List EnvSpec)
    (room : Room)
    → ids_of (describe_all b enter json facts seen specs room).1 ≡ map (λ e. e.id) specs
unfolding describe_all describe
describe_all-ids b enter json facts seen [] room = refl
describe_all-ids b enter json facts seen (spec ∷ specs) room = ap (◌∷◌ spec.id) (
    describe_all-ids b enter json facts seen specs
      (Environment.describe spec (seen spec.id) room).0)

over-welcome :
    (writes : Json (FromServer Why)) (v : ℕ) (host : HostInfo) (more : List Frame)
    → over writes (control_frame writes (welcome v host) ∷ more) ≡ ok host
unfolding over next_control control_frame json_of
over-welcome writes v host more = rw (writes.from_slice-to_vec (welcome v host)) refl

module _ (b : Backend) (enter : EnvSpec → List Text → List (Text × Text) → Entry)
    (reads : Json FromClient) (writes : Json (FromServer Why)) (facts : Facts) where
  -- A client that presents the host's token on a new connection whose queue takes messages is greeted
  -- back, with the host's id and a description of each environment of its table, by name.
  pub over-talk :
      (g : Given) (c : Conn b) (client : Text)
      → g.sends ≡ true
      → c.said ≡ []
      → let greeting = encode (control_frame reads (hello version facts.token client)) in
        let heard =
          map
            (control_frame writes)
            (talk b enter reads facts ((g, binary greeting) ∷ []) c).0.said in
        (host : HostInfo) × (over writes heard ≡ ok host)
        × (host.id ≡ facts.id)
        × (map (λ e. e.id) host.environments ≡ map (λ e. e.id) (sort_by_name c.host.environments))
  unfolding talk talk_on welcome_client
  over-talk g c client sends fresh =
      let said = hello version facts.token client in
      rw
        (
          decode-encode (control_frame reads said) (unfold control_frame in omega arith),
          json_of-control_frame reads said,
          text_eq_refl facts.token,
          sends,
          fresh,
        )
        (
          _,
          over-welcome writes version _ [],
          refl,
          describe_all-ids b enter reads facts g.seen (sort_by_name c.host.environments) c.room,
        )
