-- ===== src/Host/Opening/Tests.antt =====
-- A host with one environment, opened again.
use devpipe.Host.{valid_name, Backend, has_id}
use devpipe.Proto.Messages.{Json}
use devpipe.Keys.Tests.{
  maybe, text_maybe, text_maybe-maybe, write_texts, read_texts, read-write_texts,
}
use devpipe.Host.Opening.{state_of, no_options, open_host, State, Opened}
use devpipe.Backend.{EnvSpec}
use devpipe.Prelude.{◌∷◌, [], List, some, none, Option, true, refl, ◌≡◌, ℕ, find}
use devpipe.Prelude.Text.{codes, Text}
use devpipe.Prelude.Result.{ok}
use devpipe.Host.Opening.Restart.{open_host-unparsed, open_host-state_of}

spec_texts : List EnvSpec → List Text
spec_texts [] = []
spec_texts (e ∷ es) =
    e.id ∷ e.name ∷ e.backend ∷ e.image ∷ e.workspace ∷ e.ports ∷ maybe e.memory ∷ spec_texts es

texts_spec : List Text → List EnvSpec
texts_spec (id ∷ name ∷ backend ∷ image ∷ workspace ∷ ports ∷ memory ∷ ts) =
    record {
      id = id;
      name = name;
      backend = backend;
      image = image;
      workspace = workspace;
      ports = ports;
      memory = text_maybe memory;
    }
    ∷ texts_spec ts
texts_spec _ = []

texts_spec-spec_texts : (es : List EnvSpec) → texts_spec (spec_texts es) ≡ es
unfolding texts_spec spec_texts
texts_spec-spec_texts [] = refl
texts_spec-spec_texts (e ∷ es) = rw (text_maybe-maybe e.memory, texts_spec-spec_texts es) refl

write_state : State → List ℕ
write_state s = write_texts (s.id ∷ maybe s.image ∷ maybe s.memory ∷ spec_texts s.environments)

state_from : List Text → Option State
state_from (id ∷ image ∷ memory ∷ ts) = some (record {
  id = id;
  image = text_maybe image;
  memory = text_maybe memory;
  environments = texts_spec ts;
})
state_from _ = none

read-write_state : (s : State) → state_from (read_texts (write_state s)) ≡ some s
unfolding write_state state_from
read-write_state s =
    rw
      (
        read-write_texts (s.id ∷ maybe s.image ∷ maybe s.memory ∷ spec_texts s.environments),
        text_maybe-maybe s.image,
        text_maybe-maybe s.memory,
        texts_spec-spec_texts s.environments,
      )
      refl

abbrev state_json : Json State
state_json = record {
  to_vec = write_state;
  from_slice = λ bytes. state_from (read_texts bytes);
  from_slice-to_vec = read-write_state;
}

abbrev idle : Backend
idle = record {
  World = ℕ;
  kind = codes "docker";
  create = λ spec n. (n, true);
  start = λ spec n. (n, true);
  stop = λ spec n. (n, true);
  destroy = λ spec n. (n, true);
}

abbrev web : EnvSpec
web = record {
  id = codes "a1";
  name = codes "web";
  backend = codes "docker";
  image = codes "debian";
  workspace = codes "/w/a1";
  ports = 3000 ∷ [];
  memory = none;
}

abbrev running : Opened idle state_json
running = record {
  id = codes "h1";
  token = codes "secret";
  host = record {
    image = codes "debian";
    memory = none;
    environments = web ∷ [];
    saved = [];
    world = 0;
    announced = [];
    closed = [];
  };
}

web_valid : valid_name (codes "web") ≡ ok tt
unfolding valid_name
web_valid = refl

open_host-state_of_example :
    (again : Opened idle state_json) × ((open_host idle state_json true
        (codes "h2")
        no_options
        (some (codes "secret"))
        0
        (some (write_state (state_of idle state_json running)))).1
      ≡ some again)
    × (again.id ≡ codes "h1")
    × (again.host.image ≡ codes "debian")
    × (again.host.memory ≡ none)
    × (find (has_id (codes "a1")) again.host.environments ≡ some web)
open_host-state_of_example =
    open_host-state_of idle state_json running (codes "h2") (codes "secret") (codes "a1") 0 refl
      (web_valid, refl, refl, tt)

no_bytes : state_json.from_slice [] ≡ none
unfolding state_from read_texts
no_bytes = refl

open_host-unparsed_example :
    (fresh : Opened idle state_json) × (open_host idle state_json true
        (codes "h2")
        no_options
        (some (codes "secret"))
        0
        (some [])
      ≡ (some (write_state (state_of idle state_json fresh)), some fresh))
    × (fresh.id ≡ codes "h2")
    × (fresh.host.environments ≡ [])
open_host-unparsed_example =
    open_host-unparsed idle state_json (codes "h2") (codes "secret") no_options 0 [] no_bytes
