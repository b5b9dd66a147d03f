-- ===== src/Serve/Control.antt =====
-- `control` of devpipe/src/serve.rs and what it calls: one request of a client.
use devpipe.Host
use devpipe.Environment
use devpipe.Secrets
use devpipe.Backend.{EnvSpec, Entry}
use devpipe.Proto.{close_op, version, Op, control}
use devpipe.Prelude.{
  map, none, false, true, ◌++◌, ◌∷◌, [], List, some, Option, ◌||◌, Bool, ℕ, if◌then◌else◌, ◌==◌,
}
use devpipe.Prelude.Text.{codes, Text}
use devpipe.Proto.{close_op, Frame}
use devpipe.Host.{sort_by_name, Request, Host, Backend}
use devpipe.Environment.{clone_repo, Room, Starting, Ready, Seen}
use devpipe.Proto.Messages.{
  pong, remove_secret, set_secret, destroy_environment, stop_environment, start_environment,
  create_environment, welcome, EnvInfo, pty, Pane, FromClient, Json, error, opened, environment,
  environment_gone, secrets, opens, closes, hello, watch, ping, describe, closed, list_secrets,
}
use devpipe.Prelude.Result.{ok, err, Result}
use devpipe.Secrets.{load}
use devpipe.Proto.Control.{json_of}
use devpipe.Serve.{
  link_gone, feed_pane, not_a_message, already_greeted, no_secret, by_secrets, not_available,
  by_host, by_environment, without_pane, Why, has_pane, say, Conn, Handled, Given, Facts,
}

module _ (b : Backend) (enter : EnvSpec → List Text → List (Text × Text) → Entry)
    (json : Json FromClient) (facts : Facts) where
  abbrev pub starting : Given → EnvSpec → Conn b → Starting
  starting g spec c = record {
    id = g.session_id;
    secrets = load c.secrets;
    outcome = g.outcome;
    seen = g.seen spec.id;
  }

  abbrev pub pumped : ℕ → Text → Handled b → Handled b
  pumped channel session (c, err e) = (c, err e)
  pumped channel session (c, ok _) = (
    record c { panes = c.panes ++ record { channel = channel; session = session; fed = [] } ∷ [] },
    ok tt,
  )

  abbrev pub attached :
      Given → ℕ → EnvSpec → Conn b → Room × Result Environment.Error Text → Handled b
  attached g channel spec c (room, err e) =
      say b g (error (by_environment e)) (record c { room = room })
  attached g channel spec c (room, ok session) =
      if g.linked
      then pumped channel session
          (say b g (opened channel spec.id session) (record c { room = room }))
      else say b g (error (link_gone session)) (record c { room = room })

  abbrev pub attach_to :
      Given → ℕ → Option Text → List Text → ℕ → ℕ → Conn b → Result Host.Error EnvSpec → Handled b
  attach_to g channel session argv cols rows c (err e) = say b g (error (by_host e)) c
  attach_to g channel session argv cols rows c (ok spec) =
      attached g channel spec c
        (Environment.attach spec enter g.asks (starting g spec c) session argv cols rows c.room)

  -- `FromClient::Open`
  unfoldable pub open_pane : Given → ℕ → Pane → Conn b → Handled b
  open_pane g channel (pty which session argv cols rows) c =
      if channel == control || has_pane channel c.panes
      then say b g (error (not_available channel)) c
      else attach_to g channel session argv cols rows c (Host.get which c.host.environments)

  -- `announce_environment`
  abbrev pub announced : Given → EnvSpec → Conn b → Conn b
  announced g spec c = record c { room = Environment.announce spec (g.seen spec.id) c.room }

  -- The description that is the answer.
  abbrev pub describing : Given → EnvSpec → Conn b → Handled b
  describing g spec c =
      let (room, info) = Environment.describe spec (g.seen spec.id) c.room in
      say b g (environment info) (record c { room = room })

  abbrev pub close_found : Result Host.Error EnvSpec → Conn b → Conn b
  close_found (err e) c = c
  close_found (ok spec) c = record c { room = Environment.close spec c.room }

  -- The sessions of the environment that a `stop` or a `destroy` is for are told to end first.
  abbrev pub closing_sessions : Text → Conn b → Conn b
  closing_sessions which c = close_found (Host.get (some which) c.host.environments) c

  abbrev pub described : Given → Conn b → Host b × Result Host.Error EnvSpec → Handled b
  described g c (host, err e) = say b g (error (by_host e)) (record c { host = host })
  described g c (host, ok spec) = describing g spec (announced g spec (record c { host = host }))

  abbrev pub gone : Given → Conn b → Host b × Result Host.Error Text → Handled b
  gone g c (host, err e) = say b g (error (by_host e)) (record c { host = host })
  gone g c (host, ok id) = say b g (environment_gone id) (record c { host = host })

  -- `make`: create, and put the code in it; a failed clone takes the environment with it.
  abbrev pub cloned :
      Given → EnvSpec → Conn b → Result Environment.Error (Unit {0}) → Conn b × Result Why EnvSpec
  cloned g spec c (ok _) = (c, ok spec)
  cloned g spec c (err e) = (
    record (closing_sessions spec.id c) { host = (Host.destroy b g.saves c.host spec.id).0 },
    err (by_environment e),
  )

  abbrev pub put_code :
      Given
      → Option Text
      → Conn b
      → Host b × Result Host.Error EnvSpec
      → Conn b × Result Why EnvSpec
  put_code g repo c (host, err e) = (record c { host = host }, err (by_host e))
  put_code g none c (host, ok spec) = (announced g spec (record c { host = host }), ok spec)
  put_code g (some repo) c (host, ok spec) =
      let made = announced g spec (record c { host = host }) in
      cloned g spec made (clone_repo spec g.files g.runs (load c.secrets) repo)

  unfoldable pub make : Given → Request b → Option Text → Conn b → Conn b × Result Why EnvSpec
  make g r repo c = put_code g repo c (Host.create b g.saves g.environment_id g.workspaces c.host r)

  abbrev pub answer_made : Given → Conn b × Result Why EnvSpec → Handled b
  answer_made g (c, err e) = say b g (error e) c
  answer_made g (c, ok spec) = describing g spec c

  abbrev pub list_names : Given → Conn b → Handled b
  list_names g c = say b g (secrets (Secrets.names c.secrets)) c

  abbrev pub secret_set : Given → Conn b → Option Text × Result Secrets.Error (Unit {0}) → Handled b
  secret_set g c (file, ok _) = list_names g (record c { secrets = file })
  secret_set g c (file, err e) = say b g (error (by_secrets e)) (record c { secrets = file })

  abbrev pub secret_removed :
      Given → Text → Conn b → Option Text × Result Secrets.Error Bool → Handled b
  secret_removed g key c (file, ok true) = list_names g (record c { secrets = file })
  secret_removed g key c (file, ok false) =
      say b g (error (no_secret key)) (record c { secrets = file })
  secret_removed g key c (file, err e) =
      say b g (error (by_secrets e)) (record c { secrets = file })

  -- `Host::describe`: each environment in order, which clears the sockets that are litter.
  unfoldable pub describe_all : (Text → Seen) → List EnvSpec → Room → Room × List EnvInfo
  describe_all seen [] room = (room, [])
  describe_all seen (spec ∷ specs) room =
      let (room', info) = Environment.describe spec (seen spec.id) room in
      let (last, infos) = describe_all seen specs room' in (last, info ∷ infos)

  unfoldable pub welcome_client : Given → Conn b → Handled b
  welcome_client g c =
      let (room, infos) = describe_all g.seen (sort_by_name c.host.environments) c.room in
      say b g
        (welcome version (record {
          id = facts.id;
          host = facts.hostname;
          backend = b.kind;
          panes = codes "pty" ∷ [];
          image = c.host.image;
          secrets = Secrets.names c.secrets;
          environments = infos;
        }))
        (record c { room = room })

  unfoldable pub obey : Given → FromClient → Conn b → Handled b
  obey g (opens channel pane) c = open_pane g channel pane c
  obey g (closes channel) c =
      say b g (closed channel (codes "detached"))
        (record c { panes = without_pane channel c.panes })
  obey g (create_environment name image ports repo memory) c = answer_made g (
      make g
        (record { name = name; image = image; ports = ports; workspace = none; memory = memory })
        repo c)
  obey g (start_environment id) c = described g c (Host.start b c.host id)
  obey g (stop_environment id) c = described g (closing_sessions id c) (Host.stop b c.host id)
  obey g (destroy_environment id) c =
      gone g (closing_sessions id c) (Host.destroy b g.saves c.host id)
  obey g (set_secret key value) c =
      secret_set g c (Secrets.set g.secrets_written c.secrets key value)
  obey g (remove_secret key) c =
      secret_removed g key c (Secrets.remove g.secrets_written c.secrets key)
  obey g list_secrets c = list_names g c
  obey g describe c = welcome_client g c
  obey g (watch on) c = say b g pong (record c { watching = on })
  obey g ping c = say b g pong c
  obey g (hello v token client) c = say b g (error already_greeted) c

  abbrev pub obey_some : Given → Option FromClient → Conn b → Handled b
  obey_some g none c = say b g (error not_a_message) c
  obey_some g (some m) c = obey g m c

  -- `control`
  unfoldable pub handle_control : Given → Frame → Conn b → Handled b
  handle_control g frame c = obey_some g (json_of json frame) c

  abbrev pub to_pane : Given → Frame → Op → Conn b → Conn b
  to_pane g frame close_op c = record c { panes = without_pane frame.channel c.panes }
  to_pane g frame _ c =
      if g.feeds then record c { panes = map (feed_pane frame.channel frame) c.panes } else c

  -- The body of the loop of `talk`.
  unfoldable pub handle_frame : Given → Frame → Conn b → Handled b
  handle_frame g frame c =
      if frame.channel == control
      then handle_control g frame c
      else ((if has_pane frame.channel c.panes then to_pane g frame frame.op c else c), ok tt)
