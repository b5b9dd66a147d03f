-- ===== src/Serve/Replies.antt =====
-- What `control` says to the client.
use devpipe.Host
use devpipe.Environment
use devpipe.Secrets
use devpipe.Proto.{Frame, control}
use devpipe.Proto.Messages.{
  Pane, FromClient, FromServer, Json, opens, closes, create_environment, start_environment,
  stop_environment, destroy_environment, set_secret, remove_secret, list_secrets, describe, watch,
  ping, hello, pty, opened,
}
use devpipe.Host.{Backend, Host}
use devpipe.Prelude.{
  arith, ◌≢◌, subst, sym, ◌++◌, ◌∷◌, [], List, some, none, Option, ◌||◌, false, true, Bool, inr,
  inl, ap, refl, ◌≡◌, ℕ, Bool-cases, if◌then◌else◌, ◌==◌,
}
use devpipe.Serve.{
  without_pane, OpenPane, has_pane, queue_closed, Facts, say, Handled, Why, Conn, Given,
}
use devpipe.Backend.{Entry, EnvSpec}
use devpipe.Prelude.Text.{Text}
use devpipe.Prelude.Result.{Result, err, ok}
use devpipe.Serve.Control.{
  closing_sessions, cloned, make, announced, welcome_client, secret_removed, secret_set,
  answer_made, put_code, close_found, gone, described, attach_to, attached, handle_control,
  obey_some, obey, open_pane, pumped,
}
use devpipe.Environment.{clone_repo, Room}
use devpipe.Proto.Control.{json_of}
use devpipe.Secrets.{load}

module _ (b : Backend) (P : List OpenPane → Type 0) where
  -- One message is queued, or the queue is closed and none is; and the panes are as they should be.
  pub Answers : Given → Conn b → Handled b → Type 0
  Answers g c h =
      (m : FromServer Why) × (h.1 ≡ (if g.sends then ok tt else err queue_closed))
      × (h.0.said ≡ (if g.sends then c.said ++ m ∷ [] else c.said))
      × P h.0.panes

  say-Answers :
      (g : Given) (m : FromServer Why) (c d : Conn b)
      → d.said ≡ c.said
      → P d.panes
      → Answers g c (say b g m d)
  unfolding Answers
  say-Answers g m c d same panes = elim (Bool-cases g.sends) [
    | inl on ↦ rw on (m, refl, ap (λ l. l ++ m ∷ []) same, panes)
    | inr off ↦ rw off (m, refl, same, panes)
  ]

  if-Answers :
      (g : Given) (c : Conn b) (test : Bool) (h k : Handled b)
      → Answers g c h
      → Answers g c k
      → Answers g c (if test then h else k)
  if-Answers g c true h k p q = p
  if-Answers g c false h k p q = q

-- The panes when one more is added, or not.
abbrev WithMore : (List OpenPane → Type 0) → OpenPane → List OpenPane → Type 0
WithMore P p ps = P ps × P (ps ++ p ∷ [])

module _ (b : Backend) (enter : EnvSpec → List Text → List (Text × Text) → Entry)
    (json : Json FromClient) (facts : Facts) (P : List OpenPane → Type 0) where
  pumped-Answers :
      (g : Given) (c : Conn b) (channel : ℕ) (session : Text) (h : Handled b)
      → Answers b (WithMore P (record { channel = channel; session = session; fed = [] })) g c h
      → Answers b P g c (pumped b enter json facts channel session h)
  unfolding Answers
  pumped-Answers g c channel session (d, err e) (m, r, s, p) = (m, r, s, p.0)
  pumped-Answers g c channel session (d, ok _) (m, r, s, p) = (m, r, s, p.1)

  attached-Answers :
      (g : Given) (channel : ℕ) (spec : EnvSpec) (c : Conn b)
      (r : Room × Result Environment.Error Text)
      → ((session : Text)
          → WithMore P (record { channel = channel; session = session; fed = [] }) c.panes)
      → Answers b P g c (attached b enter json facts g channel spec c r)
  attached-Answers g channel spec c (room, err e) more = say-Answers b P g _ c _ refl (more []).0
  attached-Answers g channel spec c (room, ok session) more =
      let d = record c { room = room } in
      let Q = WithMore P (record { channel = channel; session = session; fed = [] }) in
      if-Answers b P g c g.linked _ _
        (pumped-Answers g c channel session _
          (say-Answers b Q g (opened channel spec.id session) c d refl (more session)))
        (say-Answers b P g _ c d refl (more session).0)

  attach_to-Answers :
      (g : Given) (channel : ℕ) (session : Option Text) (argv : List Text) (cols rows : ℕ)
      (c : Conn b) (r : Result Host.Error EnvSpec)
      → ((s : Text) → WithMore P (record { channel = channel; session = s; fed = [] }) c.panes)
      → Answers b P g c (attach_to b enter json facts g channel session argv cols rows c r)
  attach_to-Answers g channel session argv cols rows c (err e) more =
      say-Answers b P g _ c _ refl (more []).0
  attach_to-Answers g channel session argv cols rows c (ok spec) more =
      attached-Answers g channel spec c _ more

  described-Answers :
      (g : Given) (c d : Conn b) (r : Host b × Result Host.Error EnvSpec)
      → d.said ≡ c.said
      → P d.panes
      → Answers b P g c (described b enter json facts g d r)
  described-Answers g c d (host, err e) same p = say-Answers b P g _ c _ same p
  described-Answers g c d (host, ok spec) same p = say-Answers b P g _ c _ same p

  gone-Answers :
      (g : Given) (c d : Conn b) (r : Host b × Result Host.Error Text)
      → d.said ≡ c.said
      → P d.panes
      → Answers b P g c (gone b enter json facts g d r)
  gone-Answers g c d (host, err e) same p = say-Answers b P g _ c _ same p
  gone-Answers g c d (host, ok id) same p = say-Answers b P g _ c _ same p

  close_found-keeps :
      (r : Result Host.Error EnvSpec) (c : Conn b)
      → let d = close_found b enter json facts r c in (d.said ≡ c.said) × (d.panes ≡ c.panes)
  close_found-keeps (err e) c = (refl, refl)
  close_found-keeps (ok spec) c = (refl, refl)

  put_code-keeps :
      (g : Given) (repo : Option Text) (c : Conn b) (r : Host b × Result Host.Error EnvSpec)
      → let d = (put_code b enter json facts g repo c r).0 in
        (d.said ≡ c.said) × (d.panes ≡ c.panes)
  put_code-keeps g repo c (host, err e) = (refl, refl)
  put_code-keeps g none c (host, ok spec) = (refl, refl)
  put_code-keeps g (some repo) c (host, ok spec) =
      go (clone_repo spec g.files g.runs (load c.secrets) repo)
    where
      made : Conn b
      made = announced b enter json facts g spec (record c { host = host })

      go :
          (o : Result Environment.Error (Unit {0}))
          → let d = (cloned b enter json facts g spec made o).0 in
            (d.said ≡ c.said) × (d.panes ≡ c.panes)
      go (ok _) = (refl, refl)
      go (err e) = close_found-keeps (Host.get (some spec.id) host.environments) made

  answer_made-Answers :
      (g : Given) (c : Conn b) (r : Conn b × Result Why EnvSpec)
      → (r.0.said ≡ c.said) × (r.0.panes ≡ c.panes)
      → P c.panes
      → Answers b P g c (answer_made b enter json facts g r)
  answer_made-Answers g c (d, err e) (same, panes) p =
      say-Answers b P g _ c _ same (subst P (sym panes) p)
  answer_made-Answers g c (d, ok spec) (same, panes) p =
      say-Answers b P g _ c _ same (subst P (sym panes) p)

  secret_set-Answers :
      (g : Given) (c : Conn b) (r : Option Text × Result Secrets.Error (Unit {0}))
      → P c.panes
      → Answers b P g c (secret_set b enter json facts g c r)
  secret_set-Answers g c (file, ok _) p = say-Answers b P g _ c _ refl p
  secret_set-Answers g c (file, err e) p = say-Answers b P g _ c _ refl p

  secret_removed-Answers :
      (g : Given) (key : Text) (c : Conn b) (r : Option Text × Result Secrets.Error Bool)
      → P c.panes
      → Answers b P g c (secret_removed b enter json facts g key c r)
  secret_removed-Answers g key c (file, ok true) p = say-Answers b P g _ c _ refl p
  secret_removed-Answers g key c (file, ok false) p = say-Answers b P g _ c _ refl p
  secret_removed-Answers g key c (file, err e) p = say-Answers b P g _ c _ refl p

  -- What a `P` must allow.
  module _
      (add : (p : OpenPane) (ps : List OpenPane)
        → p.channel ≢ control
        → has_pane p.channel ps ≡ false
        → P ps
        → P (ps ++ p ∷ []))
      (del : (k : ℕ) (ps : List OpenPane) → P ps → P (without_pane k ps)) where
    open_pane-Answers :
        (g : Given) (channel : ℕ) (pane : Pane) (c : Conn b)
        → P c.panes
        → Answers b P g c (open_pane b enter json facts g channel pane c)
    unfolding open_pane
    open_pane-Answers g channel (pty which session argv cols rows) c p =
        elim (Bool-cases (channel == control || has_pane channel c.panes)) [
          | inl taken ↦ rw taken (say-Answers b P g _ c c refl p)
          | inr free ↦ rw free (
              attach_to-Answers g channel session argv cols rows c
                (Host.get which c.host.environments)
                (λ s. (p, add _ c.panes (ground (arith, free)) (ground (arith, free)) p)))
        ]

    obey-Answers :
        (g : Given) (m : FromClient) (c : Conn b)
        → P c.panes
        → Answers b P g c (obey b enter json facts g m c)
    unfolding obey welcome_client make
    obey-Answers g (opens channel pane) c p = open_pane-Answers g channel pane c p
    obey-Answers g (closes channel) c p = say-Answers b P g _ c _ refl (del channel c.panes p)
    obey-Answers g (create_environment name image ports repo memory) c p =
        answer_made-Answers g c _ (put_code-keeps g repo c _) p
    obey-Answers g (start_environment id) c p = described-Answers g c c _ refl p
    obey-Answers g (stop_environment id) c p =
        let keeps = close_found-keeps (Host.get (some id) c.host.environments) c in
        described-Answers g c (closing_sessions b enter json facts id c) _ keeps.0
          (subst P (sym keeps.1) p)
    obey-Answers g (destroy_environment id) c p =
        let keeps = close_found-keeps (Host.get (some id) c.host.environments) c in
        gone-Answers g c (closing_sessions b enter json facts id c) _ keeps.0
          (subst P (sym keeps.1) p)
    obey-Answers g (set_secret key value) c p = secret_set-Answers g c _ p
    obey-Answers g (remove_secret key) c p = secret_removed-Answers g key c _ p
    obey-Answers g list_secrets c p = say-Answers b P g _ c _ refl p
    obey-Answers g describe c p = say-Answers b P g _ c _ refl p
    obey-Answers g (watch on) c p = say-Answers b P g _ c _ refl p
    obey-Answers g ping c p = say-Answers b P g _ c _ refl p
    obey-Answers g (hello v token client) c p = say-Answers b P g _ c _ refl p

    obey_some-Answers :
        (g : Given) (m : Option FromClient) (c : Conn b)
        → P c.panes
        → Answers b P g c (obey_some b enter json facts g m c)
    obey_some-Answers g none c p = say-Answers b P g _ c _ refl p
    obey_some-Answers g (some m) c p = obey-Answers g m c p

    control-Answers :
        (g : Given) (frame : Frame) (c : Conn b)
        → P c.panes
        → Answers b P g c (handle_control b enter json facts g frame c)
    unfolding handle_control
    control-Answers g frame c p = obey_some-Answers g (json_of json frame) c p

    pub control-panes :
        (g : Given) (frame : Frame) (c : Conn b)
        → P c.panes
        → P (handle_control b enter json facts g frame c).0.panes
    unfolding Answers
    control-panes g frame c p = let (_, _, _, kept) = control-Answers g frame c p in kept

module _ (b : Backend) (enter : EnvSpec → List Text → List (Text × Text) → Entry)
    (json : Json FromClient) (facts : Facts) where
  -- Every frame on the control channel, understood or not and whatever comes of it, is answered with
  -- one message; where the queue to the client is closed nothing is said and the handler fails.
  pub handle_control-said :
      (g : Given) (frame : Frame) (c : Conn b)
      → let h = handle_control b enter json facts g frame c in
        (m : FromServer Why) × (h.1 ≡ (if g.sends then ok tt else err queue_closed))
        × (h.0.said ≡ (if g.sends then c.said ++ m ∷ [] else c.said))
  unfolding Answers
  handle_control-said g frame c =
      let (m, r, s, _) =
        control-Answers b enter json facts (λ ps. Unit) (λ p ps n f h. tt) (λ k ps h. tt) g frame c
          tt in
      (m, r, s)
