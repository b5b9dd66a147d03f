-- ===== src/Proto/Messages.antt =====
-- The control messages and the pane messages of devpipe/src/proto.rs, with the source's variants.
-- Their JSON is serde's: a codec is a parameter of what sends or reads them.
use devpipe.Prelude.{ℕ, ◌≡◌, Bool, Option, some, List}
use devpipe.Prelude.Text.{Text}

-- A serialisation by serde_json, and its documented round trip.
pub record Json {ℓ} (M : Type ℓ) : Type ℓ where
  pub to_vec : M → List ℕ
  pub from_slice : List ℕ → Option M
  pub from_slice-to_vec : (m : M) → from_slice (to_vec m) ≡ some m

-- `backend::PortMap`
pub record PortMap : Type 0 where
  pub inside : ℕ
  pub outside : ℕ

pub data Pane : Type 0 where
  pty : (environment session : Option Text) (argv : List Text) (cols rows : ℕ) → Pane

pub data PaneEvent : Type 0 where
  resize : (cols rows : ℕ) → PaneEvent
  titled : Text → PaneEvent
  open_url : Text → PaneEvent
  exit : PaneEvent

pub data FromClient : Type 0 where
  hello : (version : ℕ) (token client : Text) → FromClient
  opens : (channel : ℕ) (pane : Pane) → FromClient
  closes : (channel : ℕ) → FromClient
  create_environment :
      (name : Text) (image : Option Text) (ports : List ℕ) (repo memory : Option Text) → FromClient
  start_environment : (id : Text) → FromClient
  stop_environment : (id : Text) → FromClient
  destroy_environment : (id : Text) → FromClient
  set_secret : (key value : Text) → FromClient
  remove_secret : (key : Text) → FromClient
  list_secrets : FromClient
  describe : FromClient
  watch : (on : Bool) → FromClient
  ping : FromClient

pub record SessionInfo : Type 0 where
  pub id : Text
  pub title : Text
  pub cols : ℕ
  pub rows : ℕ
  pub argv : List Text

pub record EnvInfo : Type 0 where
  pub id : Text
  pub name : Text
  pub backend : Text
  pub image : Text
  pub status : Text
  pub workspace : Text
  pub memory : Option Text
  pub ports : List PortMap
  pub sessions : List SessionInfo

pub record HostInfo : Type 0 where
  pub id : Text
  pub host : Text
  pub backend : Text
  pub panes : List Text
  pub image : Text
  pub secrets : List Text
  pub environments : List EnvInfo

-- The messages that the server prints as prose are the reasons for them, of the type `E`.
pub data FromServer {ℓ} (E : Type ℓ) : Type ℓ where
  welcome : (version : ℕ) (host : HostInfo) → FromServer E
  opened : (channel : ℕ) (environment session : Text) → FromServer E
  closed : (channel : ℕ) (reason : Text) → FromServer E
  environment : EnvInfo → FromServer E
  environment_gone : (id : Text) → FromServer E
  secrets : (names : List Text) → FromServer E
  error : E → FromServer E
  stale : FromServer E
  pong : FromServer E
