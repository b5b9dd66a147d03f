-- ===== src/Command.antt =====
-- devpipe/src/main.rs: what the commands do with the other parts. Where each stands: the tree that
-- follows its machines in Following, `add` in Adding, the one-shot verbs in Verbs, `forward` in
-- Forwarding, what is printed in Printing. The arguments of the process are a library's to parse.
pub mod Printing
pub mod Following
pub mod Adding
pub mod Verbs
pub mod Forwarding
mod Tests
use devpipe.Machines
use devpipe.Tunnel
use devpipe.Secrets
use devpipe.Prelude.Result.{Result, ok, err}
use devpipe.Prelude.Text.{Text}
use devpipe.Prelude.{ℕ}

pub data Error : Type 0 where
  of_machines : Machines.Error → Error
  of_tunnel : Tunnel.Error → Error
  of_secrets : Secrets.Error → Error
  relayed_needs_token relayed_needs_relay_token url_needs_token : Error
  no_daemon_here : Error
  could_not_reach : (name why : Text) → Error
  unreached : (why : Text) → Error
  name_an_environment : Error
  no_such_environment : (wanted machine : Text) → Error
  says : Text → Error
  nothing_useful : Error
  empty_value : (key : Text) → Error
  port_in_use : ℕ → Error
  no_spare_port : Error
  not_over_ssh : Text → Error

-- `?` on another part's result.
abbrev pub lift {ℓ} : {E : Type 0} {A : Type ℓ} → (E → Error) → Result E A → Result Error A
lift f (ok a) = ok a
lift f (err e) = err (f e)
