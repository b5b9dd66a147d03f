-- ===== src/Keeper/Messages.antt =====
-- What a keeper is started with and what is said on its socket (devpipe/src/keeper.rs).
use devpipe.Prelude.{List, Bool, ℕ}
use devpipe.Prelude.Text.{Text}
use devpipe.Backend.{Entry}

pub record Spec : Type 0 where
  pub id : Text
  pub environment : Text
  pub argv : List Text
  pub entry : Entry
  pub cols : ℕ
  pub rows : ℕ

pub data Asking : Type 0 where
  attach : (cols rows : ℕ) → Asking
  describe : Asking
  watch : Asking
  kill : Asking

pub data Saying : Type 0 where
  info : (id : Text) (argv : List Text) (title : Text) (cols rows : ℕ) (running : Bool) → Saying
  titled : (title : Text) → Saying
  ended : Saying
