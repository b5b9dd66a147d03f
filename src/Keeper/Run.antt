-- ===== src/Keeper/Run.antt =====
-- The loop of `run` of devpipe/src/keeper.rs: how long a keeper outlives its child. Times are
-- milliseconds. Each arm of the `select!` is a function, and what happens beside it (the child goes, a
-- connection ends, time passes) is one too; their order is a relation.
pub mod Grace
mod Tests
use devpipe.Prelude.{
  ◌≡◌, ◌<◌, ◌≤◌, ◌-◌, ◌+◌, suc, if◌then◌else◌, ◌==◌, some, none, Option, Bool, true, false, ℕ,
}

abbrev pub grace : ℕ
grace = 10000

abbrev pub again : ℕ
again = 1000

pub record Keeper : Type 0 where
  pub now : ℕ
  -- When the child went, if it has.
  pub gone_at : Option ℕ
  -- The watch has a change that the loop has not seen.
  pub changed : Bool
  pub deadline : Option ℕ
  pub live : ℕ
  pub running : Bool

abbrev pub deadline_from : ℕ → Option ℕ → Option ℕ
deadline_from now none = none
deadline_from now (some _) = some (now + grace)

-- The child may be gone before the loop begins.
unfoldable pub started : ℕ → Option ℕ → Keeper
started now gone_at = record {
  now = now;
  gone_at = gone_at;
  changed = false;
  deadline = deadline_from now gone_at;
  live = 0;
  running = true;
}

unfoldable pub accepted : Keeper → Keeper
accepted k = record k { live = suc k.live }

unfoldable pub served : Keeper → Keeper
served k = record k { live = k.live - 1 }

abbrev pub child_exits : Keeper → Keeper
child_exits k = record k { gone_at = some k.now; changed = true }

unfoldable pub noticed : Keeper → Keeper
noticed k = record k { changed = false; deadline = deadline_from k.now k.gone_at }

unfoldable pub expired : Keeper → Keeper
expired k =
    if k.live == 0
    then record k { running = false }
    else record k { deadline = some (k.now + again) }

abbrev pub waits : ℕ → Keeper → Keeper
waits n k = record k { now = k.now + n }

pub data Step (k : Keeper) : Keeper → Type 0 where
  accepts : k.running ≡ true → Step k (accepted k)
  serves : k.running ≡ true → 0 < k.live → Step k (served k)
  exits : k.running ≡ true → k.gone_at ≡ none → Step k (child_exits k)
  notices : k.running ≡ true → k.deadline ≡ none → k.changed ≡ true → Step k (noticed k)
  expires : (at : ℕ) → k.running ≡ true → k.deadline ≡ some at → at ≤ k.now → Step k (expired k)
  passes : (n : ℕ) → k.running ≡ true → Step k (waits n k)

pub data Reach (k : Keeper) : Keeper → Type 0 where
  here : Reach k k
  next : {j l : Keeper} → Reach k j → Step j l → Reach k l
