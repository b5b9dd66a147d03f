-- ===== src/Store.antt =====
-- `host::write_private` of devpipe/src/host.rs: how every private file of the program is replaced.
-- The file system's own failures are the argument `Option Stage`: the step that failed, if any.
use devpipe.Prelude.{ℕ, Bool, true, false, Option, none, some, List, ◌≡◌, ◌⊎◌, arith, take}

pub data Stage : Type 0 where
  opening syncing renaming : Stage
  writing : (bytes_written : ℕ) → Stage

pub record Disk : Type 0 where
  pub file : Option (List ℕ)
  pub scratch : Option (List ℕ)

unfoldable pub write_private : Option Stage → List ℕ → Disk → Disk × Bool
write_private (some opening) bytes disk = (disk, false)
write_private (some (writing n)) bytes disk = (record disk { scratch = some (take n bytes) }, false)
write_private (some syncing) bytes disk = (record disk { scratch = some bytes }, false)
write_private (some renaming) bytes disk = (record disk { scratch = some bytes }, false)
write_private none bytes disk = (record { file = some bytes; scratch = none }, true)

-- A reader sees the old contents or the new, never a part.
pub write_private-cases :
    (fails : Option Stage) (bytes : List ℕ) (disk : Disk)
    → (((write_private fails bytes disk).1 ≡ true)
        × ((write_private fails bytes disk).0.file ≡ some bytes))
      ⊎ (((write_private fails bytes disk).1 ≡ false)
          × ((write_private fails bytes disk).0.file ≡ disk.file))
unfolding write_private
write_private-cases none bytes disk = ground arith
write_private-cases (some opening) bytes disk = ground arith
write_private-cases (some (writing n)) bytes disk = ground arith
write_private-cases (some syncing) bytes disk = ground arith
write_private-cases (some renaming) bytes disk = ground arith
