-- ===== src/Host/Token.antt =====
-- `resolve_token` of devpipe/src/host.rs: the host's own secret.
use devpipe.Prelude.{[], some, none, Option, false, true, Bool, if◌then◌else◌}
use devpipe.Prelude.Text.{is_empty, Text}
use devpipe.Store.{write_private, Stage, Disk}
use devpipe.Prelude.Text.Trim.{trim}
use devpipe.Prelude.Text.Utf8.{from_utf8}

abbrev kept_token : Option Text → Text
kept_token none = []
kept_token (some text) = trim text

abbrev or_unwritten : Text → Disk × Bool → Disk × Option Text
or_unwritten token (disk, true) = (disk, some token)
or_unwritten token (disk, false) = (disk, none)

abbrev read_text : Disk → Option Text
read_text disk = elim disk.file [ some bytes ↦ from_utf8 bytes | none ↦ none ]

-- `minted` is what `random_id` draws: hex digits, whose bytes are their codes. `none` is the failure
-- of the write.
unfoldable pub resolve_token : Option Stage → Text → Disk → Disk × Option Text
resolve_token fails minted disk =
    if is_empty (kept_token (read_text disk))
    then or_unwritten minted (write_private fails minted disk)
    else (disk, some (kept_token (read_text disk)))
