-- ===== src/Command/Following.antt =====
-- The live tree of devpipe/src/main.rs (`follow`, `follow_once`, `watch_tree`): one machine's corner of
-- the shared picture, over what the machine says. The painter's channel is there as long as the program
-- runs.
pub mod View
pub mod Environments
use devpipe.Proto.Messages.{FromServer, HostInfo, EnvInfo, welcome, environment_gone, stale}
use devpipe.Prelude.{◌∷◌, [], List, some, none, Option, not, Bool, retain, if◌then◌else◌}
use devpipe.Prelude.Text.{codes, text_leb, text_eq, Text}
use devpipe.Prelude.Result.{err, ok, Result}

abbrev pub has_id : Text → EnvInfo → Bool
has_id id e = text_eq e.id id

-- In the place of the environment of that id, or behind the others.
unfoldable pub put_environment : EnvInfo → List EnvInfo → List EnvInfo
put_environment e [] = e ∷ []
put_environment e (x ∷ xs) = if has_id e.id x then e ∷ xs else x ∷ put_environment e xs

abbrev pub insert_by_name : EnvInfo → List EnvInfo → List EnvInfo
insert_by_name e [] = e ∷ []
insert_by_name e (x ∷ xs) = if text_leb e.name x.name then e ∷ x ∷ xs else x ∷ insert_by_name e xs

-- `sort_by`, which is stable.
abbrev pub sort_by_name : List EnvInfo → List EnvInfo
sort_by_name [] = []
sort_by_name (e ∷ es) = insert_by_name e (sort_by_name es)

abbrev pub sorted : HostInfo → HostInfo
sorted h = record h { environments = sort_by_name h.environments }

-- One message, the picture locked: nothing for those that are passed over.
unfoldable pub update : FromServer Text → HostInfo → Option HostInfo
update (FromServer.environment e) h =
    some (sorted (record h { environments = put_environment e h.environments }))
update (environment_gone id) h =
    some (sorted (record h { environments = retain (λ e. not (has_id id e)) h.environments }))
update (welcome version fresh) h = some (sorted fresh)
update _ h = none

-- The picture: by the machine's name, its host or its last words.
abbrev pub Corner : Type 0
Corner = Result Text HostInfo

abbrev pub Picture : Type 0
Picture = List (Text × Corner)

-- `BTreeMap::insert` and `get_mut`.
unfoldable pub insert : Text → Corner → Picture → Picture
insert name c [] = (name, c) ∷ []
insert name c ((n, d) ∷ picture) =
    if text_eq n name
    then (name, c) ∷ picture
    else if text_leb name n
    then (name, c) ∷ (n, d) ∷ picture
    else (n, d) ∷ insert name c picture

unfoldable pub corner : Text → Picture → Option Corner
corner name [] = none
corner name ((n, d) ∷ picture) = if text_eq n name then some d else corner name picture

-- What follows a message: the host is described again, nothing, the painter is told, or the end.
pub data Turn : Type 0 where
  describes ignores repaints breaks : Turn

abbrev pub updated : Text → Option HostInfo → Picture → Picture × Turn
updated name none picture = (picture, ignores)
updated name (some h) picture = (insert name (ok h) picture, repaints)

abbrev pub heard_at : Text → FromServer Text → Option Corner → Picture → Picture × Turn
heard_at name said (some (ok h)) picture = updated name (update said h) picture
heard_at name said _ picture = (picture, breaks)

-- One turn of the loop of `follow_once`.
unfoldable pub hear : Text → FromServer Text → Picture → Picture × Turn
hear name stale picture = (picture, describes)
hear name said picture = heard_at name said (corner name picture) picture

-- How the conversation ends: the machine closes it, or reading or saying fails.
abbrev pub ended_with : Option Text → Result Text (Unit {0})
ended_with none = ok tt
ended_with (some why) = err why

abbrev pub go_on :
    Turn → Picture → Picture × Result Text (Unit {0}) → Picture × Result Text (Unit {0})
go_on breaks picture rest = (picture, ok tt)
go_on _ picture rest = rest

unfoldable pub hear_all :
    Text → List (FromServer Text) → Option Text → Picture → Picture × Result Text (Unit {0})
hear_all name [] ending picture = (picture, ended_with ending)
hear_all name (said ∷ more) ending picture =
    let turn = hear name said picture in
    let rest = hear_all name more ending turn.0 in go_on turn.1 turn.0 rest

-- `follow_once`: `reached` is the machine's first description, `ending` why reading or saying failed.
unfoldable pub follow_once :
    Text
    → Result Text HostInfo
    → List (FromServer Text)
    → Option Text
    → Picture
    → Picture × Result Text (Unit {0})
follow_once name (err why) said ending picture = (picture, err why)
follow_once name (ok host) said ending picture =
    hear_all name said ending (insert name (ok host) picture)

abbrev pub last_words : Result Text (Unit {0}) → Text
last_words (err why) = why
last_words (ok _) = codes "connection closed"

-- One turn of the loop of `follow`.
unfoldable pub follow :
    Text → Result Text HostInfo → List (FromServer Text) → Option Text → Picture → Picture
follow name reached said ending picture =
    let after = follow_once name reached said ending picture in
    insert name (err (last_words after.1)) after.0
