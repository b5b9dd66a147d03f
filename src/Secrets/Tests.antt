-- ===== src/Secrets/Tests.antt =====
-- The tests of devpipe/src/secrets.rs as evaluations, and the theorems at concrete inputs.
use devpipe.Secrets.{parse_line, lines_from, unquote, lines, valid_key, load, parse}
use devpipe.Prelude.{refl, [], ◌∷◌, ◌≡◌, some, Option}
use devpipe.Prelude.Text.{codes, Text}
use devpipe.Prelude.Text.Trim.{trim}

keeps_equals : parse (codes "TOKEN=abc=def==\n") ≡ (codes "TOKEN", codes "abc=def==") ∷ []
unfolding parse lines lines_from parse_line valid_key unquote trim
keeps_equals = refl

abbrev two_secrets : Option Text
two_secrets = some (codes "# a note\n\nA=1\n  \nB='x y'\n")

two_secrets_loaded : load two_secrets ≡ (codes "A", codes "1") ∷ (codes "B", codes "x y") ∷ []
unfolding load parse lines lines_from parse_line valid_key unquote trim
two_secrets_loaded = refl
