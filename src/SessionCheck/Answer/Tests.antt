-- ===== src/SessionCheck/Answer/Tests.antt =====
-- An answer in two reads, of a server that keeps the connection open, and a header line that cannot be
-- cut behind its fifteenth byte.
use devpipe.Prelude.Text.Utf8.{from_utf8}
use devpipe.Secrets.{lines, lines_from}
use devpipe.Prelude.Text.Decimal.{parse_below}
use devpipe.Prelude.Text.Trim.{trim}
use devpipe.SessionCheck.Answer.{content_length, gather, panicked, length_line}
use devpipe.Prelude.{arith, ◌++◌, ◌∷◌, [], List, some, none, Option, refl, ◌≡◌, ℕ, drop, take}
use devpipe.Prelude.Text.{codes}
use devpipe.SessionCheck.Answer.Bounds.{gather-IsRead, stream, IsRead}
use devpipe.Prelude.Result.{ok, err}

cut_inside_a_letter : length_line (codes "x-greeting: ab€ and more") ≡ err panicked
cut_inside_a_letter = refl

abbrev whole_answer : List ℕ
whole_answer =
    codes "HTTP/1.1 200 OK" ++ 13 ∷ 10 ∷ codes "Content-Length: 2" ++ 13 ∷ 10 ∷ 13 ∷ 10 ∷ codes "{}"

abbrev reads : List (Option (List ℕ))
reads = some (take 25 whole_answer) ∷ some (drop 25 whole_answer) ∷ none ∷ []

gathered : gather [] none reads ≡ ok whole_answer
unfolding gather content_length from_utf8 lines lines_from parse_below trim
gathered = refl

gather-IsRead_example : IsRead (stream reads) whole_answer
gather-IsRead_example = gather-IsRead [] none reads whole_answer (omega arith) gathered
