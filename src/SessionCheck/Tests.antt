-- ===== src/SessionCheck/Tests.antt =====
-- The session check at concrete inputs.
use devpipe.SessionCheck.{clean_agent, request_text, crlf, request, cookie_named, Asking, parse}
use devpipe.Prelude.{◌++◌, some, ◌⊎◌, refl, ◌≡◌}
use devpipe.Prelude.Text.Decimal.{parse_u16}
use devpipe.Prelude.Text.{Text, codes}
use devpipe.SessionCheck.Safety.{parse-loopback}
use devpipe.Prelude.Result.{ok}
use devpipe.Prelude.Text.Trim.{trim}

abbrev app : Asking
app = record { host = codes "127.0.0.1"; port = 3000; path = codes "/api/auth/me" }

app_parsed : parse (codes "http://127.0.0.1:3000/api/auth/me") ≡ ok app
unfolding parse parse_u16
app_parsed = refl

one_of_three :
    cookie_named (codes "a=1; dp_session=xyz; b=2") (codes "dp_session") ≡ some (codes "xyz")
unfolding cookie_named trim
one_of_three = refl

parse-loopback_example : (app.host ≡ codes "127.0.0.1") ⊎ (app.host ≡ codes "localhost")
parse-loopback_example = parse-loopback (codes "http://127.0.0.1:3000/api/auth/me") app app_parsed

forged : Text
forged = codes "Safari" ++ crlf ++ codes "X-Admin: yes"

written :
    request app (codes "dp_session=x") forged
    ≡ ok (request_text app (codes "dp_session=x") (clean_agent forged))
unfolding request
written = refl
