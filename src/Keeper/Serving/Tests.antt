-- ===== src/Keeper/Serving/Tests.antt =====
-- An attached client at a session that prints one marker over two chunks, and one that joins a session
-- while it paints.
use devpipe.Proto.Messages.{PaneEvent, titled, resize, exit, open_url, Json}
use devpipe.Keeper.Serving
use devpipe.Keeper.Serving.{attached, Seen, chunk, lagged, woken, gone}
use devpipe.Marker.{feed, new}
use devpipe.Prelude.{
  map, ◌++◌, ◌∷◌, [], List, some, none, Option, false, true, refl, ◌≡◌, ◌⊎◌, suc, zero, ℕ, drop,
  take,
}
use devpipe.Prelude.Text.{codes}
use devpipe.Keeper.Serving.Attached.{attached-requests, scanned, marker_url, output, requests}
use devpipe.Keeper.Serving.Joined.{
  Client, Join, subscribed, screened, received, subscribes, acts, screens, receives,
}
use devpipe.Keeper.Serving.Joined.Output.{joined-output}
use devpipe.Session
use devpipe.Session.{
  Terminal, Run, at_pump, reading, new_session, read_one, send, bytes, reads, sends, replay,
}
use devpipe.Session.Mirror.{in_hand, painted, resized, feed_all}
use devpipe.Marker.Chunks.{concat}

write_event : PaneEvent → List ℕ
write_event exit = []
write_event (resize cols rows) = 0 ∷ cols ∷ rows ∷ []
write_event (titled title) = 1 ∷ title
write_event (open_url url) = 2 ∷ url

read_event : List ℕ → Option PaneEvent
read_event [] = some exit
read_event (zero ∷ cols ∷ rows ∷ []) = some (resize cols rows)
read_event (suc zero ∷ title) = some (titled title)
read_event (suc (suc zero) ∷ url) = some (open_url url)
read_event _ = none

read_event-write_event : (e : PaneEvent) → read_event (write_event e) ≡ some e
unfolding read_event write_event
read_event-write_event exit = refl
read_event-write_event (resize cols rows) = refl
read_event-write_event (titled title) = refl
read_event-write_event (open_url url) = refl

abbrev event_json : Json PaneEvent
event_json = record {
  to_vec = write_event;
  from_slice = read_event;
  from_slice-to_vec = read_event-write_event;
}

abbrev shell : Serving.Session
shell = record {
  id = codes "s1";
  argv = codes "sh" ∷ [];
  title = codes "sh";
  cols = 80;
  rows = 24;
  alive = true;
  screen = codes "$ ";
}

-- A marker that is cut in the middle.
abbrev seen : List Seen
seen =
    chunk (27 ∷ codes "]9998;devpipe;open;https:")
    ∷ woken
    ∷ chunk (codes "//x/" ++ 7 ∷ [])
    ∷ gone
    ∷ []

attached-requests_example :
    requests event_json (attached event_json shell seen false (codes "bye" ∷ []))
    ≡ map marker_url (feed new (concat (scanned seen))).1
attached-requests_example = attached-requests event_json shell seen false (codes "bye" ∷ [])

-- A terminal that keeps what it is fed.
abbrev plain : Terminal (List ℕ)
plain = record {
  terminal_new = λ cols rows. [];
  feed = λ chunk m. m ++ chunk;
  resize_to = λ cols rows m. m;
  cols = λ m. 80;
  rows = λ m. 24;
  title_of = λ m. [];
  screen_as_ansi = λ m. m;
}

abbrev quiet : Session.Session (List ℕ)
quiet = at_pump (reading true) (
    new_session plain (codes "/bin/sh") (codes "s1") (record { argv = []; env = []; cwd = none }) 80
      24)

-- The session paints `hi`, the client takes the screen before that is sent, and gets it again.
abbrev painted_hi : Session.Session (List ℕ)
painted_hi = read_one plain true (bytes (codes "hi")) quiet

abbrev sent_hi : Session.Session (List ℕ)
sent_hi = send true (codes "hi") painted_hi

abbrev shown_hi : Client (List ℕ)
shown_hi =
    received (codes "hi")
      (record (screened plain (record (subscribed quiet) { session = painted_hi })) {
        session = sent_hi;
      })

joining : Join plain quiet shown_hi
unfolding screened at_pump read_one send new_session
joining =
    receives (codes "hi")
      (acts (screens (acts subscribes (reads true (bytes (codes "hi")) refl)) refl)
        (sends true (codes "hi") refl))
      refl refl

not_due : shown_hi.due ≡ false
unfolding received screened
not_due = refl

saw_twice : shown_hi.got ≡ lagged (codes "hi") ∷ chunk (codes "hi") ∷ []
unfolding received screened replay read_one at_pump new_session
saw_twice = refl

joined-output_example :
    (g : Session.Session (List ℕ)) × (after : Run plain g shown_hi.session) × (earlier : List ℕ)
    × (chunks : List (List ℕ)) × (from : ℕ) × (output (
          attached event_json
            (record shell { screen = codes "hi" })
            (chunk (codes "hi") ∷ gone ∷ [])
            false
            (take 5 (drop shown_hi.place shown_hi.session.sent)))
        ≡ earlier ++ (replay plain g ++ concat chunks))
    × (chunks
          ++ (drop 5 (drop shown_hi.place shown_hi.session.sent) ++ in_hand shown_hi.session.pump)
        ≡ (drop from g.sent ++ in_hand g.pump) ++ painted plain after)
    × ((resized plain after ≡ true)
        ⊎ (shown_hi.session.mirror ≡ feed_all plain (painted plain after) g.mirror))
joined-output_example =
    joined-output plain event_json shell (codes "hi") (chunk (codes "hi") ∷ []) false false 5
      joining not_due saw_twice
