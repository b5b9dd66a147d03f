-- ===== src/Session/Tests.antt =====
-- A session at concrete inputs: a terminal that keeps the chunks, and a child that echoes.
use devpipe.Session.{
  reading, reap, kill, read_one, send, at_pump, drained, woke, wake, write_out, look, peek, write,
  write_if_writable, typed, new_session, Ready, Session, writes, kills, wakes, looks, peeks,
  is_woken, reads, sends, writes_out, reaps, here, next, took, bytes, Terminal, Run,
}
use devpipe.Prelude.{arith, ◌++◌, ◌∷◌, [], List, some, none, not, false, true, refl, ◌≡◌, ℕ}
use devpipe.Backend.{Entry}
use devpipe.Prelude.Text.{is_empty, codes}
use devpipe.Session.Bytes.{Run-typed}
use devpipe.Session.Mirror.{Run-Follows, in_hand, painted, feed_all}
use devpipe.Session.Wakes.{Run-IsHeeded}
use devpipe.Session.Ending.{Run-told_last}

abbrev plain : Terminal (List (List ℕ))
plain = record {
  terminal_new = λ cols rows. [];
  feed = λ chunk m. m ++ chunk ∷ [];
  resize_to = λ cols rows m. m;
  cols = λ m. 80;
  rows = λ m. 24;
  title_of = λ m. [];
  screen_as_ansi = λ m. [];
}

abbrev shell_entry : Entry
shell_entry = record { argv = []; env = []; cwd = none }

abbrev start : Session (List (List ℕ))
start = new_session plain (codes "/bin/sh") (codes "s1") shell_entry 80 24

abbrev both_ready : Ready
both_ready = record { readable = true; writable = true }

abbrev typed_ls : Session (List (List ℕ))
typed_ls = write (codes "ls") start

abbrev looked : Session (List (List ℕ))
looked = peek (look (wake typed_ls))

abbrev heard_it : Session (List (List ℕ))
heard_it =
    send true (codes "$ ")
      (read_one plain true (bytes (codes "$ ")) (woke false (some both_ready) looked))

abbrev half_written : Session (List (List ℕ))
half_written = write_if_writable true (took 2 1 ∷ []) heard_it

looking : Run plain start looked
unfolding new_session write wake look peek at_pump
looking =
    next (next (next (next here (writes (codes "ls"))) (wakes (omega arith))) (looks refl))
      (peeks refl)

all_along : Run plain start half_written
unfolding new_session write wake look peek at_pump woke read_one send
all_along =
    next
      (next
        (next (next looking (is_woken true false (some both_ready) refl))
          (reads true (bytes (codes "$ ")) refl))
        (sends true (codes "$ ") refl))
      (writes_out true (took 2 1 ∷ []) refl (omega arith, tt))

Run-typed_example : half_written.written ++ half_written.pending ≡ typed all_along
Run-typed_example =
    Run-typed plain (codes "/bin/sh") (codes "s1") shell_entry 80 24 half_written all_along

half : half_written.written ≡ codes "l"
unfolding write_if_writable write_out drained read_one send at_pump woke look peek wake write
    new_session
half = refl

abbrev none_ready : Ready
none_ready = record { readable = false; writable = false }

abbrev round_again : Session (List (List ℕ))
round_again = peek (look (write_if_writable false [] (woke false (some none_ready) looked)))

going_round : Run plain start round_again
unfolding new_session write wake look peek at_pump woke write_if_writable
going_round =
    next
      (next
        (next (next looking (is_woken true false (some none_ready) refl))
          (writes_out false [] refl tt))
        (looks refl))
      (peeks refl)

Run-IsHeeded_example : (round_again.shutdown ≡ false) × (true ≡ not (is_empty round_again.pending))
unfolding new_session write wake look peek at_pump woke write_if_writable
Run-IsHeeded_example =
    Run-IsHeeded plain (codes "/bin/sh") (codes "s1") shell_entry 80 24 round_again true going_round
      refl refl refl

abbrev dead : Session (List (List ℕ))
dead = reap (look (kill start))

dying : Run plain start dead
unfolding new_session kill look at_pump
dying = next (next (next here kills) (looks refl)) (reaps refl)

Run-told_last_example :
    ((write (codes "ls") dead).alive ≡ false)
    × ((write (codes "ls") dead).sent ≡ dead.sent)
    × ((write (codes "ls") dead).written ≡ dead.written)
unfolding reap
Run-told_last_example =
    Run-told_last plain (codes "/bin/sh") (codes "s1") shell_entry 80 24 dead
      (write (codes "ls") dead) dying refl (next here (writes (codes "ls")))

-- A client subscribes, and takes the screen between the mirror and the channel: `$ ` comes to it again.
abbrev about_to_read : Session (List (List ℕ))
about_to_read = at_pump (reading true) start

abbrev in_between : Session (List (List ℕ))
in_between = read_one plain true (bytes (codes "$ ")) about_to_read

abbrev prompted : Session (List (List ℕ))
prompted = send true (codes "$ ") in_between

painting : Run plain about_to_read in_between
unfolding at_pump
painting = next here (reads true (bytes (codes "$ ")) refl)

telling : Run plain in_between prompted
unfolding at_pump read_one
telling = next here (sends true (codes "$ ") refl)

Run-Follows_example :
    (received : List (List ℕ)) × (prompted.sent ≡ about_to_read.sent ++ received)
    × (received ++ in_hand prompted.pump
        ≡ (in_hand about_to_read.pump ++ painted plain painting) ++ painted plain telling)
    × (in_between.sent ++ in_hand in_between.pump
        ≡ about_to_read.sent ++ (in_hand about_to_read.pump ++ painted plain painting))
    × (prompted.mirror ≡ feed_all plain (painted plain telling) in_between.mirror)
unfolding telling
Run-Follows_example = Run-Follows plain about_to_read in_between prompted painting telling refl
