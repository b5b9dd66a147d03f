-- ===== src/Relay/Tests.antt =====
-- A relay with one account's two keys, and the theorems at it.
use Prim.Native.String.{String}
use devpipe.Keys.{account_from, Key, Can, enrol, reach, account_for, hash_of}
use devpipe.Relay.Invariant.{
  Reach-Rightful, Rightful, OneEach, here, next, greets, puts_through, dials,
}
use devpipe.Prelude.{◌∷◌, [], some, none, false, true, refl, ◌≡◌, All, find, retain}
use devpipe.Relay.{
  reaching, dial, already_enrolled, no_such_ticket, enrolled, offer, reach_machine, enrol_as,
  refuse, has_ticket, dialled, introduce, put_through, new_relay, hold, online, claim, greet,
  Waiting, Given, Relay,
}
use devpipe.Keys.Tests.{key_json, digest}
use devpipe.Prelude.Text.{text_eq, codes}
use devpipe.Relay.Access.{others_unseen}
use devpipe.Relay.Tickets.{of_ticket}
use devpipe.Relay.Tickets.Once.{claim_once}
use devpipe.Relay.Leak.{enrolment_lost}

abbrev key_of : String → Can → Key
key_of token can = record {
  hash = hash_of digest (codes token);
  account = codes "wess";
  can = can;
  note = [];
}

abbrev start_relay : Relay
start_relay = new_relay (record {
  keys = key_of "box" enrol ∷ key_of "lap" reach ∷ [];
  disk = record { file = none; scratch = none };
})

abbrev given : Given digest key_json
given = record {
  verifies = false;
  session = none;
  ticket = codes "t1";
  token = codes "k1";
  sends = true;
  revoke_fails = λ hash. none;
  grant_fails = none;
}

abbrev with_box : Relay
with_box = greet digest key_json given 1 (enrol_as (codes "box-a") (codes "box")) start_relay

abbrev asked : Relay
asked = greet digest key_json given 2 (reach_machine (codes "lap") (codes "box-a")) with_box

abbrev wanted : Waiting
wanted = record {
  ticket = codes "t1";
  client = 2;
  account = codes "wess";
  machine = codes "box-a";
  dial = 1;
}

abbrev met : Relay
met = greet digest key_json given 3 (offer (codes "t1")) (dialled wanted asked)

abbrev talks : Relay
talks = put_through true wanted 3 met

the_whole_talk :
    talks.said
    ≡ (1, enrolled (codes "box-a")) ∷ (1, dial (codes "t1")) ∷ (2, reaching (codes "box-a")) ∷ []
unfolding greet hold introduce dialled claim put_through account_for account_from
the_whole_talk = refl

came : find (λ c. has_ticket (codes "t1") c.0) met.claimed ≡ some (wanted, 3)
unfolding greet hold introduce dialled claim account_for account_from
came = refl

Reach-Rightful_example :
    OneEach talks.machines
    × All (λ c. Rightful talks.ever c.0) talks.claimed
    × All (λ c. Rightful talks.ever c.0) talks.spliced
Reach-Rightful_example = Reach-Rightful digest key_json start_relay.keys talks (
    next
      (next
        (next
          (next (next here (greets given 1 (enrol_as (codes "box-a") (codes "box"))))
            (greets given 2 (reach_machine (codes "lap") (codes "box-a"))))
          (dials wanted))
        (greets given 3 (offer (codes "t1"))))
      (puts_through true wanted 3 (codes "t1") came))

waits : find (has_ticket (codes "t1")) asked.pending ≡ some wanted
unfolding greet hold introduce account_for account_from
waits = refl

-- The first is taken and put through, and then the ticket is offered again.
abbrev taken : Relay
taken = claim 3 (codes "t1") asked

abbrev copying : Relay
copying = put_through true wanted 3 taken

came_first : find (λ c. has_ticket (codes "t1") c.0) taken.claimed ≡ some (wanted, 3)
unfolding greet hold introduce claim account_for account_from
came_first = refl

nobody_yet : of_ticket (codes "t1") asked.claimed ≡ []
unfolding greet hold introduce account_for account_from
nobody_yet = refl

claim_once_example : claim 4 (codes "t1") copying ≡ refuse 4 no_such_ticket copying
claim_once_example =
    (claim_once digest key_json asked (codes "t1") wanted 3 waits nobody_yet
      (next here (puts_through true wanted 3 (codes "t1") came_first)) refl 4).1

others_unseen_example :
    online (codes "wess") (retain (λ e. text_eq e.account (codes "wess")) with_box.machines)
    ≡ online (codes "wess") with_box.machines
others_unseen_example = (others_unseen 2 (codes "t1") (codes "wess") (codes "box-a") with_box).0

enrolment_lost_example :
    hold true 5
      (codes "wess")
      (codes "box-a")
      (hold false 1 (codes "wess") (codes "box-a") start_relay)
    ≡ refuse 5
        (already_enrolled (codes "box-a"))
        (hold false 1 (codes "wess") (codes "box-a") start_relay)
enrolment_lost_example =
    enrolment_lost digest key_json 1 (codes "wess") (codes "box-a") start_relay
      (hold false 1 (codes "wess") (codes "box-a") start_relay) refl refl here true 5
