-- ===== src/Node/SessionExamples.antt =====
-- A node that joins the hall and posts a message, and the theorems at it.
use dsh_carbonclub.Base.{ℕ, ◌≡◌, refl, true, false, none, some, same, any, find, keep}
use dsh_carbonclub.Base.Dict
use dsh_carbonclub.Base.Keys.{keys, values, mem}
use dsh_carbonclub.Base.Sort.{sort_by}
use dsh_carbonclub.Base.Result.{ok}
use dsh_carbonclub.Types.{
  join, heartbeat, leave, chat_message, hall_presence, RoomEvent, RoomMessage,
}
use dsh_carbonclub.Hall.Defs.{advance, has_participant}
use dsh_carbonclub.Hall.Derive.{derive}
use dsh_carbonclub.Hall.Examples.{no_order, event, profile}
use dsh_carbonclub.Ledger.Defs.{new_ledger, expire_presence_indexes, prune}
use dsh_carbonclub.Ledger.Accept.{Engine, is_admissible, store_event, index_event, append_event}
use dsh_carbonclub.Ledger.Snapshot.{snapshot}
use dsh_carbonclub.Ledger.Calls.{answer, accept, admission_error}
use dsh_carbonclub.Node.Peers.{presence_action_for, next_sequence}
use dsh_carbonclub.Node.Admitted.{is_admitted}
use dsh_carbonclub.Node.Session.{
  Session, EventInput, join_input, heartbeat_input, leave_input, message_input, Outlet,
  content_address_profile, profile_equals, clear_local_presence, is_changed, room_snapshot, settle,
  announce, present, join_hall, speak_as, post_with, publish_hall_message,
}
use dsh_carbonclub.Node.Sessions.{IsSettled, join_hall-IsSettled}
use dsh_carbonclub.Node.Posted.{IsSaid, publish_hall_message-IsSaid}

abbrev engine : Engine
engine = record { locale_compare = no_order; text_less = λ a b. false; digest = λ c. "digest" }

abbrev signed : EventInput → ℕ → ℕ → RoomEvent
signed (join_input p at) sequence now =
    event "j1" "ann" sequence now (hall_presence (join p at (record { epoch = 0; nonce = 0 })))
signed (heartbeat_input p at) sequence now =
    event "h1" "ann" sequence now (hall_presence (heartbeat p at))
signed leave_input sequence now = event "l1" "ann" sequence now (hall_presence leave)
signed (message_input body) sequence now = event "m1" "ann" sequence now (chat_message body)

abbrev outlet : Outlet
outlet = record {
  avatar_digest = λ url. url;
  signs = λ input sequence now. some (signed input sequence now);
  publishes = λ event. true;
}

abbrev idle : Session
idle = record {
  peer_id = "ann";
  ledger = new_ledger;
  local_presence = none;
  last_join_at = 0;
  has_heartbeat = false;
  local_sequence = 0;
}

program : Unit {0}
unfolding join_hall present announce settle room_snapshot clear_local_presence
    content_address_profile is_changed profile_equals speak_as post_with publish_hall_message
    presence_action_for next_sequence is_admitted accept answer snapshot admission_error
    is_admissible store_event index_event append_event prune expire_presence_indexes derive advance
    sort_by has_participant any find same keep Dict.get Dict.has Dict.set Dict.delete keys values
    mem
program = tt

abbrev inside : Session
unfolding program
inside = (join_hall engine outlet idle (profile "Ann") 1_000 1_000).0

is_inside : inside.has_heartbeat ≡ true
unfolding program inside
is_inside = refl

join_hall-IsSettled_example :
    IsSettled
      (join_hall engine outlet idle (profile "Ann") 1_000 1_000).0
      (join_hall engine outlet idle (profile "Ann") 1_000 1_000).1
join_hall-IsSettled_example = join_hall-IsSettled engine outlet idle (profile "Ann") 1_000 1_000

abbrev hello : RoomMessage
hello = record {
  id = "m1";
  origin = "ann";
  sequence = 20_000_000;
  sent_at = 20_000;
  body = "hello";
}

posts : (publish_hall_message engine outlet inside "hello" 20_000 20_000).1 ≡ ok hello
unfolding program inside
posts = refl

publish_hall_message-IsSaid_example :
    IsSaid engine outlet inside
      (publish_hall_message engine outlet inside "hello" 20_000 20_000).0
      inside.local_presence
      "hello"
      20_000
      20_000
      hello
publish_hall_message-IsSaid_example =
    publish_hall_message-IsSaid engine outlet inside "hello" 20_000 20_000 hello posts
