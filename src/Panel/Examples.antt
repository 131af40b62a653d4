-- ===== src/Panel/Examples.antt =====
-- The panel's merge at small inputs.
use dsh_carbonclub.Base.{ℕ, String, ◌≡◌, refl, true, false, none, some, List, [], ◌∷◌, map, same}
use dsh_carbonclub.Base.Dict
use dsh_carbonclub.Base.Keys.{values}
use dsh_carbonclub.Base.Sort.{sort_by}
use dsh_carbonclub.Types.{RoomMessage}
use dsh_carbonclub.Hall.Examples.{no_order, event, joins}
use dsh_carbonclub.Ledger.Defs.{Ledger, new_ledger}
use dsh_carbonclub.Ledger.Accept.{Engine}
use dsh_carbonclub.Ledger.Snapshot.{snapshot}
use dsh_carbonclub.Panel.Merge.{merge_messages, set_messages, message_less}
use dsh_carbonclub.Types.{online}
use dsh_carbonclub.Panel.Store.{
  Store, ticket, threw, answer_refresh, post_network_message, begin_post,
}
use dsh_carbonclub.Panel.Stale.{next, here, posts, post_began, answer_refresh-overtaken}
use dsh_carbonclub.Base.{any, keep, every}
use dsh_carbonclub.Base.Total.{total}
use dsh_carbonclub.Hall.Defs.{advance, has_participant}
use dsh_carbonclub.Hall.Derive.{derive}
use dsh_carbonclub.Ledger.Defs.{expire_presence_indexes}
use dsh_carbonclub.Ledger.Snapshot.{
  RoomSnapshot, show_hall, relevant_origins, select, seen_checkpoint, queue_position,
}
use dsh_carbonclub.Types.{chat_message}

abbrev message : String → ℕ → RoomMessage
message id at = record { id = id; origin = "ann"; sequence = at; sent_at = at; body = "hello" }

abbrev old : List RoomMessage
old = message "m1" 10 ∷ message "m2" 20 ∷ []

-- One message is known, the other is older than the last one.
abbrev new : List RoomMessage
new = message "m2" 20 ∷ message "m0" 15 ∷ []

program : Unit {0}
unfolding merge_messages set_messages message_less sort_by values Dict.set same
program = tt

merged_ids : map (λ m. m.id) (merge_messages no_order old new) ≡ "m1" ∷ "m0" ∷ "m2" ∷ []
unfolding program
merged_ids = refl

abbrev engine : Engine
engine = record { locale_compare = no_order; text_less = λ a b. false; digest = λ c. "digest" }

-- A ledger with one join.
abbrev joined : Ledger
joined = record new_ledger {
  events = event "j1" "ann" 1 1_000 (joins "Ann" 1_000) ∷ [];
  revision = 1;
}

-- Ben has said something since.
abbrev said : Ledger
said = record joined {
  events =
      event "j1" "ann" 1 1_000 (joins "Ann" 1_000)
      ∷ event "m1" "ann" 2 10_000 (chat_message "one")
      ∷ [];
  revision = 2;
  revisions = ("j1", 1) ∷ ("m1", 2) ∷ [];
}

abbrev before : RoomSnapshot
before = (snapshot no_order joined 2_000 (some "ann")).1

reading : Unit {0}
unfolding snapshot show_hall expire_presence_indexes derive advance same any keep every sort_by
    has_participant Dict.get total relevant_origins select queue_position seen_checkpoint
reading = tt

abbrev asked : Store
asked = record {
  status = record {
    phase = online;
    local_peer_id = some "ann";
    dial_addresses = [];
    connected_peers = 1;
    discovered_peers = 1;
    bootstrap_configured = 0;
    relay_addresses = 0;
    failure = none;
  };
  room = none;
  invite = none;
  busy = none;
  posting = false;
  action_error = none;
  binding = 1;
  room_version = 4;
  has_remote = true;
}

-- A message is posted and its turn comes before the refresh is answered.
answer_refresh-overtaken_example :
    answer_refresh no_order
      (begin_post 1 (post_network_message asked))
      (ticket asked)
      (threw "timeout")
    ≡ begin_post 1 (post_network_message asked)
unfolding post_network_message
answer_refresh-overtaken_example =
    answer_refresh-overtaken no_order {s = asked} (threw "timeout") (next here (posts asked))
      (post_began (post_network_message asked)) here
