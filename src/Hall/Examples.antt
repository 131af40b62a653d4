-- ===== src/Hall/Examples.antt =====
-- Runs of the derivation, and the theorems at a small history.
use Prim.Native.Nat.{Ordering}
use dsh_carbonclub.Base.{
  ℕ, ◌≡◌, refl, String, none, List, [], ◌∷◌, map, All, same, any, keep, every,
}
use dsh_carbonclub.Base.Dict
use dsh_carbonclub.Base.Sort.{sort_by}
use dsh_carbonclub.Types.{RoomProfile, join, Payload, chat_message, hall_presence, RoomEvent}
use dsh_carbonclub.Hall.Defs.{people, advance, has_participant}
use dsh_carbonclub.Hall.Derive.{derive}
use dsh_carbonclub.Hall.Expiry.{Ends, advance-Ends}
use dsh_carbonclub.Hall.Moves.{IsHall}
use dsh_carbonclub.Hall.Invariant.{derive-IsHall}
use dsh_carbonclub.Hall.Chat.{IsChat, derive-IsChat}
use dsh_carbonclub.Hall.Live.{IsLive, IsPresent, derive-IsLive}

-- An order that takes all texts for equal, as `localeCompare` may.
abbrev pub no_order : String → String → Ordering
no_order a b = Ordering.eq

abbrev pub event : String → String → ℕ → ℕ → Payload → RoomEvent
event id origin sequence issued_at payload = record {
  event_id = id;
  origin = origin;
  sequence = sequence;
  issued_at = issued_at;
  public_key = "key";
  payload = payload;
  signature = "signature";
}

abbrev pub profile : String → RoomProfile
profile name = record {
  name = name;
  avatar_url = none;
  avatar_cid = none;
  last_completed_session = none;
}

abbrev pub joins : String → ℕ → Payload
joins name at = hall_presence (join (profile name) at (record { epoch = 0; nonce = 0 }))

-- Two peers join and talk; the second one's third message in a row is refused.
abbrev pub history : List RoomEvent
history =
    event "m3" "ben" 4 40_000 (chat_message "three")
    ∷ event "j1" "ann" 1 1_000 (joins "Ann" 1_000)
    ∷ event "j2" "ben" 1 2_000 (joins "Ben" 2_000)
    ∷ event "m1" "ben" 2 10_000 (chat_message "one")
    ∷ event "m2" "ben" 3 20_000 (chat_message "two")
    ∷ []

program : Unit {0}
unfolding derive advance same any keep every sort_by has_participant Dict.get
program = tt

history_messages : map (λ m. m.id) (derive no_order history 50_000).messages ≡ "m1" ∷ "m2" ∷ []
unfolding program
history_messages = refl

-- Both fall silent and lose their seats: Ann's presence ends at 121000, Ben's at 122000.
history-people :
    map (λ now. people (derive no_order history now)) (120_999 ∷ 121_000 ∷ 122_000 ∷ [])
    ≡ 2 ∷ 1 ∷ 0 ∷ []
unfolding program
history-people = refl

history_present : people (derive no_order history 50_000) ≡ 2
unfolding program
history_present = refl

derive-IsHall_example : IsHall (derive no_order history 50_000)
derive-IsHall_example = derive-IsHall no_order history 50_000

derive-IsChat_example : IsChat (derive no_order history 50_000)
derive-IsChat_example = derive-IsChat no_order history 50_000

derive-IsLive_example :
    All (IsLive 50_000) (derive no_order history 50_000).seats
    × All (IsPresent 50_000) (derive no_order history 50_000).queue
derive-IsLive_example = derive-IsLive no_order history 50_000

advance-Ends_example :
    Ends 121_000 (derive no_order history 50_000) (advance (derive no_order history 50_000) 121_000)
advance-Ends_example = advance-Ends (derive no_order history 50_000) 121_000
