-- ===== src/Ledger/Snapshot.antt =====
-- The snapshot of `RoomEventLedger` (src/network/room-events.ts) and its types. Optional fields are
-- options; `roomId` has one value and is left out.
use Prim.Native.Nat.{Ordering}
use dsh_carbonclub.Base.{
  ℕ, ◌+◌, String, Option, none, some, List, [], ◌∷◌, ◌++◌, map, last, take, length, same,
  if◌then◌else◌,
}
use dsh_carbonclub.Base.Dict.{Dict}
use dsh_carbonclub.Base.Dict
use dsh_carbonclub.Base.Keys.{keys}
use dsh_carbonclub.Rules
use dsh_carbonclub.Types.{
  RoomProfile, Payload, hall_checkpoint, HallCheckpoint, RoomEvent, RoomMessage,
}
use dsh_carbonclub.Hall.Defs.{Participant, Seat, Hall, last_active, people}
use dsh_carbonclub.Hall.Derive.{derive, profile_reference}
use dsh_carbonclub.Ledger.Defs.{Ledger, to_list, expire_presence_indexes}
use dsh_carbonclub.Ledger.Accept.{seated_ids, unique}

pub record HallParticipant : Type 0 where
  pub peer_id : String
  pub profile : RoomProfile
  pub joined_at : ℕ

pub record HallSeat : Type 0 where
  pub participant : HallParticipant
  pub seated_at : ℕ
  pub last_spoke_at : Option ℕ
  pub lease_expires_at : ℕ
  pub idle_expires_at : ℕ

pub record SeenCheckpoint : Type 0 where
  pub payload : HallCheckpoint
  pub issued_at : ℕ

pub record RoomSnapshot : Type 0 where
  pub seats : List (Option HallSeat)
  pub queue : List HallParticipant
  pub queue_count : ℕ
  pub participant_count : ℕ
  pub capacity : ℕ
  pub local_queue_position : Option ℕ
  pub messages : List RoomMessage
  pub profiles : Dict RoomProfile
  pub avatars : Dict String
  pub cursor : ℕ
  pub checkpoint : Option SeenCheckpoint
  pub updated_at : ℕ

abbrev pub show_participant : Participant → HallParticipant
show_participant p = record {
  peer_id = p.peer_id;
  profile = profile_reference p.profile;
  joined_at = p.joined_at;
}

abbrev pub show_seat : Option Seat → Option HallSeat
show_seat none = none
show_seat (some s) = some (record {
  participant = show_participant s.participant;
  seated_at = s.seated_at;
  last_spoke_at = s.last_spoke_at;
  lease_expires_at = s.seated_at + Rules.max_lease_ms;
  idle_expires_at = last_active s + Rules.idle_ms;
})

-- `Object.fromEntries` of the entries of some keys that are there.
unfoldable pub select : {V : Type 0} → List String → Dict V → Dict V
select [] dict = []
select (key ∷ rest) dict =
    let others = select rest dict in
    elim (Dict.get key dict) [ none ↦ others | some value ↦ (key, value) ∷ others ]

-- The avatar content ids of some profiles.
unfoldable pub avatar_cids : Dict RoomProfile → List String
avatar_cids [] = []
avatar_cids ((_, profile) ∷ profiles) = to_list profile.avatar_cid ++ avatar_cids profiles

-- `findIndex(...) + 1`, `undefined` where it is 0.
unfoldable pub queue_position : String → List Participant → Option ℕ
queue_position peer [] = none
queue_position peer (p ∷ queue) =
    if same p.peer_id peer
    then some 1
    else elim (queue_position peer queue) [ none ↦ none | some n ↦ some (n + 1) ]

abbrev pub checkpoint_of : RoomEvent → Payload → Option SeenCheckpoint
checkpoint_of e (hall_checkpoint payload) =
    some (record { payload = payload; issued_at = e.issued_at })
checkpoint_of e _ = none

unfoldable pub seen_checkpoint : Ledger → Option SeenCheckpoint
seen_checkpoint l = elim l.latest_checkpoint_event_id [
  | none ↦ none
  | some id ↦ elim (Dict.get id l.event_by_id) [ none ↦ none | some e ↦ checkpoint_of e e.payload ]
]

-- Whom a snapshot shows profiles of.
unfoldable pub relevant_origins : Hall → List RoomMessage → Option String → List String
relevant_origins h messages none = keys h.profiles
relevant_origins h messages (some viewer) =
    unique (seated_ids h.seats ++ (map (λ m. m.origin) messages ++ viewer ∷ []))

abbrev pub shown_messages : Hall → Option String → List RoomMessage
shown_messages h none = h.messages
shown_messages h (some viewer) = last Rules.client_message_window h.messages

abbrev pub shown_queue : Hall → Option String → List HallParticipant
shown_queue h none = map show_participant h.queue
shown_queue h (some viewer) = take Rules.client_queue_preview (map show_participant h.queue)

abbrev pub viewer_position : Hall → Option String → Option ℕ
viewer_position h none = none
viewer_position h (some viewer) = queue_position viewer h.queue

-- The snapshot of a derived hall.
unfoldable pub show_hall : Ledger → Hall → Option String → RoomSnapshot
unfolding relevant_origins select avatar_cids seen_checkpoint queue_position
show_hall l h viewer =
    let messages = shown_messages h viewer in
    let profiles = select (relevant_origins h messages viewer) h.profiles in
    record {
      seats = map show_seat h.seats;
      queue = shown_queue h viewer;
      queue_count = length h.queue;
      participant_count = people h;
      capacity = Rules.capacity;
      local_queue_position = viewer_position h viewer;
      messages = messages;
      profiles = profiles;
      avatars = select (unique (avatar_cids profiles)) h.avatars;
      cursor = l.revision;
      checkpoint = seen_checkpoint l;
      updated_at = h.updated_at;
    }

unfoldable pub snapshot :
    (String → String → Ordering) → Ledger → ℕ → Option String → Ledger × RoomSnapshot
unfolding show_hall
snapshot locale_compare l now viewer =
    let l' = expire_presence_indexes l now in
    (l', show_hall l' (derive locale_compare l'.events now) viewer)
