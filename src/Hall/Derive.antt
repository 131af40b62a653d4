-- ===== src/Hall/Derive.antt =====
-- `derive` of src/network/room-events.ts: the hall after a list of events, at a time.
-- `localeCompare` belongs to the JavaScript engine and is a parameter.
use Prim.Native.Nat.{Ordering}
use mathlib.Core.Option.{get_or}
use dsh_carbonclub.Base.{
  ℕ, ◌+◌, max, Bool, true, false, ◌&&◌, ◌||◌, String, Option, none, some, List, [], ◌∷◌, ◌++◌, any,
  last, length, every, ltb, leb, ◌==◌, same, if◌then◌else◌,
}
use dsh_carbonclub.Base.Dict.{Dict}
use dsh_carbonclub.Base.Dict
use dsh_carbonclub.Base.Sort.{sort_by}
use dsh_carbonclub.Rules
use dsh_carbonclub.Types.{
  RoomProfile, HallPresence, join, heartbeat, leave, Payload, chat_message, hall_presence,
  hall_checkpoint, room_sync_request, RoomEvent, RoomMessage,
}
use dsh_carbonclub.Hall.Defs.{
  Participant, Seat, Hall, empty_hall, holds, people, fill_seats, remove_participant, advance,
  has_participant,
}

abbrev pub profile_reference : RoomProfile → RoomProfile
profile_reference profile = record profile { avatar_url = none }

-- The two writes to `profiles` and `avatars` that go with an accepted profile.
unfoldable pub store_profile : Hall → String → RoomProfile → Hall
store_profile h origin profile =
    let avatars : Dict String = elim profile.avatar_cid [
      | none ↦ h.avatars
      | some cid ↦ elim profile.avatar_url [
        | none ↦ h.avatars
        | some url ↦ Dict.set cid url h.avatars
      ]
    ] in
    record h {
      profiles = Dict.set origin (profile_reference profile) h.profiles;
      avatars = avatars;
    }

-- The writes to the participant object that `participantFor` returned.
abbrev pub refreshed : Option RoomProfile → ℕ → Participant → Participant
refreshed profile at p = record p { profile = get_or profile p.profile; last_presence_at = at }

unfoldable pub refresh_seats :
    String → (Participant → Participant) → List (Option Seat) → List (Option Seat)
refresh_seats peer f [] = []
refresh_seats peer f (none ∷ seats) = none ∷ refresh_seats peer f seats
refresh_seats peer f (some s ∷ seats) =
    if same s.participant.peer_id peer
    then some (record s { participant = f s.participant }) ∷ seats
    else some s ∷ refresh_seats peer f seats

unfoldable pub refresh_queue :
    String → (Participant → Participant) → List Participant → List Participant
refresh_queue peer f [] = []
refresh_queue peer f (p ∷ queue) =
    if same p.peer_id peer then f p ∷ queue else p ∷ refresh_queue peer f queue

unfoldable pub refresh : Hall → String → Option RoomProfile → ℕ → Hall
unfolding store_profile refresh_seats refresh_queue
refresh h origin profile at =
    let h' : Hall = elim profile [ none ↦ h | some given ↦ store_profile h origin given ] in
    if any (holds origin) h.seats
    then record h' { seats = refresh_seats origin (refreshed profile at) h.seats }
    else record h' { queue = refresh_queue origin (refreshed profile at) h.queue }

unfoldable pub is_cooling : Hall → String → ℕ → Bool
is_cooling h peer now = ltb now (get_or (Dict.get peer h.cooldown_until) 0)

abbrev pub is_less : Ordering → Bool
is_less Ordering.lt = true
is_less _ = false

abbrev pub is_equal : Ordering → Bool
is_equal Ordering.eq = true
is_equal _ = false

-- The seat found by `seats.find(candidate => candidate?.participant.peerId === origin)`.
unfoldable pub seat_of : String → List (Option Seat) → Option Seat
seat_of peer [] = none
seat_of peer (none ∷ seats) = seat_of peer seats
seat_of peer (some s ∷ seats) =
    if same s.participant.peer_id peer then some s else seat_of peer seats

-- `seat.lastSpokeAt = at` on the seat that `seat_of` finds.
unfoldable pub mark_spoken : String → ℕ → List (Option Seat) → List (Option Seat)
mark_spoken peer at [] = []
mark_spoken peer at (none ∷ seats) = none ∷ mark_spoken peer at seats
mark_spoken peer at (some s ∷ seats) =
    if same s.participant.peer_id peer
    then some (record s { last_spoke_at = some at }) ∷ seats
    else some s ∷ mark_spoken peer at seats

-- The slow mode: `lastSpokeAt !== undefined && issuedAt - lastSpokeAt < slowModeMs`.
unfoldable pub is_too_soon : Seat → ℕ → Bool
is_too_soon s at = elim s.last_spoke_at [ none ↦ false | some t ↦ ltb at (t + Rules.slow_mode_ms) ]

-- The last two messages are there and both are by this peer.
unfoldable pub talks_alone : List RoomMessage → String → Bool
talks_alone messages origin =
    let recent = last Rules.max_consecutive_messages messages in
    (length recent == Rules.max_consecutive_messages) && every (λ m. same m.origin origin) recent

-- `while (messages.length > MAX_RETAINED_MESSAGES) messages.shift()`
unfoldable pub retain : List RoomMessage → List RoomMessage
retain messages = last Rules.max_retained_messages messages

unfoldable pub on_chat : Hall → RoomEvent → String → Hall
unfolding seat_of mark_spoken is_too_soon talks_alone retain
on_chat h e body = elim (seat_of e.origin h.seats) [
  | none ↦ h
  | some s ↦ if is_too_soon s e.issued_at || talks_alone h.messages e.origin then h else record h {
    seats = mark_spoken e.origin e.issued_at h.seats;
    messages = retain (
        h.messages
        ++ record {
          id = e.event_id;
          origin = e.origin;
          sequence = e.sequence;
          sent_at = e.issued_at;
          body = body;
        }
          ∷ []);
  }
]

module _ (locale_compare : String → String → Ordering) where
  unfoldable pub queue_less : Participant → Participant → Bool
  queue_less left right =
      ltb left.joined_at right.joined_at
      || (left.joined_at == right.joined_at) && is_less (locale_compare left.peer_id right.peer_id)

  -- `eventOrder(left, right) < 0`
  unfoldable pub event_less : RoomEvent → RoomEvent → Bool
  event_less left right =
      ltb left.issued_at right.issued_at
      || (left.issued_at == right.issued_at)
        && (is_less (locale_compare left.origin right.origin)
            || is_equal (locale_compare left.origin right.origin)
              && ltb left.sequence right.sequence)

  -- A newcomer goes to the queue, which is sorted, and the seats are filled.
  unfoldable pub admit : Hall → RoomEvent → RoomProfile → ℕ → Hall
  unfolding store_profile queue_less
  admit h e profile joined_at =
      let p : Participant = record {
        peer_id = e.origin;
        profile = profile;
        joined_at = joined_at;
        last_presence_at = e.issued_at;
      } in
      let h' = store_profile h e.origin profile in
      fill_seats (record h' { queue = sort_by queue_less (h.queue ++ p ∷ []) }) e.issued_at

  unfoldable pub on_join : Hall → RoomEvent → RoomProfile → ℕ → Hall
  unfolding refresh is_cooling admit
  on_join h e profile joined_at =
      if has_participant h e.origin
      then refresh h e.origin (some profile) e.issued_at
      else if is_cooling h e.origin e.issued_at
      then h
      else if leb Rules.capacity (people h)
      then h
      else admit h e profile joined_at

  unfoldable pub on_presence : Hall → RoomEvent → HallPresence → Hall
  unfolding on_join refresh
  on_presence h e leave = remove_participant h e.origin e.issued_at false
  on_presence h e (heartbeat profile joined_at) =
      if has_participant h e.origin then refresh h e.origin profile e.issued_at else h
  on_presence h e (join profile joined_at admission) = on_join h e profile joined_at

  unfoldable pub on_payload : Hall → RoomEvent → Payload → Hall
  unfolding on_presence on_chat
  on_payload h e (hall_presence presence) = on_presence h e presence
  on_payload h e (chat_message body) = on_chat h e body
  on_payload h e (hall_checkpoint _) = h
  on_payload h e (room_sync_request _) = h

  -- The body of the loop over the events.
  unfoldable pub step : Hall → RoomEvent → Hall
  unfolding on_payload
  step h e =
      let h' = advance h e.issued_at in
      on_payload (record h' { updated_at = max h'.updated_at e.issued_at }) e e.payload

  unfoldable pub run : Hall → List RoomEvent → Hall
  unfolding step
  run h [] = h
  run h (e ∷ events) = run (step h e) events

  unfoldable pub derive : List RoomEvent → ℕ → Hall
  unfolding run event_less
  derive events now = advance (run empty_hall (sort_by event_less events)) now
