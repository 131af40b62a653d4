-- ===== src/Ledger/Calls.antt =====
-- The calls of `RoomEventLedger` (src/network/room-events.ts) that answer with something it shows:
-- `accept`, `delta`, `evidence`, `admissionError`, `eventsForSync`, `diagnostics`.
use mathlib.Core.Option.{get_or}
use dsh_carbonclub.Base.{
  ◌==◌, ℕ, ◌+◌, Bool, true, false, ◌&&◌, ◌||◌, String, Option, none, some, List, [], ◌∷◌, ◌++◌, map,
  keep, find, last, length, ltb, leb, min, same, if◌then◌else◌,
}
use dsh_carbonclub.Base.Dict.{Dict}
use dsh_carbonclub.Base.Dict
use dsh_carbonclub.Base.Keys.{mem}
use dsh_carbonclub.Base.Sort.{sort_by}
use dsh_carbonclub.Rules
use dsh_carbonclub.Types.{Payload, chat_message, hall_presence, RoomEvent, RoomMessage}
use dsh_carbonclub.Hall.Defs.{Hall, people, has_participant}
use dsh_carbonclub.Hall.Derive.{derive, is_cooling, event_less}
use dsh_carbonclub.Ledger.Defs.{
  Ledger, is_sync_request, is_chat, to_list, expire_presence_indexes, recent_chat_ids,
}
use dsh_carbonclub.Ledger.Accept.{Engine, is_admissible, store_event, participant_ids, unique}
use dsh_carbonclub.Ledger.Snapshot.{HallSeat, RoomSnapshot, select, avatar_cids, snapshot}

pub record RoomDelta : Type 0 where
  pub snapshot : RoomSnapshot
  pub reset : Bool

pub data AdmissionError : Type 0 where
  hall_cooldown hall_full : AdmissionError

unfoldable pub admission_error_in : Hall → String → ℕ → Option AdmissionError
admission_error_in h peer now =
    if has_participant h peer
    then none
    else if is_cooling h peer now
    then some hall_cooldown
    else if leb Rules.capacity (people h)
    then some hall_full
    else none

-- The revision of an event, for the events of the list.
unfoldable pub revision_of : Ledger → RoomEvent → ℕ
revision_of l e = get_or (Dict.get e.event_id l.revisions) 0

unfoldable pub oldest_revision : Ledger → List RoomEvent → ℕ
oldest_revision l [] = l.revision
oldest_revision l (e ∷ []) = get_or (Dict.get e.event_id l.revisions) l.revision
oldest_revision l (e ∷ events) =
    min (get_or (Dict.get e.event_id l.revisions) l.revision) (oldest_revision l events)

-- `none` stands for a cursor that is no safe integer, or negative.
unfoldable pub must_reset : Ledger → Option ℕ → Bool
unfolding oldest_revision
must_reset l none = true
must_reset l (some after) = ltb l.revision after || ltb (after + 1) (oldest_revision l l.events)

-- The chat messages, and the origins of chat and presence, since a cursor.
abbrev pub is_new : Ledger → ℕ → RoomEvent → Bool
is_new l after e = ltb after (revision_of l e)

abbrev pub speaks : Payload → Bool
speaks (chat_message _) = true
speaks (hall_presence _) = true
speaks _ = false

unfoldable pub changed_message_ids : Ledger → ℕ → List String
unfolding revision_of
changed_message_ids l after =
    map (λ e. e.event_id) (keep (λ e. is_chat e.payload && is_new l after e) l.events)

unfoldable pub changed_origins : Ledger → ℕ → List String
unfolding revision_of
changed_origins l after =
    map (λ e. e.origin) (keep (λ e. is_new l after e && speaks e.payload) l.events)

abbrev pub shown_ids : List (Option HallSeat) → List String
shown_ids [] = []
shown_ids (none ∷ seats) = shown_ids seats
shown_ids (some s ∷ seats) = s.participant.peer_id ∷ shown_ids seats

unfoldable pub narrow : Ledger → ℕ → RoomSnapshot → RoomSnapshot
unfolding changed_message_ids changed_origins select avatar_cids
narrow l after s =
    let ids = changed_message_ids l after in
    let profiles = select (unique (shown_ids s.seats ++ changed_origins l after)) s.profiles in
    record s {
      messages = keep (λ m. mem m.id ids) s.messages;
      profiles = profiles;
      avatars = select (unique (avatar_cids profiles)) s.avatars;
    }

abbrev pub delta_of : Ledger → Option ℕ → Bool → RoomSnapshot → RoomDelta
delta_of l none reset s = record { snapshot = s; reset = reset }
delta_of l (some after) true s = record { snapshot = s; reset = true }
delta_of l (some after) false s = record { snapshot = narrow l after s; reset = false }

pub record EvidenceBundle : Type 0 where
  pub exported_at : ℕ
  pub event : RoomEvent

unfoldable pub evidence : Ledger → String → ℕ → Option EvidenceBundle
evidence l event_id now = elim (Dict.get event_id l.event_by_id) [
  | none ↦ none
  | some e ↦ some (record { exported_at = now; event = e })
]

-- The ids of the join basis and the latest presence of some origins.
unfoldable pub presence_ids : Ledger → List String → List String
presence_ids l [] = []
presence_ids l (origin ∷ origins) =
    to_list (Dict.get origin l.join_basis_by_origin)
    ++ (to_list (Dict.get origin l.latest_presence_by_origin) ++ presence_ids l origins)

-- `slice(-limit)`, which at 0 is the whole list.
abbrev pub slice_last : {A : Type 0} → ℕ → List A → List A
slice_last limit xs = if limit == 0 then xs else last limit xs

pub record Diagnostics : Type 0 where
  pub revision : ℕ
  pub retained_events : ℕ
  pub active_participants : ℕ
  pub sync_events : ℕ
  pub tracked_sequence_origins : ℕ

module _ (engine : Engine) where
  unfoldable pub delta : Ledger → Option ℕ → ℕ → Option String → Ledger × RoomDelta
  unfolding must_reset narrow
  delta l after now viewer =
      let shown = snapshot engine.locale_compare l now viewer in
      (shown.0, delta_of shown.0 after (must_reset shown.0 after) shown.1)

  -- The end of `accept`, for an event that it stored: the message that a chat event became.
  unfoldable pub answer : Ledger → RoomEvent → Ledger × Option RoomMessage
  answer l e =
      if is_chat e.payload
      then (let shown = snapshot engine.locale_compare l e.issued_at none in
          (shown.0, find (λ m. same m.id e.event_id) shown.1.messages))
      else (l, none)

  unfoldable pub accept : Ledger → RoomEvent → Ledger × Option RoomMessage
  unfolding answer
  accept l e =
      if is_sync_request e.payload || Dict.has e.event_id l.seen_event_ids
      then (l, none)
      else let l' = expire_presence_indexes l e.issued_at in
        if is_admissible engine l' e then answer (store_event l' e) e else (l', none)

  unfoldable pub admission_error : Ledger → String → ℕ → Option AdmissionError
  unfolding admission_error_in
  admission_error l peer now =
      admission_error_in (derive engine.locale_compare l.events now) peer now

  unfoldable pub events_for_sync : Ledger → ℕ → ℕ → Ledger × List RoomEvent
  unfolding presence_ids
  events_for_sync l limit now =
      let l' = expire_presence_indexes l now in
      let h = derive engine.locale_compare l'.events now in
      let ids =
        presence_ids l' (participant_ids h)
        ++ (recent_chat_ids l'.events ++ to_list l'.latest_checkpoint_event_id) in
      (
        l',
        slice_last limit
            (sort_by (event_less engine.locale_compare) (keep (λ e. mem e.event_id ids) l'.events)),
      )

  unfoldable pub diagnostics : Ledger → ℕ → Ledger × Diagnostics
  unfolding events_for_sync
  diagnostics l now =
      let synced = events_for_sync l Rules.max_sync_events now in
      (
        synced.0,
        record {
          revision = l.revision;
          retained_events = length l.events;
          active_participants = people (derive engine.locale_compare l.events now);
          sync_events = length synced.1;
          tracked_sequence_origins = length l.last_sequence_by_origin;
        },
      )
