-- ===== src/Ledger/Accept.antt =====
-- The guards and the writes of `accept` of `RoomEventLedger` (src/network/room-events.ts), with the
-- checkpoint that it checks.
-- What belongs to the JavaScript engine and to node:crypto is the parameter `engine`.
use Prim.Native.Nat.{Ordering}
use mathlib.Core.Option.{get_or}
use dsh_carbonclub.Base.{
  ℕ, ◌+◌, ◌/◌, Bool, true, false, not, ◌&&◌, ◌||◌, String, Option, none, some, List, [], ◌∷◌, ◌++◌,
  map, keep, last, take, length, leb, ◌==◌, same, if◌then◌else◌,
}
use dsh_carbonclub.Base.Dict.{Dict}
use dsh_carbonclub.Base.Dict
use dsh_carbonclub.Base.Keys.{mem}
use dsh_carbonclub.Base.Sort.{sort_by}
use dsh_carbonclub.Rules
use dsh_carbonclub.Types.{
  join, heartbeat, leave, Payload, chat_message, hall_presence, hall_checkpoint, room_sync_request,
  HallCheckpoint, RoomEvent,
}
use dsh_carbonclub.Hall.Defs.{Seat, Hall}
use dsh_carbonclub.Hall.Derive.{derive}
use dsh_carbonclub.Ledger.Defs.{Ledger, is_join, prune, prune_sequence_origins}

-- What `stateHash` hashes.
pub record Canonical : Type 0 where
  pub seats : List (Option String)
  pub queue : List String
  pub messages : List String

-- `localeCompare`, the order of `sort()` on texts, and the SHA-256 of the JSON of a canonical state.
pub record Engine : Type 0 where
  pub locale_compare : String → String → Ordering
  pub text_less : String → String → Bool
  pub digest : Canonical → String

abbrev pub seat_peer : Option Seat → Option String
seat_peer none = none
seat_peer (some s) = some s.participant.peer_id

unfoldable pub seated_ids : List (Option Seat) → List String
seated_ids [] = []
seated_ids (none ∷ seats) = seated_ids seats
seated_ids (some s ∷ seats) = s.participant.peer_id ∷ seated_ids seats

unfoldable pub participant_ids : Hall → List String
unfolding seated_ids
participant_ids h = seated_ids h.seats ++ map (λ p. p.peer_id) h.queue

-- `[...new Set(values)]`
unfoldable pub unique_onto : List String → List String → List String
unique_onto done [] = done
unique_onto done (x ∷ xs) = unique_onto (if mem x done then done else done ++ x ∷ []) xs

unfoldable pub unique : List String → List String
unfolding unique_onto
unique xs = unique_onto [] xs

-- The writes of `accept` to the presence indexes and the latest checkpoint.
unfoldable pub index_event : Ledger → RoomEvent → Payload → Ledger
index_event l e (hall_presence (join _ _ _)) = record l {
  join_basis_by_origin = Dict.set e.origin e.event_id l.join_basis_by_origin;
  latest_presence_by_origin = Dict.set e.origin e.event_id l.latest_presence_by_origin;
}
index_event l e (hall_presence (heartbeat _ _)) =
    if Dict.has e.origin l.join_basis_by_origin
    then record l {
      latest_presence_by_origin = Dict.set e.origin e.event_id l.latest_presence_by_origin;
    }
    else l
index_event l e (hall_presence leave) = record l {
  join_basis_by_origin = Dict.delete e.origin l.join_basis_by_origin;
  latest_presence_by_origin = Dict.delete e.origin l.latest_presence_by_origin;
}
index_event l e (hall_checkpoint _) = record l { latest_checkpoint_event_id = some e.event_id }
index_event l e (chat_message _) = l
index_event l e (room_sync_request _) = l

-- The writes of `accept` to the event list and its indexes.
unfoldable pub append_event : Ledger → RoomEvent → Ledger
append_event l e = record l {
  seen_event_ids = Dict.set e.event_id tt l.seen_event_ids;
  last_sequence_by_origin =
      Dict.set e.origin e.sequence (Dict.delete e.origin l.last_sequence_by_origin);
  events = l.events ++ e ∷ [];
  event_by_id = Dict.set e.event_id e l.event_by_id;
  revision = l.revision + 1;
  revisions = Dict.set e.event_id (l.revision + 1) l.revisions;
}

unfoldable pub store_event : Ledger → RoomEvent → Ledger
unfolding index_event append_event prune prune_sequence_origins
store_event l e =
    prune (prune_sequence_origins (index_event (append_event l e) e e.payload)) e.issued_at

module _ (engine : Engine) where
  unfoldable pub state_hash : Hall → String
  state_hash h = engine.digest (record {
    seats = map seat_peer h.seats;
    queue = map (λ p. p.peer_id) h.queue;
    messages = map (λ m. m.id) (last 32 h.messages);
  })

  unfoldable pub checkpoint_for : Hall → ℕ → List String → List String → Option HallCheckpoint
  unfolding state_hash unique
  checkpoint_for h now witnesses [] = none
  checkpoint_for h now witnesses (steward ∷ _) = some (record {
    epoch = now / 60_000;
    steward_peer_id = steward;
    state_hash = state_hash h;
    witnesses =
        take 8 (sort_by engine.text_less (keep (λ w. not (same w steward)) (unique witnesses)));
  })

  unfoldable pub checkpoint_payload : Ledger → ℕ → List String → Option HallCheckpoint
  unfolding checkpoint_for participant_ids
  checkpoint_payload l now witnesses =
      let h = derive engine.locale_compare l.events now in
      checkpoint_for h now witnesses (sort_by engine.text_less (participant_ids h))

  unfoldable pub checkpoint_is_valid : Ledger → RoomEvent → HallCheckpoint → Bool
  unfolding checkpoint_payload
  checkpoint_is_valid l e claimed = elim (checkpoint_payload l e.issued_at claimed.witnesses) [
    | none ↦ false
    | some expected ↦
        same e.origin expected.steward_peer_id
        && same claimed.steward_peer_id expected.steward_peer_id
        && (claimed.epoch == expected.epoch)
        && same claimed.state_hash expected.state_hash
  ]

  unfoldable pub payload_is_valid : Ledger → RoomEvent → Payload → Bool
  unfolding checkpoint_is_valid
  payload_is_valid l e (hall_checkpoint claimed) = checkpoint_is_valid l e claimed
  payload_is_valid l e (chat_message _) = true
  payload_is_valid l e (hall_presence _) = true
  payload_is_valid l e (room_sync_request _) = true

  -- The guards of `accept` behind the duplicate test, each an early return in the source.
  unfoldable pub is_admissible : Ledger → RoomEvent → Bool
  unfolding payload_is_valid
  is_admissible l e =
      let has_basis = Dict.has e.origin l.join_basis_by_origin in
      let joins = is_join e.payload in
      (joins || has_basis)
      && not (leb e.sequence (get_or (Dict.get e.origin l.last_sequence_by_origin) 0))
      && not (
          joins
          && not has_basis
          && leb Rules.max_tracked_join_origins (length l.join_basis_by_origin))
      && payload_is_valid l e e.payload
