-- ===== src/Ledger/Defs.antt =====
-- The state of `RoomEventLedger` (src/network/room-events.ts), and how it forgets:
-- `expirePresenceIndexes`, `prune`, `pruneSequenceOrigins`. A `Set` is a dictionary with no values.
use dsh_carbonclub.Base.{
  ℕ, zero, suc, ◌+◌, Bool, true, false, not, String, Option, none, some, List, [], ◌∷◌, ◌++◌, map,
  keep, last, length, ltb, if◌then◌else◌,
}
use dsh_carbonclub.Base.Dict.{Dict}
use dsh_carbonclub.Base.Dict
use dsh_carbonclub.Base.Keys.{mem, values}
use dsh_carbonclub.Rules
use dsh_carbonclub.Types.{join, Payload, chat_message, hall_presence, room_sync_request, RoomEvent}

pub record Ledger : Type 0 where
  pub seen_event_ids : Dict (Unit {0})
  pub last_sequence_by_origin : Dict ℕ
  pub events : List RoomEvent
  pub event_by_id : Dict RoomEvent
  pub revisions : Dict ℕ
  pub join_basis_by_origin : Dict String
  pub latest_presence_by_origin : Dict String
  pub latest_checkpoint_event_id : Option String
  pub revision : ℕ

abbrev pub new_ledger : Ledger
new_ledger = record {
  seen_event_ids = [];
  last_sequence_by_origin = [];
  events = [];
  event_by_id = [];
  revisions = [];
  join_basis_by_origin = [];
  latest_presence_by_origin = [];
  latest_checkpoint_event_id = none;
  revision = 0;
}

abbrev pub is_chat : Payload → Bool
is_chat (chat_message _) = true
is_chat _ = false

abbrev pub is_join : Payload → Bool
is_join (hall_presence (join _ _ _)) = true
is_join _ = false

abbrev pub is_sync_request : Payload → Bool
is_sync_request (room_sync_request _) = true
is_sync_request _ = false

-- `event === undefined || event.issuedAt < now - presenceTtlMs`
unfoldable pub is_stale : Ledger → ℕ → String → Bool
is_stale l now event_id = elim (Dict.get event_id l.event_by_id) [
  | none ↦ true
  | some e ↦ ltb (e.issued_at + Rules.presence_ttl_ms) now
]

-- The two deletions for an origin.
abbrev pub forget_origin : Ledger → String → Ledger
forget_origin l origin = record l {
  join_basis_by_origin = Dict.delete origin l.join_basis_by_origin;
  latest_presence_by_origin = Dict.delete origin l.latest_presence_by_origin;
}

-- The loop over the entries of `latestPresenceByOrigin`.
unfoldable pub expire_entries : ℕ → Dict String → Ledger → Ledger
unfolding is_stale
expire_entries now [] l = l
expire_entries now ((origin, event_id) ∷ entries) l =
    expire_entries now entries (if is_stale l now event_id then forget_origin l origin else l)

unfoldable pub expire_presence_indexes : Ledger → ℕ → Ledger
unfolding expire_entries
expire_presence_indexes l now = expire_entries now l.latest_presence_by_origin l

-- The ids of the chat messages kept for a newcomer: the last 200.
unfoldable pub recent_chat_ids : List RoomEvent → List String
recent_chat_ids events =
    map (λ e. e.event_id) (last Rules.max_retained_messages (keep (λ e. is_chat e.payload) events))

abbrev pub to_list : Option String → List String
to_list none = []
to_list (some id) = id ∷ []

unfoldable pub protected_ids : Ledger → List String
unfolding recent_chat_ids
protected_ids l =
    values l.join_basis_by_origin
    ++ (values l.latest_presence_by_origin
        ++ (to_list l.latest_checkpoint_event_id ++ recent_chat_ids l.events))

-- `findIndex` and `splice`: the first event that passes, and the others.
unfoldable pub take_first :
    (RoomEvent → Bool) → List RoomEvent → Option (RoomEvent × List RoomEvent)
take_first p [] = none
take_first p (e ∷ events) =
    let later : Option (RoomEvent × List RoomEvent) = elim (take_first p events) [
      | none ↦ none
      | some (r, rest) ↦ some (r, e ∷ rest)
    ] in
    if p e then some (e, events) else later

-- `splice(0, 1)`
abbrev pub take_head : List RoomEvent → Option (RoomEvent × List RoomEvent)
take_head [] = none
take_head (e ∷ events) = some (e, events)

unfoldable pub choose_removed : Ledger → Option (RoomEvent × List RoomEvent)
unfolding take_first protected_ids
choose_removed l =
    let kept = protected_ids l in
    elim (take_first (λ e. not (mem e.event_id kept)) l.events) [
      | none ↦ take_head l.events
      | some r ↦ some r
    ]

abbrev pub drop_event : Ledger → RoomEvent → List RoomEvent → Ledger
drop_event l removed rest = record l {
  events = rest;
  seen_event_ids = Dict.delete removed.event_id l.seen_event_ids;
  event_by_id = Dict.delete removed.event_id l.event_by_id;
  revisions = Dict.delete removed.event_id l.revisions;
}

-- The `while` loop of `prune`, on fuel.
unfoldable pub prune_loop : ℕ → Ledger → Ledger
unfolding choose_removed
prune_loop zero l = l
prune_loop (suc fuel) l = elim (ltb Rules.max_retained_events (length l.events)) [
  | false ↦ l
  | true ↦ elim (choose_removed l) [
    | none ↦ l
    | some (removed, rest) ↦ prune_loop fuel (drop_event l removed rest)
  ]
]

-- Each round removes an event, so their number is fuel enough.
unfoldable pub prune : Ledger → ℕ → Ledger
unfolding expire_presence_indexes prune_loop
prune l now = let l' = expire_presence_indexes l now in prune_loop (length l'.events) l'

-- The first origin with a high-water mark and no join basis.
unfoldable pub idle_origin : Dict ℕ → Dict String → Option String
idle_origin [] basis = none
idle_origin ((origin, _) ∷ marks) basis =
    if Dict.has origin basis then idle_origin marks basis else some origin

unfoldable pub prune_sequence_loop : ℕ → Ledger → Ledger
unfolding idle_origin
prune_sequence_loop zero l = l
prune_sequence_loop (suc fuel) l =
    elim (ltb Rules.max_tracked_sequence_origins (length l.last_sequence_by_origin)) [
      | false ↦ l
      | true ↦ elim (idle_origin l.last_sequence_by_origin l.join_basis_by_origin) [
        | none ↦ l
        | some origin ↦
            prune_sequence_loop fuel
              (record l { last_sequence_by_origin = Dict.delete origin l.last_sequence_by_origin })
      ]
    ]

unfoldable pub prune_sequence_origins : Ledger → Ledger
unfolding prune_sequence_loop
prune_sequence_origins l = prune_sequence_loop (length l.last_sequence_by_origin) l
