-- ===== src/Transport/Sync.antt =====
-- Both ends of a room sync of src/network/node.ts: the handler of the sync protocol, and
-- `requestHistory`. A stream is the list of its chunks.
use dsh_carbonclub.Base.{
  ℕ, ◌+◌, ◌*◌, Bool, true, false, ◌&&◌, ◌||◌, not, String, Option, none, some, List, [], ◌∷◌, ◌++◌,
  keep, find, length, leb, ltb, same, if◌then◌else◌,
}
use dsh_carbonclub.Base.Result.{Result, ok, err, ◌>>=◌, ◌>>◌, guard, from_option}
use dsh_carbonclub.Rules
use dsh_carbonclub.Types.{
  RoomEvent, Payload, chat_message, hall_presence, hall_checkpoint, room_sync_request, Phase,
  starting, online, failed,
}
use dsh_carbonclub.Codec.{Bytes}
use dsh_carbonclub.Ledger.Defs.{Ledger}
use dsh_carbonclub.Ledger.Calls.{accept, events_for_sync}
use dsh_carbonclub.Verify.Values.{
  pos, Value, array, Values, end, item, integer, text, object, closed, field, property, is_object,
  is_text, is_undefined,
}
use dsh_carbonclub.Invite.Defs.{size}
use dsh_carbonclub.Verify.Events.{is_integer}
use dsh_carbonclub.Node.Limits.{allow_sync}
use dsh_carbonclub.Node.Peers.{next_sequence}
use dsh_carbonclub.Transport.Defs.{CarbonNode, Wire, hall_topic, verify_event}

abbrev pub max_request_bytes : ℕ
max_request_bytes = 1_024

abbrev pub max_sync_bytes : ℕ
max_sync_bytes = 8 * 1_024 * 1_024

pub data SyncError : Type 0 where
  rate_limited over_budget unparsed not_request unverified bad_requester too_large : SyncError

-- The loop over the chunks of a stream, which ends where they are over the budget.
unfoldable pub gather : ℕ → Bytes → List Bytes → Option Bytes
gather budget got [] = some got
gather budget got (chunk ∷ chunks) =
    let rest = gather budget (got ++ chunk) chunks in
    if ltb budget (length (got ++ chunk)) then none else rest

-- `version` is 1 and `topic` is the hall's.
unfoldable pub is_envelope : Value → Bool
is_envelope value =
    is_object value
    && is_integer (pos 1) (property "version" value)
    && is_text hall_topic (property "topic" value)

unfoldable pub is_request_for : String → String → RoomEvent → Payload → Bool
is_request_for remote own e (room_sync_request target) = same e.origin remote && same target own
is_request_for remote own e (chat_message _) = false
is_request_for remote own e (hall_presence _) = false
is_request_for remote own e (hall_checkpoint _) = false

-- `Array.isArray(decoded.events)`, of at most so many.
abbrev pub events_within : ℕ → Value → Option Values
events_within limit (array vs) = if leb (size vs) limit then some vs else none
events_within limit _ = none

pub record Connection : Type 0 where
  pub remote_peer : String
  pub direct : Bool
  pub limited : Bool

abbrev pub head : List Connection → Option Connection
head [] = none
head (c ∷ cs) = some c

abbrev pub or_else : Option Connection → Option Connection → Option Connection
or_else none other = other
or_else (some c) other = some c

-- A direct connection without limits, or else the first.
unfoldable pub choose_connection : String → List Connection → Option Connection
choose_connection peer connections =
    let own = keep (λ c. same c.remote_peer peer) connections in
    or_else (find (λ c. c.direct && not c.limited) own) (head own)

-- Whether a stream opens, what `signSyncRequest` answers for a sequence number, and the chunks that
-- come back for the request, nothing where it throws.
pub record Remote : Type 0 where
  pub opens : Connection → Bool
  pub signs : ℕ → Option RoomEvent
  pub answers : Connection → RoomEvent → Option (List Bytes)

abbrev pub is_online : Phase → Bool
is_online online = true
is_online starting = false
is_online failed = false

abbrev pub with_ledger : CarbonNode → Ledger → CarbonNode
with_ledger n l = record n { session = record n.session { ledger = l } }

abbrev pub count_failure : CarbonNode → CarbonNode
count_failure n = record n { history_sync_failures = n.history_sync_failures + 1 }

module _ (wire : Wire) where
  -- The request of a peer, from the bytes of its stream.
  unfoldable pub requested : Bytes → String → String → ℕ → Result SyncError RoomEvent
  unfolding is_envelope verify_event is_request_for
  requested contents remote own now = do
    value ← from_option (wire.parse contents) unparsed
    guard (is_envelope value && not (is_undefined (property "request" value))) not_request
    e ← from_option (verify_event wire (property "request" value) now false) unverified
    guard (is_request_for remote own e e.payload) bad_requester
    ok e

  unfoldable pub read_request : List Bytes → String → String → ℕ → Result SyncError RoomEvent
  unfolding gather requested
  read_request chunks remote own now = do
    contents ← from_option (gather max_request_bytes [] chunks) over_budget
    requested contents remote own now

  abbrev pub event_values : List RoomEvent → Values
  event_values [] = end
  event_values (e ∷ events) = item (wire.event_value e) (event_values events)

  -- `{ version: 1, topic: HALL_TOPIC, events }`
  unfoldable pub answer_value : List RoomEvent → Value
  answer_value events = object (
      field "version" (integer (pos 1))
        (field "topic" (text hall_topic) (field "events" (array (event_values events)) closed)))

  -- The answer to a request that was read.
  unfoldable pub answer_request :
      CarbonNode → Result SyncError RoomEvent → ℕ → CarbonNode × Result SyncError Bytes
  unfolding events_for_sync answer_value
  answer_request n (err e) now = (n, err e)
  answer_request n (ok request) now =
      let synced = events_for_sync wire.engine n.session.ledger Rules.max_sync_events now in
      let contents = wire.print (answer_value synced.1) in
      (
        with_ledger n synced.0,
        if ltb max_sync_bytes (length contents) then err too_large else ok contents,
      )

  -- The handler of the sync protocol: it counts at one time and verifies and answers at another.
  unfoldable pub answer_sync :
      CarbonNode → String → List Bytes → ℕ → ℕ → CarbonNode × Result SyncError Bytes
  unfolding allow_sync read_request answer_request
  answer_sync n remote chunks now later =
      let allowed = allow_sync n.sync_windows remote now in
      let counted = record n { sync_windows = allowed.0 } in
      if allowed.1
      then answer_request counted (read_request chunks remote n.session.peer_id later) later
      else (counted, err rate_limited)

  -- The events of an answer.
  unfoldable pub history_of : Bytes → Option Values
  unfolding is_envelope
  history_of contents = elim (wire.parse contents) [
    | none ↦ none
    | some value ↦
        if is_envelope value
        then events_within Rules.max_sync_events (property "events" value)
        else none
  ]

  -- The loop that accepts them, until one does not verify, and whether all did. The source reads the
  -- clock for each; they are verified at one time here.
  unfoldable pub accept_history : Ledger → Values → ℕ → Ledger × Bool
  unfolding verify_event accept
  accept_history l end now = (l, true)
  accept_history l (item value values) now = elim (verify_event wire value now true) [
    | none ↦ (l, false)
    | some e ↦ accept_history (accept wire.engine l e).0 values now
  ]

  -- Bytes over the budget end the sync without counting it as failed.
  unfoldable pub take_answer : CarbonNode → List Bytes → ℕ → CarbonNode
  unfolding gather history_of accept_history
  take_answer n chunks now = elim (gather max_sync_bytes [] chunks) [
    | none ↦ n
    | some contents ↦ elim (history_of contents) [
      | none ↦ count_failure n
      | some values ↦
          let taken = accept_history n.session.ledger values now in
          if taken.1 then with_ledger n taken.0 else count_failure (with_ledger n taken.0)
    ]
  ]

  -- `requestHistory` from the signing on.
  unfoldable pub ask_history : CarbonNode → Remote → Connection → ℕ → Option RoomEvent → CarbonNode
  unfolding take_answer
  ask_history n remote c now none = count_failure n
  ask_history n remote c now (some request) = elim (remote.answers c request) [
    | none ↦ count_failure n
    | some chunks ↦ take_answer n chunks now
  ]

  -- `requestHistory`; `clock` is what `nextSequence` reads.
  unfoldable pub request_history :
      CarbonNode → String → List Connection → Remote → ℕ → ℕ → CarbonNode
  unfolding choose_connection ask_history next_sequence
  request_history n target connections remote now clock =
      if not n.is_running || not (is_online n.phase)
      then n
      else elim (choose_connection target connections) [
        | none ↦ n
        | some c ↦
            if remote.opens c
            then (let sequence = next_sequence n.session.local_sequence clock in
                ask_history (record n { session = record n.session { local_sequence = sequence } })
                  remote c now (remote.signs sequence))
            else count_failure n
      ]
