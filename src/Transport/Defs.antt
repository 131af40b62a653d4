-- ===== src/Transport/Defs.antt =====
-- The state of a `CarbonClubNode` (src/network/node.ts) and the events of its transport that arrive:
-- gossip, discovered peers, the protocols that a peer names. Each function is one listener, run
-- through up to its first await; a time is what `Date.now()` is read as.
use Prim.Native.String.{◌++◌ as append, slice, len}
use mathlib.Core.Option.{get_or}
use dsh_carbonclub.Base.{
  ℕ, ◌-◌, Bool, true, false, ◌&&◌, ◌||◌, not, String, Option, none, some, List, [], ◌∷◌, ◌++◌, map,
  keep, last, length, leb, ltb, same, if◌then◌else◌,
}
use dsh_carbonclub.Base.Result.{ok, err}
use dsh_carbonclub.Base.Dict.{Dict}
use dsh_carbonclub.Base.Dict
use dsh_carbonclub.Base.Keys.{mem}
use dsh_carbonclub.Types.{RoomEvent, Phase}
use dsh_carbonclub.Codec.{Bytes}
use dsh_carbonclub.Ledger.Defs.{is_sync_request}
use dsh_carbonclub.Ledger.Accept.{Engine, unique}
use dsh_carbonclub.Ledger.Calls.{accept}
use dsh_carbonclub.Verify.Values.{Value}
use dsh_carbonclub.Verify.Payloads.{Outside}
use dsh_carbonclub.Verify.Events.{Keys, verify_room_event}
use dsh_carbonclub.Verify.Typed.{read_event}
use dsh_carbonclub.Budget.Queue.{Queue, enqueue, end_task}
use dsh_carbonclub.Invite.Dial.{Dialer, assert_dial_address}
use dsh_carbonclub.Node.Limits.{Window, allow_inbound, allow_transport_inbound}
use dsh_carbonclub.Node.Peers.{RememberedPeer, note_discovered, remember_peer, is_nil}
use dsh_carbonclub.Node.Session.{Session}

abbrev pub hall_topic : String
hall_topic = "/dsh-human-buffer/room/hall/0.5.1"

abbrev pub hall_sync_protocol : String
hall_sync_protocol = "/dsh-human-buffer/sync/hall/0.5.1"

abbrev pub max_event_bytes : ℕ
max_event_bytes = 48_000

abbrev pub target_discovery_connections : ℕ
target_discovery_connections = 12

abbrev pub max_parallel_discovery_dials : ℕ
max_parallel_discovery_dials = 4

abbrev pub max_identified : ℕ
max_identified = 128

-- `is_running` is whether `this.node` is there. The two sets are lists without repetition.
pub record CarbonNode : Type 0 where
  pub session : Session
  pub is_running : Bool
  pub phase : Phase
  pub discovered : Dict ℕ
  pub remembered : Dict RememberedPeer
  pub ingestion : Queue Bytes
  pub transport_inbound_windows : Dict Window
  pub inbound_windows : Dict Window
  pub sync_windows : Dict ℕ
  pub pending_discovery_dials : List String
  pub identified_protocols : Dict (List String)
  pub history_sync_failures : ℕ
  pub silent_publish_drops : ℕ

-- What belongs to the engine, to node:crypto and to libp2p. `parse` has nothing where `JSON.parse` of
-- the decoded bytes throws; `print` encodes the JSON of a value, and `event_value` is an event as a value
-- without its type.
pub record Wire : Type 0 where
  pub outside : Outside
  pub keys : Keys
  pub engine : Engine
  pub dialer : Dialer
  pub parse : Bytes → Option Value
  pub print : Value → Bytes
  pub event_value : RoomEvent → Value

-- `event.detail` of a gossip message; an unsigned one has no `from`.
pub record Gossip : Type 0 where
  pub topic : String
  pub contents : Bytes
  pub signed_by : Option String

-- The ledger of a node after an event.
abbrev pub with_accepted : Engine → CarbonNode → RoomEvent → CarbonNode
with_accepted engine n e = record n {
  session = record n.session { ledger = (accept engine n.session.ledger e).0 };
}

-- The keys that `Map` iterates first are deleted first, so the last entries stay.
unfoldable pub identify : CarbonNode → String → List String → CarbonNode
identify n peer protocols = record n {
  identified_protocols = last max_identified (Dict.set peer protocols n.identified_protocols);
}

-- `connected` names the peers of the connections that are left.
unfoldable pub disconnect : CarbonNode → String → List String → CarbonNode
disconnect n peer connected =
    if mem peer connected
    then n
    else record n { identified_protocols = Dict.delete peer n.identified_protocols }

-- `finally`, when the dialling has ended.
unfoldable pub end_dial : CarbonNode → String → CarbonNode
end_dial n peer = record n {
  pending_discovery_dials = keep (λ p. not (same p peer)) n.pending_discovery_dials;
}

-- `address.endsWith(suffix) ? address : address + suffix`
abbrev pub with_suffix : String → String → String
with_suffix suffix address =
    if leb (len suffix) (len address)
      && same (slice address (len address - len suffix) (len address)) suffix
    then address
    else append address suffix

module _ (wire : Wire) where
  -- `verifyRoomEvent` returns the value as an event or throws.
  unfoldable pub verify_event : Value → ℕ → Bool → Option RoomEvent
  unfolding verify_room_event read_event
  verify_event value now allow_historical =
      elim (verify_room_event wire.outside wire.keys value now allow_historical) [
        | some error ↦ none
        | none ↦ read_event value
      ]

  unfoldable pub is_allowed_address : String → String → Bool
  unfolding assert_dial_address
  is_allowed_address address peer = elim (assert_dial_address wire.dialer address peer) [
    | ok u ↦ true
    | err e ↦ false
  ]

  -- The listener of 'message'.
  unfoldable pub receive : CarbonNode → Gossip → ℕ → CarbonNode
  unfolding allow_transport_inbound enqueue
  receive n message now =
      if not (same message.topic hall_topic) || ltb max_event_bytes (length message.contents)
      then n
      else let allowed =
          allow_transport_inbound wire.outside.text_length n.transport_inbound_windows
            (get_or message.signed_by "") now in
        let counted = record n { transport_inbound_windows = allowed.0 } in
        if allowed.1
        then record counted { ingestion = (enqueue n.ingestion message.contents).0 }
        else counted

  -- What the task does with an event that it verified.
  unfoldable pub take_in : CarbonNode → Option RoomEvent → ℕ → CarbonNode
  unfolding allow_inbound
  take_in n none now = n
  take_in n (some e) now =
      let allowed = allow_inbound wire.outside.text_length n.inbound_windows e.origin now in
      let counted = record n { inbound_windows = allowed.0 } in
      if allowed.1 && not (is_sync_request e.payload)
      then with_accepted wire.engine counted e
      else counted

  -- A task of the queue: it verifies at one time and counts at another.
  unfoldable pub ingest : CarbonNode → Bytes → ℕ → ℕ → CarbonNode
  unfolding verify_event take_in
  ingest n contents now later = elim (wire.parse contents) [
    | none ↦ n
    | some value ↦ take_in n (verify_event value now false) later
  ]

  unfoldable pub ingest_first : CarbonNode → List Bytes → ℕ → ℕ → CarbonNode
  unfolding ingest
  ingest_first n [] now later = n
  ingest_first n (contents ∷ rest) now later = ingest n contents now later

  -- The queue's running task runs and ends.
  unfoldable pub run_task : CarbonNode → ℕ → ℕ → CarbonNode
  unfolding ingest_first end_task
  run_task n now later = record (ingest_first n n.ingestion.tail now later) {
    ingestion = end_task n.ingestion;
  }

  -- The listener of 'peer:discovery', and whether it dials the peer; `connected` names the peers of
  -- the connections.
  unfoldable pub discover : CarbonNode → String → List String → List String → ℕ → CarbonNode × Bool
  unfolding note_discovered remember_peer is_allowed_address unique
  discover n peer addresses connected now =
      if same peer n.session.peer_id
      then (n, false)
      else let noted = record n { discovered = note_discovered n.discovered peer now } in
        let allowed =
          keep (λ address. is_allowed_address address peer)
            (map (with_suffix (append "/p2p/" peer)) addresses) in
        if is_nil allowed
        then (noted, false)
        else let remembered = record noted {
          remembered = remember_peer is_allowed_address n.remembered peer allowed now;
        } in
          if mem peer connected
            || leb target_discovery_connections (length (unique connected))
            || leb max_parallel_discovery_dials (length n.pending_discovery_dials)
          then (remembered, false)
          else (
            record remembered {
              pending_discovery_dials =
                  if mem peer n.pending_discovery_dials
                  then n.pending_discovery_dials
                  else n.pending_discovery_dials ++ peer ∷ [];
            },
            true,
          )
