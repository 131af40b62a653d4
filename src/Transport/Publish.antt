-- ===== src/Transport/Publish.antt =====
-- What a node sends of its own, src/network/node.ts: `publishEvent`, `awaitTopicSubscriber` and
-- `publishCheckpoint`.
use dsh_carbonclub.Base.{
  ℕ, zero, suc, ◌+◌, ◌*◌, ◌≤◌, Bool, false, ◌&&◌, ◌||◌, not, String, Option, none, some, List, [],
  ◌∷◌, length, leb, ltb, same, if◌then◌else◌, arith,
}
use dsh_carbonclub.Base.Result.{Result, ok, err}
use dsh_carbonclub.Types.{RoomEvent, HallCheckpoint}
use dsh_carbonclub.Ledger.Accept.{checkpoint_payload}
use dsh_carbonclub.Node.Peers.{next_sequence}
use dsh_carbonclub.Transport.Defs.{CarbonNode, Wire, max_event_bytes, with_accepted}
use dsh_carbonclub.Transport.Sync.{is_online}

abbrev pub topic_subscriber_wait_ms : ℕ
topic_subscriber_wait_ms = 1_000

abbrev pub topic_subscriber_poll_ms : ℕ
topic_subscriber_poll_ms = 25

pub data PublishError : Type 0 where
  not_running over_byte_budget not_published : PublishError

-- What `pubsub.publish` does: it throws, or names how many it reached, where it says so.
pub data Publication : Type 0 where
  threw : PublishError → Publication
  returned : Option ℕ → Publication

-- `requiredNode`
abbrev pub is_ready : CarbonNode → Bool
is_ready n = n.is_running && is_online n.phase

-- A publication that reached nobody is counted.
abbrev pub settle_publication :
    CarbonNode → Publication → CarbonNode × Result PublishError (Unit {0})
settle_publication n (threw e) = (n, err e)
settle_publication n (returned none) = (n, ok tt)
settle_publication n (returned (some zero)) =
    (record n { silent_publish_drops = n.silent_publish_drops + 1 }, ok tt)
settle_publication n (returned (some (suc k))) = (n, ok tt)

-- `this.options.outboundEventGate?.(event) === false`
abbrev pub is_gated : Option (RoomEvent → Bool) → RoomEvent → Bool
is_gated none event = false
is_gated (some gate) event = not (gate event)

-- One round of the wait: the time of its test, and what is found after the pause.
pub record Poll : Type 0 where
  pub at : ℕ
  pub has_subscriber : Bool
  pub is_connected : Bool

-- How many pauses `awaitTopicSubscriber` makes, on what it would find.
unfoldable pub pauses : ℕ → List Poll → ℕ
pauses deadline [] = 0
pauses deadline (p ∷ polls) =
    let rest = pauses deadline polls in
    if leb deadline p.at then 0 else if p.has_subscriber || not p.is_connected then 1 else suc rest

unfoldable pub await_topic_subscriber : Bool → Bool → ℕ → List Poll → ℕ
unfolding pauses
await_topic_subscriber knows is_connected now polls =
    if knows || not is_connected then 0 else pauses (now + topic_subscriber_wait_ms) polls

module _ (wire : Wire) where
  -- `gate` is `outboundEventGate`.
  unfoldable pub publish_event :
      CarbonNode
      → Option (RoomEvent → Bool)
      → RoomEvent
      → Publication
      → CarbonNode × Result PublishError (Unit {0})
  publish_event n gate event publication =
      if is_gated gate event
      then (n, ok tt)
      else if not (is_ready n)
      then (n, err not_running)
      else if ltb max_event_bytes (length (wire.print (wire.event_value event)))
      then (n, err over_byte_budget)
      else settle_publication n publication

  -- What `publishCheckpoint` does with the payload; `signs` is `signCheckpointEvent`.
  unfoldable pub publish_payload :
      CarbonNode
      → Option HallCheckpoint
      → Option (RoomEvent → Bool)
      → (HallCheckpoint → ℕ → Option RoomEvent)
      → Publication
      → ℕ
      → CarbonNode
  unfolding publish_event next_sequence
  publish_payload n none gate signs publication clock = n
  publish_payload n (some payload) gate signs publication clock =
      if same payload.steward_peer_id n.session.peer_id
      then (let sequence = next_sequence n.session.local_sequence clock in
          let counted = record n { session = record n.session { local_sequence = sequence } } in
          elim (signs payload sequence) [
            | none ↦ counted
            | some event ↦
                (publish_event (with_accepted wire.engine counted event) gate event publication).0
          ])
      else n

  -- `publishCheckpoint`, whose error the timer drops; `connected` names the peers of the connections.
  unfoldable pub publish_checkpoint :
      CarbonNode
      → List String
      → Option (RoomEvent → Bool)
      → (HallCheckpoint → ℕ → Option RoomEvent)
      → Publication
      → ℕ
      → ℕ
      → CarbonNode
  unfolding publish_payload checkpoint_payload
  publish_checkpoint n connected gate signs publication now clock =
      if is_ready n
      then publish_payload n (checkpoint_payload wire.engine n.session.ledger now connected) gate
          signs publication clock
      else n

-- Each round tests the time, and the next one at least a pause later.
abbrev pub IsPaced : ℕ → List Poll → Type 0
IsPaced at [] = Unit
IsPaced at (p ∷ polls) = (at ≤ p.at) × IsPaced (p.at + topic_subscriber_poll_ms) polls

pauses-bounded :
    (deadline at left : ℕ) (polls : List Poll)
    → deadline ≤ at + topic_subscriber_poll_ms * left
    → IsPaced at polls
    → pauses deadline polls ≤ left
unfolding pauses
pauses-bounded deadline at left [] h paced = omega arith
pauses-bounded deadline at zero (p ∷ polls) h paced = ground (arith, h, paced.0)
pauses-bounded deadline at (suc left) (p ∷ polls) h paced = ground (
  arith,
  paced.0,
  pauses-bounded deadline (p.at + topic_subscriber_poll_ms) left polls (omega (arith, h, paced.0))
      paced.1,
)

-- Before an event is published, a node waits for a subscriber no longer than forty pauses of 25
-- milliseconds, whatever it finds after each.
pub await_topic_subscriber-bounded :
    (knows is_connected : Bool) (now : ℕ) (polls : List Poll)
    → IsPaced now polls
    → await_topic_subscriber knows is_connected now polls ≤ 40
unfolding await_topic_subscriber
await_topic_subscriber-bounded knows is_connected now polls paced =
    ground (arith, pauses-bounded (now + topic_subscriber_wait_ms) now 40 polls (omega arith) paced)
