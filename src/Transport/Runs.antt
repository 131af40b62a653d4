-- ===== src/Transport/Runs.antt =====
-- The calls and listeners of a node, src/network/node.ts, as a step relation.
use dsh_carbonclub.Base.{ℕ, ◌≤◌, ◌≡◌, Bool, String, Option, some, List, length}
use dsh_carbonclub.Types.{RoomProfile, RoomEvent, HallCheckpoint}
use dsh_carbonclub.Codec.{Bytes}
use dsh_carbonclub.Budget.Queue.{Queue, new_queue}
use dsh_carbonclub.Verify.Values.{Value}
use dsh_carbonclub.Node.Peers.{RememberedPeer, max_remembered_peers}
use dsh_carbonclub.Node.Session.{EventInput, Outlet}
use dsh_carbonclub.Transport.Defs.{
  CarbonNode, Wire, Gossip, receive, run_task, identify, disconnect, discover, end_dial,
}
use dsh_carbonclub.Transport.Sync.{Connection, Remote, answer_sync, request_history}
use dsh_carbonclub.Transport.Publish.{Publication, publish_checkpoint}
use dsh_carbonclub.Transport.Answered.{IsVerified}
use dsh_carbonclub.Transport.Bounded.{ingestion_capacity}
use dsh_carbonclub.Transport.Calls.{
  new_node, prune_node, remember, begin_start, come_up, fail_start, stop_node, join_node,
  leave_node, post_node,
}

-- What `signCheckpointEvent` answers for a payload, a sequence number and a time; and the event gate.
module _ (wire : Wire) (outlet : Outlet) (seals : HallCheckpoint → ℕ → ℕ → Option RoomEvent)
    (gate : Option (RoomEvent → Bool)) where
  -- Where an event comes from: it was verify_event, or the node signed it.
  pub data IsKnown : RoomEvent → Type 0 where
    arrived :
        {e : RoomEvent} (value : Value) (now : ℕ) (allow_historical : Bool)
        → IsVerified wire value now allow_historical e
        → IsKnown e
    own :
        {e : RoomEvent} (input : EventInput) (sequence now : ℕ)
        → outlet.signs input sequence now ≡ some e
        → IsKnown e
    sealed :
        {e : RoomEvent} (payload : HallCheckpoint) (sequence now : ℕ)
        → seals payload sequence now ≡ some e
        → IsKnown e

  -- One call or one listener, with what it is given and the times that it reads.
  pub data Step : CarbonNode → CarbonNode → Type 0 where
    begins : (n : CarbonNode) → Step n (begin_start n)
    comes_up :
        (n : CarbonNode) (is_current is_reachable : Bool)
        → Step n (come_up n is_current is_reachable)
    fails : (n : CarbonNode) → Step n (fail_start n)
    stops : (n : CarbonNode) (now clock : ℕ) → Step n (stop_node wire outlet n now clock)
    receives : (n : CarbonNode) (message : Gossip) (now : ℕ) → Step n (receive wire n message now)
    runs : (n : CarbonNode) (now later : ℕ) → Step n (run_task wire n now later)
    answers :
        (n : CarbonNode) (remote : String) (chunks : List Bytes) (now later : ℕ)
        → Step n (answer_sync wire n remote chunks now later).0
    requests :
        (n : CarbonNode) (target : String) (connections : List Connection) (remote : Remote)
        (now clock : ℕ)
        → Step n (request_history wire n target connections remote now clock)
    discovers :
        (n : CarbonNode) (peer : String) (addresses connected : List String) (now : ℕ)
        → Step n (discover wire n peer addresses connected now).0
    ends_dial : (n : CarbonNode) (peer : String) → Step n (end_dial n peer)
    identifies :
        (n : CarbonNode) (peer : String) (protocols : List String)
        → Step n (identify n peer protocols)
    disconnects :
        (n : CarbonNode) (peer : String) (connected : List String)
        → Step n (disconnect n peer connected)
    remembers :
        (n : CarbonNode) (peer : String) (addresses : List String) (now : ℕ)
        → Step n (remember wire n peer addresses now)
    prunes : (n : CarbonNode) (now : ℕ) → Step n (prune_node n now)
    joins :
        (n : CarbonNode) (profile : RoomProfile) (now clock : ℕ)
        → Step n (join_node wire outlet n profile now clock)
    leaves : (n : CarbonNode) (now clock : ℕ) → Step n (leave_node wire outlet n now clock)
    posts :
        (n : CarbonNode) (body : String) (now clock : ℕ)
        → Step n (post_node wire outlet n body now clock)
    checkpoints :
        (n : CarbonNode) (connected : List String) (publication : Publication) (now clock : ℕ)
        → Step n (
            publish_checkpoint wire n connected gate
              (λ payload sequence. seals payload sequence now)
              publication
              now
              clock)

  pub data Reach : CarbonNode → Type 0 where
    new :
        (peer_id : String) (peers : List RememberedPeer) (queue : Queue Bytes)
        → length peers ≤ max_remembered_peers
        → new_queue ingestion_capacity ≡ some queue
        → Reach (new_node peer_id peers queue)
    next : {n n' : CarbonNode} → Reach n → Step n n' → Reach n'
