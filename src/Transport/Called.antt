-- ===== src/Transport/Called.antt =====
-- The calls of a node, up to its stop, on what holds of every node: src/network/node.ts.
use dsh_carbonclub.Base.{
  ℕ, Bool, false, String, Option, none, some, List, Bool-cases, Option-cases, inl, inr, same, subst,
  sym,
}
use dsh_carbonclub.Types.{RoomProfile, RoomEvent, HallCheckpoint}
use dsh_carbonclub.Ledger.Calls.{accept}
use dsh_carbonclub.Ledger.Accept.{checkpoint_payload}
use dsh_carbonclub.Node.Peers.{next_sequence}
use dsh_carbonclub.Node.Session.{Session, Outlet, join_hall, leave_hall, publish_hall_message}
use dsh_carbonclub.Node.Kept as SessionKept
use dsh_carbonclub.Transport.Defs.{CarbonNode, Wire}
use dsh_carbonclub.Transport.Sync.{Connection, Remote, request_history}
use dsh_carbonclub.Transport.Publish.{
  Publication, is_ready, publish_event, publish_payload, publish_checkpoint,
}
use dsh_carbonclub.Transport.Kept as TransportKept
use dsh_carbonclub.Transport.Same.{request_history-IsSame, publish_event-IsSame}
use dsh_carbonclub.Transport.Bounded.{clear-IsPeered}
use dsh_carbonclub.Transport.Calls.{stop_node, join_node, leave_node, post_node}
use dsh_carbonclub.Transport.Runs.{sealed}
use dsh_carbonclub.Transport.Sound.{
  Known, IsSound, IsNode, IsSound-IsClosed, transport-IsOpen, session-IsOpen, same-IsNode,
}
use dsh_carbonclub.Transport.Started.{with_phase-IsNode}

module _ (wire : Wire) (outlet : Outlet) (seals : HallCheckpoint → ℕ → ℕ → Option RoomEvent)
    (gate : Option (RoomEvent → Bool)) where
  abbrev Good : CarbonNode → Type 0
  Good = IsNode wire outlet seals gate

  pub request_history-IsNode :
      (n : CarbonNode) (target : String) (connections : List Connection) (remote : Remote)
      (now clock : ℕ)
      → Good n
      → Good (request_history wire n target connections remote now clock)
  request_history-IsNode n target connections remote now clock v =
      same-IsNode wire outlet seals gate n
        (request_history wire n target connections remote now clock)
        (request_history-IsSame wire n target connections remote now clock)
        (TransportKept.request_history_kept wire (Known wire outlet seals gate)
          (IsSound wire outlet seals gate) (transport-IsOpen wire outlet seals gate) n target
          connections remote now clock v.ledger)
        v

  pub with_session-IsNode :
      (n : CarbonNode) (s : Session)
      → IsSound wire outlet seals gate s.ledger
      → Good n
      → Good (record n { session = s })
  with_session-IsNode n s h v = record {
    ledger = h;
    queued = v.queued;
    limited = v.limited;
    peered = v.peered;
  }

  pub published-IsNode :
      (n : CarbonNode) (s : Session) (event : RoomEvent) (publication : Publication)
      → IsSound wire outlet seals gate s.ledger
      → Good n
      → Good (publish_event wire (record n { session = s }) gate event publication).0
  published-IsNode n s event publication h v =
      let (drops, e) = publish_event-IsSame wire n s gate event publication in
      subst Good (sym e)
        (record { ledger = h; queued = v.queued; limited = v.limited; peered = v.peered })

  pub publish_payload-IsNode :
      (n : CarbonNode) (o : Option HallCheckpoint) (publication : Publication) (now clock : ℕ)
      → Good n
      → Good (
          publish_payload wire n o gate
            (λ payload sequence. seals payload sequence now)
            publication
            clock)
  unfolding publish_payload
  publish_payload-IsNode n none publication now clock v = v
  publish_payload-IsNode n (some payload) publication now clock v =
      let sequence = next_sequence n.session.local_sequence clock in
      let counted : Session = record n.session { local_sequence = sequence } in
      elim (Bool-cases (same payload.steward_peer_id n.session.peer_id)) [
        | inr other ↦ rw (other, publish_payload) v
        | inl steward ↦ elim (Option-cases (seals payload sequence now)) [
          | inl unsigned ↦
              rw (steward, publish_payload, unsigned) (with_session-IsNode n counted v.ledger v)
          | inr (event, signed) ↦
              rw (steward, publish_payload, signed)
                (published-IsNode n
                  (record counted { ledger = (accept wire.engine n.session.ledger event).0 }) event
                  publication
                  ((IsSound-IsClosed wire outlet seals gate).accepts n.session.ledger event
                    (sealed payload sequence now signed) v.ledger)
                  v)
        ]
      ]

  pub publish_checkpoint-IsNode :
      (n : CarbonNode) (connected : List String) (publication : Publication) (now clock : ℕ)
      → Good n
      → Good (
          publish_checkpoint wire n connected gate
            (λ payload sequence. seals payload sequence now)
            publication
            now
            clock)
  unfolding publish_checkpoint
  publish_checkpoint-IsNode n connected publication now clock v = elim (Bool-cases (is_ready n)) [
    | inl ready ↦
        rw (ready, publish_checkpoint)
          (publish_payload-IsNode n (checkpoint_payload wire.engine n.session.ledger now connected)
            publication now clock v)
    | inr stopped ↦ rw (stopped, publish_checkpoint) v
  ]

  pub join_node-IsNode :
      (n : CarbonNode) (profile : RoomProfile) (now clock : ℕ)
      → Good n
      → Good (join_node wire outlet n profile now clock)
  unfolding join_node
  join_node-IsNode n profile now clock v = elim (Bool-cases (is_ready n)) [
    | inl ready ↦
        rw (ready, join_node)
          (with_session-IsNode n (join_hall wire.engine outlet n.session profile now clock).0
            (SessionKept.join_hall_kept wire.engine outlet (Known wire outlet seals gate)
              (IsSound wire outlet seals gate) (session-IsOpen wire outlet seals gate) n.session
              profile now clock v.ledger)
            v)
    | inr stopped ↦ rw (stopped, join_node) v
  ]

  pub leave_node-IsNode :
      (n : CarbonNode) (now clock : ℕ) → Good n → Good (leave_node wire outlet n now clock)
  unfolding leave_node
  leave_node-IsNode n now clock v =
      with_session-IsNode n (leave_hall wire.engine outlet n.session now clock).0
        (SessionKept.leave_hall_kept wire.engine outlet (Known wire outlet seals gate)
          (IsSound wire outlet seals gate) (session-IsOpen wire outlet seals gate) n.session now
          clock v.ledger)
        v

  pub post_node-IsNode :
      (n : CarbonNode) (body : String) (now clock : ℕ)
      → Good n
      → Good (post_node wire outlet n body now clock)
  unfolding post_node
  post_node-IsNode n body now clock v = elim (Bool-cases (is_ready n)) [
    | inl ready ↦
        rw (ready, post_node)
          (with_session-IsNode n
            (publish_hall_message wire.engine outlet n.session body now clock).0
            (SessionKept.publish_hall_message_kept wire.engine outlet (Known wire outlet seals gate)
              (IsSound wire outlet seals gate) (session-IsOpen wire outlet seals gate) n.session
              body now clock v.ledger)
            v)
    | inr stopped ↦ rw (stopped, post_node) v
  ]

  pub stop_node-IsNode :
      (n : CarbonNode) (now clock : ℕ) → Good n → Good (stop_node wire outlet n now clock)
  unfolding stop_node
  stop_node-IsNode n now clock v =
      let left = leave_node-IsNode n now clock v in
      elim (Bool-cases n.is_running) [
        | inr stopped ↦
            rw (stopped, stop_node) (with_phase-IsNode wire outlet seals gate n false n.phase v)
        | inl going ↦
            rw (going, stop_node)
              (record {
                ledger = left.ledger;
                queued = left.queued;
                limited = left.limited;
                peered = clear-IsPeered left.peered;
              })
      ]
