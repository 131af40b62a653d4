-- ===== src/Transport/Arrived.antt =====
-- What arrives by the transport keeps what holds of a node: src/network/node.ts.
use dsh_carbonclub.Base.{
  ℕ, ◌≡◌, refl, Bool, false, ◌&&◌, ◌||◌, not, String, Option, none, some, List, [], ◌∷◌, Bool-cases,
  Option-cases, inl, inr, length, leb, ltb, same, arith, keep, map,
}
use Prim.Native.String.{◌++◌ as append}
use mathlib.Core.Option.{get_or}
use dsh_carbonclub.Base.Keys.{mem}
use dsh_carbonclub.Types.{RoomEvent, HallCheckpoint}
use dsh_carbonclub.Codec.{Bytes}
use dsh_carbonclub.Ledger.Defs.{is_sync_request}
use dsh_carbonclub.Ledger.Accept.{unique}
use dsh_carbonclub.Node.Limits.{allow_inbound, allow_transport_inbound, allow_sync}
use dsh_carbonclub.Node.Peers.{is_nil}
use dsh_carbonclub.Node.Session.{Outlet}
use dsh_carbonclub.Transport.Defs.{
  CarbonNode, Wire, Gossip, hall_topic, max_event_bytes, verify_event, receive, take_in, ingest,
  ingest_first, run_task, disconnect, discover, is_allowed_address, with_suffix,
  target_discovery_connections, max_parallel_discovery_dials,
}
use dsh_carbonclub.Transport.Sync.{read_request, answer_request, answer_sync}
use dsh_carbonclub.Transport.Answered.{verify_event-IsVerified}
use dsh_carbonclub.Transport.Kept as TransportKept
use dsh_carbonclub.Transport.Same.{answer_request-IsSame}
use dsh_carbonclub.Transport.Bounded.{
  enqueue-IsQueued, end_task-IsQueued, allow_transport_inbound-IsLimited, allow_inbound-IsLimited,
  allow_sync-IsLimited, note_discovered-IsPeered, remember_peer-IsPeered, dial-IsPeered,
  delete-IsPeered,
}
use dsh_carbonclub.Transport.Runs.{arrived}
use dsh_carbonclub.Transport.Sound.{
  Known, IsSound, IsNode, IsSound-IsClosed, transport-IsOpen, same-IsNode,
}

module _ (wire : Wire) (outlet : Outlet) (seals : HallCheckpoint → ℕ → ℕ → Option RoomEvent)
    (gate : Option (RoomEvent → Bool)) where
  abbrev Good : CarbonNode → Type 0
  Good = IsNode wire outlet seals gate

  pub receive-IsNode :
      (n : CarbonNode) (message : Gossip) (now : ℕ) → Good n → Good (receive wire n message now)
  unfolding receive
  receive-IsNode n message now v =
      let origin = get_or message.signed_by "" in
      let allowed =
        allow_transport_inbound wire.outside.text_length n.transport_inbound_windows origin now in
      let limited =
        allow_transport_inbound-IsLimited wire.outside.text_length origin now v.limited in
      elim (Bool-cases
        (not (same message.topic hall_topic) || ltb max_event_bytes (length message.contents))) [
          | inl other ↦ rw (other, receive) v
          | inr fits ↦ elim (Bool-cases allowed.1) [
            | inl granted ↦
                rw (fits, receive, granted)
                  (record {
                    ledger = v.ledger;
                    queued = enqueue-IsQueued n.ingestion message.contents v.queued;
                    limited = limited;
                    peered = v.peered;
                  })
            | inr refused ↦
                rw (fits, receive, refused)
                  (record {
                    ledger = v.ledger;
                    queued = v.queued;
                    limited = limited;
                    peered = v.peered;
                  })
          ]
        ]

  take_in-IsNode :
      (n : CarbonNode) (o : Option RoomEvent) (now : ℕ)
      → ((e : RoomEvent) → o ≡ some e → Known wire outlet seals gate e)
      → Good n
      → Good (take_in wire n o now)
  unfolding take_in
  take_in-IsNode n none now known v = v
  take_in-IsNode n (some e) now known v =
      let allowed = (allow_inbound wire.outside.text_length n.inbound_windows e.origin now).1 in
      let limited = allow_inbound-IsLimited wire.outside.text_length e.origin now v.limited in
      elim (Bool-cases (allowed && not (is_sync_request e.payload))) [
        | inl taken ↦
            rw (taken, take_in)
              (record {
                ledger =
                    (IsSound-IsClosed wire outlet seals gate).accepts n.session.ledger e
                      (known e refl) v.ledger;
                queued = v.queued;
                limited = limited;
                peered = v.peered;
              })
        | inr dropped ↦
            rw (dropped, take_in)
              (record {
                ledger = v.ledger;
                queued = v.queued;
                limited = limited;
                peered = v.peered;
              })
      ]

  ingest-IsNode :
      (n : CarbonNode) (contents : Bytes) (now later : ℕ)
      → Good n
      → Good (ingest wire n contents now later)
  unfolding ingest
  ingest-IsNode n contents now later v = elim (Option-cases (wire.parse contents)) [
    | inl unparsed ↦ rw (unparsed, ingest) v
    | inr (value, parsed) ↦
        rw (parsed, ingest)
          (take_in-IsNode n (verify_event wire value now false) later
            (λ e found.
              arrived value now false (verify_event-IsVerified wire value now false e found))
            v)
  ]

  ingest_first-IsNode :
      (n : CarbonNode) (tasks : List Bytes) (now later : ℕ)
      → Good n
      → Good (ingest_first wire n tasks now later)
  unfolding ingest_first
  ingest_first-IsNode n [] now later v = v
  ingest_first-IsNode n (contents ∷ rest) now later v = ingest-IsNode n contents now later v

  pub run_task-IsNode : (n : CarbonNode) (now later : ℕ) → Good n → Good (run_task wire n now later)
  unfolding run_task
  run_task-IsNode n now later v =
      let ran = ingest_first-IsNode n n.ingestion.tail now later v in
      record {
        ledger = ran.ledger;
        queued = end_task-IsQueued n.ingestion v.queued;
        limited = ran.limited;
        peered = ran.peered;
      }

  pub answer_sync-IsNode :
      (n : CarbonNode) (remote : String) (chunks : List Bytes) (now later : ℕ)
      → Good n
      → Good (answer_sync wire n remote chunks now later).0
  unfolding answer_sync
  answer_sync-IsNode n remote chunks now later v =
      let counted : CarbonNode = record n {
        sync_windows = (allow_sync n.sync_windows remote now).0;
      } in
      let limited =
        allow_sync-IsLimited n.transport_inbound_windows n.inbound_windows n.sync_windows remote now
          v.limited in
      let v' : Good counted = record {
        ledger = v.ledger;
        queued = v.queued;
        limited = limited;
        peered = v.peered;
      } in
      let r = read_request wire chunks remote n.session.peer_id later in
      elim (Bool-cases (allow_sync n.sync_windows remote now).1) [
        | inr refused ↦ rw (refused, answer_sync) v'
        | inl allowed ↦
            rw (allowed, answer_sync)
              (same-IsNode wire outlet seals gate counted (answer_request wire counted r later).0
                (answer_request-IsSame wire counted r later)
                (TransportKept.answer_request_kept wire (Known wire outlet seals gate)
                  (IsSound wire outlet seals gate) (transport-IsOpen wire outlet seals gate) counted
                  r later v.ledger)
                v')
      ]

  pub discover-IsNode :
      (n : CarbonNode) (peer : String) (addresses connected : List String) (now : ℕ)
      → Good n
      → Good (discover wire n peer addresses connected now).0
  unfolding discover
  discover-IsNode n peer addresses connected now v =
      let allowed =
        keep (λ (address : String). is_allowed_address wire address peer)
          (map (with_suffix (append "/p2p/" peer)) addresses) in
      let noted = note_discovered-IsPeered peer now v.peered in
      let remembered = remember_peer-IsPeered (is_allowed_address wire) peer allowed now noted in
      let few = leb max_parallel_discovery_dials (length n.pending_discovery_dials) in
      let others =
        mem peer connected || leb target_discovery_connections (length (unique connected)) in
      elim (Bool-cases (same peer n.session.peer_id)) [
        | inl own_id ↦ rw (own_id, discover) v
        | inr other ↦ elim (Bool-cases (is_nil allowed)) [
          | inl nothing ↦
              rw (other, discover, nothing)
                (record {
                  ledger = v.ledger;
                  queued = v.queued;
                  limited = v.limited;
                  peered = noted;
                })
          | inr some_allowed ↦ elim (Bool-cases (others || few)) [
            | inl busy ↦
                rw (other, discover, some_allowed, busy)
                  (record {
                    ledger = v.ledger;
                    queued = v.queued;
                    limited = v.limited;
                    peered = remembered;
                  })
            | inr free ↦
                rw (other, discover, some_allowed, free)
                  (record {
                    ledger = v.ledger;
                    queued = v.queued;
                    limited = v.limited;
                    peered = dial-IsPeered peer (ground (arith, free)) remembered;
                  })
          ]
        ]
      ]

  pub disconnect-IsNode :
      (n : CarbonNode) (peer : String) (connected : List String)
      → Good n
      → Good (disconnect n peer connected)
  unfolding disconnect
  disconnect-IsNode n peer connected v = elim (Bool-cases (mem peer connected)) [
    | inl still ↦ rw (still, disconnect) v
    | inr gone ↦
        rw (gone, disconnect)
          (record {
            ledger = v.ledger;
            queued = v.queued;
            limited = v.limited;
            peered = delete-IsPeered peer v.peered;
          })
  ]
