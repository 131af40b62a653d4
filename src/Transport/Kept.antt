-- ===== src/Transport/Kept.antt =====
-- What the transport of src/network/node.ts keeps of a node's ledger: it accepts only events that it
-- verified.
use dsh_carbonclub.Base.{
  ℕ, Bool, true, ◌||◌, not, String, Option, none, some, List, [], Bool-cases, Option-cases, inl,
  inr,
}
use dsh_carbonclub.Base.Result.{Result, ok, err}
use dsh_carbonclub.Types.{RoomEvent}
use dsh_carbonclub.Codec.{Bytes}
use dsh_carbonclub.Ledger.Defs.{Ledger}
use dsh_carbonclub.Ledger.Calls.{accept, events_for_sync}
use dsh_carbonclub.Ledger.Sources.{IsClosed}
use dsh_carbonclub.Verify.Values.{Value, Values, end, item}
use dsh_carbonclub.Node.Peers.{next_sequence}
use dsh_carbonclub.Transport.Defs.{CarbonNode, Wire, verify_event}
use dsh_carbonclub.Transport.Sync.{
  SyncError, Connection, Remote, gather, max_sync_bytes, choose_connection, is_online,
  answer_request, history_of, accept_history, take_answer, ask_history, request_history,
}
use dsh_carbonclub.Transport.Answered.{IsVerified, verify_event-IsVerified}

module _ (wire : Wire) (P : RoomEvent → Type 0) (Q : Ledger → Type 0) where
  -- The ledger's own calls keep the property, and verified events are of the kind.
  pub record IsOpen : Type 0 where
    pub closed : IsClosed wire.engine P Q
    pub verifies :
        (value : Value) (now : ℕ) (allow_historical : Bool) (e : RoomEvent)
        → IsVerified wire value now allow_historical e
        → P e

  module _ (laws : IsOpen) where
    pub answer_request_kept :
        (n : CarbonNode) (r : Result SyncError RoomEvent) (now : ℕ)
        → Q n.session.ledger
        → Q (answer_request wire n r now).0.session.ledger
    unfolding answer_request events_for_sync
    answer_request_kept n (err e) now h = h
    answer_request_kept n (ok request) now h = laws.closed.expires n.session.ledger now h

    accept_history_kept :
        (l : Ledger) (values : Values) (now : ℕ) → Q l → Q (accept_history wire l values now).0
    unfolding accept_history
    accept_history_kept l end now h = h
    accept_history_kept l (item value values) now h =
        elim (Option-cases (verify_event wire value now true)) [
          | inl refused ↦ rw (refused, accept_history) h
          | inr (e, found) ↦
              rw (found, accept_history)
                (accept_history_kept (accept wire.engine l e).0 values now (
                  laws.closed.accepts l e
                    (laws.verifies value now true e
                      (verify_event-IsVerified wire value now true e found))
                    h))
        ]

    take_answer_kept :
        (n : CarbonNode) (chunks : List Bytes) (now : ℕ)
        → Q n.session.ledger
        → Q (take_answer wire n chunks now).session.ledger
    unfolding take_answer
    take_answer_kept n chunks now h = elim (Option-cases (gather max_sync_bytes [] chunks)) [
      | inl over ↦ rw (over, take_answer) h
      | inr (contents, whole) ↦ elim (Option-cases (history_of wire contents)) [
        | inl other ↦ rw (whole, take_answer, other) h
        | inr (values, read) ↦
            let kept = accept_history_kept n.session.ledger values now h in
            elim (Bool-cases (accept_history wire n.session.ledger values now).1) [
              | inl all ↦ rw (whole, take_answer, read, all) kept
              | inr some_failed ↦ rw (whole, take_answer, read, some_failed) kept
            ]
      ]
    ]

    ask_history_kept :
        (n : CarbonNode) (remote : Remote) (c : Connection) (now : ℕ) (o : Option RoomEvent)
        → Q n.session.ledger
        → Q (ask_history wire n remote c now o).session.ledger
    unfolding ask_history
    ask_history_kept n remote c now none h = h
    ask_history_kept n remote c now (some request) h =
        elim (Option-cases (remote.answers c request)) [
          | inl threw ↦ rw (threw, ask_history) h
          | inr (chunks, came) ↦ rw (came, ask_history) (take_answer_kept n chunks now h)
        ]

    pub request_history_kept :
        (n : CarbonNode) (target : String) (connections : List Connection) (remote : Remote)
        (now clock : ℕ)
        → Q n.session.ledger
        → Q (request_history wire n target connections remote now clock).session.ledger
    unfolding request_history
    request_history_kept n target connections remote now clock h =
        let sequence = next_sequence n.session.local_sequence clock in
        let counted : CarbonNode = record n {
          session = record n.session { local_sequence = sequence };
        } in
        elim (Bool-cases (not n.is_running || not (is_online n.phase))) [
          | inl offline ↦ rw (offline, request_history) h
          | inr running ↦ elim (Option-cases (choose_connection target connections)) [
            | inl nobody ↦ rw (running, request_history, nobody) h
            | inr (c, chosen) ↦ elim (Bool-cases (remote.opens c)) [
              | inr closed ↦ rw (running, request_history, chosen, closed) h
              | inl opened ↦
                  rw (running, request_history, chosen, opened)
                    (ask_history_kept counted remote c now (remote.signs sequence) h)
            ]
          ]
        ]
