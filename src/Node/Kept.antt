-- ===== src/Node/Kept.antt =====
-- What the calls of src/network/node.ts keep of a node's ledger: they only let presences expire and
-- accept what the node signed.
use dsh_carbonclub.Base.{
  ℕ, ◌≡◌, refl, String, Option, none, some, Bool-cases, Option-cases, inl, inr,
}
use dsh_carbonclub.Types.{RoomProfile, RoomEvent}
use dsh_carbonclub.Ledger.Defs.{Ledger}
use dsh_carbonclub.Ledger.Accept.{Engine}
use dsh_carbonclub.Ledger.Snapshot.{snapshot}
use dsh_carbonclub.Ledger.Calls.{admission_error, accept}
use dsh_carbonclub.Ledger.Sources.{IsClosed}
use dsh_carbonclub.Node.Admitted.{is_admitted}
use dsh_carbonclub.Node.Peers.{next_sequence}
use dsh_carbonclub.Node.Session.{
  LocalPresence, Session, EventInput, leave_input, message_input, Outlet, profile_equals,
  clear_local_presence, find_own, room_snapshot, settle, announce, present, join_hall, leave_hall,
  speak_as, post_with, publish_hall_message, content_address_profile,
}

module _ (engine : Engine) (outlet : Outlet) (P : RoomEvent → Type 0) (Q : Ledger → Type 0) where
  -- The property is kept by the ledger's own calls, and the node signs events of the kind.
  pub record IsOpen : Type 0 where
    pub closed : IsClosed engine P Q
    pub signs :
        (input : EventInput) (sequence now : ℕ) (e : RoomEvent)
        → outlet.signs input sequence now ≡ some e
        → P e

  module _ (laws : IsOpen) where
    room_snapshot_kept :
        (s : Session) (now : ℕ) → Q s.ledger → Q (room_snapshot engine outlet s now).0.ledger
    unfolding room_snapshot snapshot
    room_snapshot_kept s now h = laws.closed.expires s.ledger now h

    settle_kept : (s : Session) (now : ℕ) → Q s.ledger → Q (settle engine outlet s now).0.ledger
    unfolding settle clear_local_presence
    settle_kept s now h =
        let shown = room_snapshot_kept s now h in
        elim (Bool-cases (is_admitted (room_snapshot engine outlet s now).1 s.peer_id)) [
          | inl inside ↦ rw (inside, settle) shown
          | inr outside ↦ rw (outside, settle) shown
        ]

    announce_kept :
        (s : Session) (o : Option RoomEvent) (now : ℕ)
        → ((e : RoomEvent) → o ≡ some e → P e)
        → Q s.ledger
        → Q (announce engine outlet s o now).0.ledger
    unfolding announce
    announce_kept s none now own h = h
    announce_kept s (some event) now own h =
        let kept = laws.closed.accepts s.ledger event (own event refl) h in
        elim (Bool-cases (outlet.publishes event)) [
          | inl out ↦
              rw (out, announce)
                (settle_kept (record s { ledger = (accept engine s.ledger event).0 }) now kept)
          | inr lost ↦ rw (lost, announce) kept
        ]

    present_kept :
        (s : Session) (profile : RoomProfile) (now clock : ℕ)
        → Q s.ledger
        → Q (present engine outlet s profile now clock).0.ledger
    unfolding present
    present_kept s profile now clock h =
        announce_kept _ _ now (laws.signs _ (next_sequence s.local_sequence clock) now) h

    pub join_hall_kept :
        (s : Session) (profile : RoomProfile) (now clock : ℕ)
        → Q s.ledger
        → Q (join_hall engine outlet s profile now clock).0.ledger
    unfolding join_hall clear_local_presence
    join_hall_kept s profile now clock h =
        let shown = room_snapshot_kept s now h in
        let before = (room_snapshot engine outlet s now).0 in
        let addressed = content_address_profile outlet profile in
        elim (Option-cases (admission_error engine s.ledger s.peer_id now)) [
          | inr (error, turned_away) ↦ rw (turned_away, join_hall) h
          | inl admitted ↦
              elim (Bool-cases (is_admitted (room_snapshot engine outlet s now).1 s.peer_id)) [
                | inl inside ↦
                    rw (admitted, join_hall, inside) (present_kept before addressed now clock shown)
                | inr outside ↦
                    rw (admitted, join_hall, outside)
                      (present_kept (clear_local_presence before) addressed now clock shown)
              ]
        ]

    pub leave_hall_kept :
        (s : Session) (now clock : ℕ)
        → Q s.ledger
        → Q (leave_hall engine outlet s now clock).0.ledger
    unfolding leave_hall clear_local_presence
    leave_hall_kept s now clock h =
        let sequence = next_sequence s.local_sequence clock in
        elim (Option-cases s.local_presence) [
          | inl absent ↦ rw (absent, leave_hall) (room_snapshot_kept s now h)
          | inr (presence, here) ↦ elim (Option-cases (outlet.signs leave_input sequence now)) [
            | inl unsigned ↦ rw (here, leave_hall, unsigned) h
            | inr (event, signed) ↦
                let kept =
                  laws.closed.accepts s.ledger event
                    (laws.signs leave_input sequence now event signed) h in
                let left : Session = record s {
                  local_sequence = sequence;
                  local_presence = none;
                  ledger = (accept engine s.ledger event).0;
                } in
                elim (Bool-cases (outlet.publishes event)) [
                  | inl out ↦
                      rw (here, leave_hall, signed, out)
                        (room_snapshot_kept (clear_local_presence left) now kept)
                  | inr lost ↦ rw (here, leave_hall, signed, lost) kept
                ]
          ]
        ]

    speak_as_kept :
        (s : Session) (body : String) (now clock : ℕ)
        → Q s.ledger
        → Q (speak_as engine outlet s body now clock).0.ledger
    unfolding speak_as
    speak_as_kept s body now clock h =
        let sequence = next_sequence s.local_sequence clock in
        elim (Option-cases (outlet.signs (message_input body) sequence now)) [
          | inl unsigned ↦ rw (unsigned, speak_as) h
          | inr (event, signed) ↦
              let kept =
                laws.closed.accepts s.ledger event
                  (laws.signs (message_input body) sequence now event signed) h in
              elim (Option-cases (accept engine s.ledger event).1) [
                | inl dropped ↦ rw (signed, speak_as, dropped) kept
                | inr (message, stored) ↦ elim (Bool-cases (outlet.publishes event)) [
                  | inl out ↦ rw (signed, speak_as, stored, out) kept
                  | inr lost ↦ rw (signed, speak_as, stored, lost) kept
                ]
              ]
        ]

    post_with_kept :
        (s : Session) (o : Option LocalPresence) (body : String) (now clock : ℕ)
        → Q s.ledger
        → Q (post_with engine outlet s o body now clock).0.ledger
    unfolding post_with
    post_with_kept s none body now clock h = h
    post_with_kept s (some presence) body now clock h =
        let shown = room_snapshot_kept s now h in
        elim (Option-cases (find_own s.peer_id (room_snapshot engine outlet s now).1.seats)) [
          | inl standing ↦ rw (standing, post_with) shown
          | inr (seat, seated) ↦
              elim (Bool-cases (profile_equals seat.participant.profile presence.profile)) [
                | inl equal ↦
                    rw (seated, post_with, equal)
                      (speak_as_kept (room_snapshot engine outlet s now).0 body now clock shown)
                | inr other ↦ rw (seated, post_with, other) shown
              ]
        ]

    pub publish_hall_message_kept :
        (s : Session) (body : String) (now clock : ℕ)
        → Q s.ledger
        → Q (publish_hall_message engine outlet s body now clock).0.ledger
    unfolding publish_hall_message
    publish_hall_message_kept s body now clock h =
        post_with_kept s s.local_presence body now clock h
