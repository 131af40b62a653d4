-- ===== src/Node/Posted.antt =====
-- What `publishHallMessage` of src/network/node.ts leaves a node with.
use dsh_carbonclub.Base.{
  ℕ, ◌≡◌, refl, sym, ap, ◌∙◌, true, String, Option, none, some, Bool-cases, Option-cases, inl, inr,
}
use dsh_carbonclub.Base.Result.{Result, ok, ok_injective}
use dsh_carbonclub.Types.{RoomEvent, RoomMessage}
use dsh_carbonclub.Ledger.Accept.{Engine}
use dsh_carbonclub.Ledger.Snapshot.{HallSeat}
use dsh_carbonclub.Ledger.Calls.{accept}
use dsh_carbonclub.Node.Admitted.{is_admitted}
use dsh_carbonclub.Node.Peers.{next_sequence}
use dsh_carbonclub.Node.Session.{
  LocalPresence, Session, SessionError, not_seated, profile_sync, rate_limit, not_signed,
  not_published, message_input, Outlet, profile_equals, find_own, room_snapshot, speak_as,
  post_with, publish_hall_message,
}
use dsh_carbonclub.Node.Sessions.{not_ok}
use dsh_carbonclub.Hall.Defs.{has_participant}
use dsh_carbonclub.Hall.Derive.{derive}
use dsh_carbonclub.Ledger.Defs.{Ledger, is_chat, is_sync_request, expire_presence_indexes}
use dsh_carbonclub.Ledger.Accept.{is_admissible, store_event}
use dsh_carbonclub.Ledger.Snapshot.{snapshot, show_hall}
use dsh_carbonclub.Ledger.Calls.{answer}
use dsh_carbonclub.Node.Admitted.{is_own, is_admitted-snapshot}
use dsh_carbonclub.Base.{ℕ, ◌<◌, ◌||◌, List, [], ◌∷◌, find, any, same, arith, none_some, subst}
use dsh_carbonclub.Base.Dict

-- Whoever finds a seat of its own is admitted.
find_own-any :
    (peer : String) (seats : List (Option HallSeat)) (seat : HallSeat)
    → find_own peer seats ≡ some seat
    → any (is_own peer) seats ≡ true
unfolding any
find_own-any peer [] seat h = absurd (cc)
find_own-any peer (s ∷ seats) seat h = ground (arith, h, find_own-any peer seats seat)

module _ (engine : Engine) where
  -- The message of an event in the hall that a ledger derives for the event's time.
  abbrev pub message_in : Ledger → RoomEvent → Option RoomMessage
  message_in l e =
      find (λ (m : RoomMessage). same m.id e.event_id)
        (derive engine.locale_compare l.events e.issued_at).messages

  answer-message_in :
      (l : Ledger) (e : RoomEvent) (message : RoomMessage)
      → (answer engine l e).1 ≡ some message
      → message_in (answer engine l e).0 e ≡ some message
  unfolding answer snapshot show_hall
  answer-message_in l e message h = elim (Bool-cases (is_chat e.payload)) [
    | inr other ↦ none_some {o = (answer engine l e).1} (rw (other, answer) refl) h
    | inl chat ↦ rw (chat, answer) (sym (rw (chat, answer) refl) ∙ h)
  ]

  accept-message_in :
      (l : Ledger) (e : RoomEvent) (message : RoomMessage)
      → (accept engine l e).1 ≡ some message
      → message_in (accept engine l e).0 e ≡ some message
  unfolding accept
  accept-message_in l e message h =
      let l' = expire_presence_indexes l e.issued_at in
      let o = (accept engine l e).1 in
      elim (Bool-cases (is_sync_request e.payload || Dict.has e.event_id l.seen_event_ids)) [
        | inl skipped ↦ none_some {o = o} (rw (skipped, accept) refl) h
        | inr taken ↦ elim (Bool-cases (is_admissible engine l' e)) [
          | inr dropped ↦ none_some {o = o} (rw (taken, accept, dropped) refl) h
          | inl admitted ↦
              let same_answer : accept engine l e ≡ answer engine (store_event l' e) e =
                rw (taken, accept, admitted) refl in
              ap (λ (a : Ledger × Option RoomMessage). message_in a.0 e) same_answer
              ∙ answer-message_in (store_event l' e) e message
                  (sym (ap (λ (a : Ledger × Option RoomMessage). a.1) same_answer) ∙ h)
        ]
      ]

module _ (engine : Engine) (outlet : Outlet) where
  -- How a message was posted: what the node signed, numbered behind all before and published; and the
  -- ledger that the call leaves has the message.
  pub record IsPosted (s after : Session) (body : String) (now clock : ℕ) (message : RoomMessage)
      : Type 0 where
    pub event : RoomEvent
    pub signed : outlet.signs (message_input body) after.local_sequence now ≡ some event
    pub numbered : s.local_sequence < after.local_sequence
    pub has_message : message_in engine after.ledger event ≡ some message
    pub published : outlet.publishes event ≡ true

  speak_as-IsPosted :
      (s : Session) (body : String) (now clock : ℕ) (message : RoomMessage)
      → (speak_as engine outlet s body now clock).1 ≡ ok message
      → IsPosted s (speak_as engine outlet s body now clock).0 body now clock message
  unfolding speak_as next_sequence
  speak_as-IsPosted s body now clock message h =
      let sequence = next_sequence s.local_sequence clock in
      let r = (speak_as engine outlet s body now clock).1 in
      elim (Option-cases (outlet.signs (message_input body) sequence now)) [
        | inl unsigned ↦ not_ok not_signed r (rw (unsigned, speak_as) refl) h
        | inr (event, signed) ↦ elim (Option-cases (accept engine s.ledger event).1) [
          | inl dropped ↦ not_ok rate_limit r (rw (signed, speak_as, dropped) refl) h
          | inr (stored_message, stored) ↦ elim (Bool-cases (outlet.publishes event)) [
            | inr kept ↦ not_ok not_published r (rw (signed, speak_as, stored, kept) refl) h
            | inl published ↦
                let e : ◌≡◌ {A = Result SessionError RoomMessage} (ok stored_message) (ok message) =
                  sym (rw (signed, speak_as, stored, published) refl) ∙ h in
                let after : Session = record s {
                  local_sequence = sequence;
                  ledger = (accept engine s.ledger event).0;
                } in
                let posted : IsPosted s after body now clock message = record {
                  event = event;
                  signed = signed;
                  numbered = ground arith;
                  has_message =
                      accept-message_in engine s.ledger event message
                        (stored ∙ ap some (ok_injective e));
                  published = published;
                } in
                rw (signed, speak_as, stored, published) posted
          ]
        ]
      ]

  -- A node that takes part in the hall, is shown on a seat with its own profile, and posted a message.
  pub record IsSaid (s after : Session) (o : Option LocalPresence) (body : String) (now clock : ℕ)
      (message : RoomMessage) : Type 0 where
    pub presence : LocalPresence
    pub joined : o ≡ some presence
    pub takes_part :
        has_participant (derive engine.locale_compare s.ledger.events now) s.peer_id ≡ true
    pub seat : HallSeat
    pub seated : find_own s.peer_id (room_snapshot engine outlet s now).1.seats ≡ some seat
    pub own_profile : profile_equals seat.participant.profile presence.profile ≡ true
    pub posted : IsPosted s after body now clock message

  post_with-IsSaid :
      (s : Session) (o : Option LocalPresence) (body : String) (now clock : ℕ)
      (message : RoomMessage)
      → (post_with engine outlet s o body now clock).1 ≡ ok message
      → IsSaid s (post_with engine outlet s o body now clock).0 o body now clock message
  unfolding post_with room_snapshot is_admitted
  post_with-IsSaid s none body now clock message h = absurd (cc)
  post_with-IsSaid s (some presence) body now clock message h =
      let all = post_with engine outlet s (some presence) body now clock in
      let shown = room_snapshot engine outlet s now in
      elim (Option-cases (find_own s.peer_id shown.1.seats)) [
        | inl standing ↦ not_ok not_seated all.1 (rw (standing, post_with) refl) h
        | inr (seat, seated) ↦
            elim (Bool-cases (profile_equals seat.participant.profile presence.profile)) [
              | inr other ↦ not_ok profile_sync all.1 (rw (seated, post_with, other) refl) h
              | inl equal ↦
                  let same_call : all ≡ speak_as engine outlet shown.0 body now clock =
                    rw (seated, post_with, equal) refl in
                  let said = speak_as-IsPosted shown.0 body now clock message (
                    sym (ap (λ (a : Session × Result SessionError RoomMessage). a.1) same_call)
                    ∙ h) in
                  let inside : is_admitted shown.1 s.peer_id ≡ true =
                    ground (arith, find_own-any s.peer_id shown.1.seats seat seated) in
                  record {
                    presence = presence;
                    joined = refl;
                    takes_part =
                        sym (is_admitted-snapshot engine.locale_compare s.ledger now s.peer_id)
                        ∙ inside;
                    seat = seat;
                    seated = seated;
                    own_profile = equal;
                    posted =
                        subst
                          (λ (a : Session × Result SessionError RoomMessage).
                            IsPosted s a.0 body now clock message)
                          (sym same_call)
                          (record {
                            event = said.event;
                            signed = said.signed;
                            numbered = said.numbered;
                            has_message = said.has_message;
                            published = said.published;
                          });
                  }
            ]
      ]

  -- A message that `publishHallMessage` returns was posted by a node that has joined, takes part in the
  -- hall, and is shown on a seat with the profile that it joined with. The node signed it under a higher
  -- number than all before and published it; and the hall that is derived, for the message's time, from
  -- the ledger that the call leaves has the message under the id of the signed event.
  pub publish_hall_message-IsSaid :
      (s : Session) (body : String) (now clock : ℕ) (message : RoomMessage)
      → (publish_hall_message engine outlet s body now clock).1 ≡ ok message
      → IsSaid s
          (publish_hall_message engine outlet s body now clock).0
          s.local_presence
          body
          now
          clock
          message
  unfolding publish_hall_message
  publish_hall_message-IsSaid s body now clock message h =
      post_with-IsSaid s s.local_presence body now clock message h
