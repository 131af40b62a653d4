-- ===== src/Transport/Answered.antt =====
-- Who is answered, with what, and what comes of an answer: the sync of src/network/node.ts.
use dsh_carbonclub.Base.{
  ℕ, ◌≤◌, ◌≡◌, refl, sym, ap, ◌∙◌, subst, Bool, true, false, ◌&&◌, not, String, none, some, List,
  [], length, ltb, same, same_iff, arith, Bool-cases, Option-cases, inl, inr, and_true, none_some,
}
use dsh_carbonclub.Base.Result.{
  Result, ok, err, from_option, guard-eq-ok, bind-eq-ok, from_option-eq-ok, ok_injective,
}
use dsh_carbonclub.Rules
use dsh_carbonclub.Types.{
  RoomEvent, Payload, chat_message, hall_presence, hall_checkpoint, room_sync_request,
}
use dsh_carbonclub.Codec.{Bytes}
use dsh_carbonclub.Ledger.Calls.{events_for_sync}
use dsh_carbonclub.Verify.Values.{Value, property, is_undefined}
use dsh_carbonclub.Verify.Events.{verify_room_event}
use dsh_carbonclub.Verify.Typed.{read_event}
use dsh_carbonclub.Node.Limits.{allow_sync}
use dsh_carbonclub.Transport.Defs.{CarbonNode, Wire, verify_event}
use dsh_carbonclub.Transport.Sync.{
  SyncError, rate_limited, over_budget, unparsed, not_request, unverified, bad_requester, too_large,
  max_request_bytes, max_sync_bytes, gather, is_envelope, is_request_for, requested, read_request,
  answer_request, answer_sync, answer_value,
}
use dsh_carbonclub.Node.Waits.{IsPast, allow_sync-IsPast}
use dsh_carbonclub.Transport.Chosen.{length-events_for_sync, total-events_for_sync}
use dsh_carbonclub.Transport.Gathered.{joined, gather-eq-some}
use dsh_carbonclub.Base.Dict.{Dict, get-set}
use dsh_carbonclub.Base.Dict
use dsh_carbonclub.Base.Total.{total, one_if}

pub not_ok {ℓ κ} :
    {A : Type ℓ} {P : Type κ} (e : SyncError) (r : Result SyncError A) {a : A}
    → r ≡ err e
    → r ≡ ok a
    → P
not_ok e r is_error h = absurd (cc)

module _ (wire : Wire) where
  -- An event that the value was verified to be.
  pub record IsVerified (value : Value) (now : ℕ) (allow_historical : Bool) (e : RoomEvent)
      : Type 0 where
    pub passes : verify_room_event wire.outside wire.keys value now allow_historical ≡ none
    pub reads : read_event value ≡ some e

  pub verify_event-IsVerified :
      (value : Value) (now : ℕ) (allow_historical : Bool) (e : RoomEvent)
      → verify_event wire value now allow_historical ≡ some e
      → IsVerified value now allow_historical e
  unfolding verify_event
  verify_event-IsVerified value now allow_historical e h =
      elim (Option-cases (verify_room_event wire.outside wire.keys value now allow_historical)) [
        | inl passes ↦ record { passes = passes; reads = sym (rw (passes, verify_event) refl) ∙ h }
        | inr (error, fails) ↦ none_some (rw (fails, verify_event) refl) h
      ]

  -- A request that the remote peer signed for this node, at least a minute behind its last one, and the
  -- answer.
  pub record IsAnswer (n : CarbonNode) (remote : String) (chunks : List Bytes) (now later : ℕ)
      (contents : Bytes) : Type 0 where
    pub waited : IsPast now (Dict.get remote n.sync_windows)
    pub noted :
        Dict.get remote (answer_sync wire n remote chunks now later).0.sync_windows ≡ some now
    pub envelope : Value
    pub came : wire.parse (joined chunks) ≡ some envelope
    pub named : is_envelope envelope ≡ true
    pub request : RoomEvent
    pub signed : IsVerified (property "request" envelope) later false request
    pub sent : request.origin ≡ remote
    pub meant : request.payload ≡ room_sync_request n.session.peer_id
    pub events : List RoomEvent
    pub chosen :
        events ≡ (events_for_sync wire.engine n.session.ledger Rules.max_sync_events later).1
    pub inside :
        (p : RoomEvent → Bool) → total (one_if p) events ≤ total (one_if p) n.session.ledger.events
    pub few : length events ≤ Rules.max_sync_events
    pub answers : contents ≡ wire.print (answer_value wire events)
    pub short : length contents ≤ max_sync_bytes

  is_request_for-payload :
      (remote own : String) (e : RoomEvent) (payload : Payload)
      → is_request_for remote own e payload ≡ true
      → (e.origin ≡ remote) × (payload ≡ room_sync_request own)
  unfolding is_request_for
  is_request_for-payload remote own e (room_sync_request target) h =
      let both = and_true (same e.origin remote) (same target own) h in
      ((same_iff e.origin remote).0 both.0, ap room_sync_request ((same_iff target own).0 both.1))
  is_request_for-payload remote own e (chat_message _) h = absurd (cc)
  is_request_for-payload remote own e (hall_presence _) h = absurd (cc)
  is_request_for-payload remote own e (hall_checkpoint _) h = absurd (cc)

  read_request-IsVerified :
      (chunks : List Bytes) (remote own : String) (now : ℕ) (e : RoomEvent)
      → read_request wire chunks remote own now ≡ ok e
      → (envelope : Value) × (wire.parse (joined chunks) ≡ some envelope)
        × (is_envelope envelope ≡ true)
        × IsVerified (property "request" envelope) now false e
        × (e.origin ≡ remote)
        × (e.payload ≡ room_sync_request own)
  unfolding read_request requested
  read_request-IsVerified chunks remote own now e h =
      let (contents, gathered, h1) =
        bind-eq-ok (from_option (gather max_request_bytes [] chunks) over_budget) _ h in
      let (value, parsed, h2) = bind-eq-ok (from_option (wire.parse contents) unparsed) _ h1 in
      let (shaped, h3) =
        guard-eq-ok (is_envelope value && not (is_undefined (property "request" value))) not_request
          _ h2 in
      let (request, found, h4) =
        bind-eq-ok (from_option (verify_event wire (property "request" value) now false) unverified)
          _ h3 in
      let (fits, h5) =
        guard-eq-ok (is_request_for remote own request request.payload) bad_requester _ h4 in
      let same_event = ok_injective h5 in
      let own_request : is_request_for remote own e e.payload ≡ true =
        subst (λ (r : RoomEvent). is_request_for remote own r r.payload ≡ true) same_event fits in
      let (sent, meant) = is_request_for-payload remote own e e.payload own_request in
      (
        value,
        ap wire.parse
              (gather-eq-some max_request_bytes [] chunks contents (from_option-eq-ok _ _ gathered))
            ∙ from_option-eq-ok _ _ parsed,
        (and_true (is_envelope value) _ shaped).0,
        verify_event-IsVerified (property "request" value) now false e
            (from_option-eq-ok _ _ found ∙ ap some same_event),
        sent,
        meant,
      )

  -- The answer to what was read of a request.
  abbrev answered : CarbonNode → Result SyncError RoomEvent → ℕ → Result SyncError Bytes
  answered n request now = (answer_request wire n request now).1

  answered-request :
      (n : CarbonNode) (r : Result SyncError RoomEvent) (now : ℕ) (contents : Bytes)
      → answered n r now ≡ ok contents
      → let events = (events_for_sync wire.engine n.session.ledger Rules.max_sync_events now).1 in
        (request : RoomEvent) × (r ≡ ok request)
        × (contents ≡ wire.print (answer_value wire events))
        × (length contents ≤ max_sync_bytes)
  unfolding answer_request
  answered-request n (err e) now contents h = absurd (cc)
  answered-request n (ok request) now contents h =
      let events = (events_for_sync wire.engine n.session.ledger Rules.max_sync_events now).1 in
      let long = ltb max_sync_bytes (length (wire.print (answer_value wire events))) in
      elim (Bool-cases long) [
        | inl over ↦
            not_ok too_large (answered n (ok request) now) (rw (over, answer_request) refl) h
        | inr under ↦
            let is_answer : wire.print (answer_value wire events) ≡ contents =
              ok_injective (sym (rw (under, answer_request) refl) ∙ h) in
            (
              request,
              refl,
              sym is_answer,
              subst (λ (b : Bytes). length b ≤ max_sync_bytes) is_answer (ground (arith, under)),
            )
      ]

  windows-answer_request :
      (n : CarbonNode) (r : Result SyncError RoomEvent) (now : ℕ)
      → (answer_request wire n r now).0.sync_windows ≡ n.sync_windows
  unfolding answer_request
  windows-answer_request n (err e) now = refl
  windows-answer_request n (ok request) now = refl

  -- A node answers a sync only to a peer whose last one, if it noted any, is a minute ago, and it notes
  -- the new one. All chunks together parse to an envelope whose request verified; the peer itself signed
  -- it, for this node. The answer is the JSON of the version, the topic and at most 1300 events that the
  -- ledger has, none more often than it has them, in at most 8 MiB.
  pub answer_sync-IsAnswer :
      (n : CarbonNode) (remote : String) (chunks : List Bytes) (now later : ℕ) (contents : Bytes)
      → (answer_sync wire n remote chunks now later).1 ≡ ok contents
      → IsAnswer n remote chunks now later contents
  unfolding answer_sync answer_request
  answer_sync-IsAnswer n remote chunks now later contents h =
      let r = read_request wire chunks remote n.session.peer_id later in
      let l = n.session.ledger in
      let counted : CarbonNode = record n {
        sync_windows = (allow_sync n.sync_windows remote now).0;
      } in
      elim (Bool-cases (allow_sync n.sync_windows remote now).1) [
        | inr refused ↦
            not_ok rate_limited (answer_sync wire n remote chunks now later).1
              (rw (refused, answer_sync) refl) h
        | inl allowed ↦
            let same_answer : answer_sync wire n remote chunks now later
                ≡ answer_request wire counted r later =
              rw (allowed, answer_sync) refl in
            let (request, read, answers, short) =
              answered-request counted r later contents
                (sym (ap (λ (a : CarbonNode × Result SyncError Bytes). a.1) same_answer) ∙ h) in
            let (envelope, came, named, signed, sent, meant) =
              read_request-IsVerified chunks remote n.session.peer_id later request read in
            let (waited, noted) = allow_sync-IsPast n.sync_windows remote now allowed in
            record {
              waited = waited;
              noted =
                  ap (λ (a : CarbonNode × Result SyncError Bytes). Dict.get remote a.0.sync_windows)
                    same_answer
                  ∙ ap (λ (d : Dict ℕ). Dict.get remote d) (windows-answer_request counted r later)
                  ∙ noted;
              envelope = envelope;
              came = came;
              named = named;
              request = request;
              signed = signed;
              sent = sent;
              meant = meant;
              events = (events_for_sync wire.engine l Rules.max_sync_events later).1;
              chosen = refl;
              inside = λ p. total-events_for_sync wire.engine l later (one_if p);
              few = length-events_for_sync wire.engine l later;
              answers = answers;
              short = short;
            }
      ]
