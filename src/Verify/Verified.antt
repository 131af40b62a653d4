-- ===== src/Verify/Verified.antt =====
-- A whole event that `verifyRoomEvent` (src/network/room-events.ts) lets pass is of the type that it
-- asserts.
use dsh_carbonclub.Base.{
  ℕ, ◌+◌, ◌≤◌, ◌≡◌, refl, Bool, true, ◌&&◌, ◌||◌, String, none, some, List, [], ◌∷◌, and_true,
  Bool-cases, inl, inr, arith,
}
use dsh_carbonclub.Types.{
  HallCheckpoint, Payload, chat_message, hall_presence, hall_checkpoint, room_sync_request,
  RoomEvent,
}
use dsh_carbonclub.Verify.Values.{
  ℤ, pos, negsuc, Value, undefined, null, boolean, integer, fraction, text, array, object, Values,
  end, item, property, is_null, is_text, is_text_with, is_safe_with, is_positive, is_natural,
}
use dsh_carbonclub.Verify.Payloads.{
  Outside, has_length, throw_if, bad_checkpoint, bad_target, bad_message, type_error, are_ids,
  are_witnesses, assert_presence, assert_payload, is_up_to,
}
use dsh_carbonclub.Verify.Events.{
  Keys, assert_signature, assert_content, is_join_event, is_since, max_clock_skew_ms,
  max_event_age_ms, verify_room_event,
}
use dsh_carbonclub.Verify.Passed.{and_then-none, passed, IsChecked, verify_room_event-IsChecked}
use dsh_carbonclub.Verify.Fresh.{content-HasTimes}
use dsh_carbonclub.Verify.Typed.{as_texts, as_text_array, read_checkpoint, read_content, read_event}
use dsh_carbonclub.Verify.Shapes.{
  is_text_with-text, is_text-text, is_safe_with-integer, is_safe_with-natural,
}
use dsh_carbonclub.Verify.Read.{read-assert_presence}

-- What a verified value and the event that it reads as have in common.
pub record IsRead (now : ℕ) (event : Value) (e : RoomEvent) : Type 0 where
  pub reads : read_event event ≡ some e
  pub same_origin : property "origin" event ≡ text e.origin
  pub same_sequence : property "sequence" event ≡ integer (pos e.sequence)
  pub same_time : property "issuedAt" event ≡ integer (pos e.issued_at)
  pub is_counted : 1 ≤ e.sequence
  pub is_due : e.issued_at ≤ now + max_clock_skew_ms

module _ (outside : Outside) where
  epoch-natural : (v : Value) → is_safe_with is_natural v ≡ true → (n : ℕ) × (v ≡ integer (pos n))
  epoch-natural v h = let (n, e, _) = is_safe_with-natural is_natural v (λ n. refl) h in (n, e)

  read-are_ids :
      (vs : Values) → are_ids outside vs ≡ true → (ts : List String) × (as_texts vs ≡ some ts)
  read-are_ids end h = ([], refl)
  read-are_ids (item v vs) h =
      let parts = and_true (is_text_with (has_length outside 16 160) v) (are_ids outside vs) h in
      let (t, e0) = is_text_with-text (has_length outside 16 160) v parts.0 in
      let (ts, e1) = read-are_ids vs parts.1 in (t ∷ ts, rw (e0, e1) refl)

  read-are_witnesses :
      (v : Value)
      → are_witnesses outside v ≡ true
      → (ts : List String) × (as_text_array v ≡ some ts)
  read-are_witnesses (array vs) h = read-are_ids vs (and_true _ (are_ids outside vs) h).1
  read-are_witnesses undefined h = absurd (cc)
  read-are_witnesses null h = absurd (cc)
  read-are_witnesses (boolean b) h = absurd (cc)
  read-are_witnesses (integer n) h = absurd (cc)
  read-are_witnesses fraction h = absurd (cc)
  read-are_witnesses (text t) h = absurd (cc)
  read-are_witnesses (object fields) h = absurd (cc)

  read-checkpoint :
      (v : Value)
      → (is_safe_with is_natural (property "epoch" v)
          && is_text_with (has_length outside 16 160) (property "stewardPeerId" v)
          && is_text_with outside.is_state_hash (property "stateHash" v)
          && are_witnesses outside (property "witnesses" v))
        ≡ true
      → (c : HallCheckpoint) × (read_checkpoint v ≡ some c)
  unfolding read_checkpoint
  read-checkpoint v h =
      let h1 = and_true _ (are_witnesses outside (property "witnesses" v)) h in
      let h2 = and_true _ (is_text_with outside.is_state_hash (property "stateHash" v)) h1.0 in
      let h3 =
        and_true _ (is_text_with (has_length outside 16 160) (property "stewardPeerId" v)) h2.0 in
      let (epoch, e0) = epoch-natural (property "epoch" v) h3.0 in
      let (steward, e1) = is_text_with-text _ (property "stewardPeerId" v) h3.1 in
      let (hash, e2) = is_text_with-text _ (property "stateHash" v) h2.1 in
      let (witnesses, e3) = read-are_witnesses (property "witnesses" v) h1.1 in
      (
        record {
          epoch = epoch;
          steward_peer_id = steward;
          state_hash = hash;
          witnesses = witnesses;
        },
        rw (e0, e1, e2, e3) refl,
      )

  read-assert_payload :
      (kind : Value) (origin : String) (t : ℕ) (v : Value)
      → assert_payload outside kind origin (pos t) v ≡ none
      → (p : Payload) × (read_content kind v ≡ some p)
  unfolding assert_payload read_content
  read-assert_payload kind origin t v h = elim (Bool-cases (is_text "chat.message" kind)) [
    | inl chat ↦
        let h1 = and_then-none (throw_if (is_null v) type_error) _ (rw chat at h) in
        let (body, e) = is_text_with-text _ (property "body" v) (passed _ bad_message h1.1) in
        (chat_message body, rw (chat, e) refl)
    | inr c ↦ elim (Bool-cases (is_text "hall.presence" kind)) [
      | inl presence ↦
          let h1 =
            and_then-none (throw_if (is_null v) type_error)
              (assert_presence outside origin (pos t) v) (rw (c, presence) at h) in
          let (p, e) = read-assert_presence outside origin t v h1.1 in
          (hall_presence p, rw (c, presence, e) refl)
      | inr p ↦ elim (Bool-cases (is_text "hall.checkpoint" kind)) [
        | inl checkpoint ↦
            let h1 =
              and_then-none (throw_if (is_null v) type_error) _ (rw (c, p, checkpoint) at h) in
            let (payload, e) = read-checkpoint v (passed _ bad_checkpoint h1.1) in
            (hall_checkpoint payload, rw (c, p, checkpoint, e) refl)
        | inr k ↦ elim (Bool-cases (is_text "room.sync.request" kind)) [
          | inl request ↦
              let (target, e) =
                is_text_with-text _ (property "targetPeerId" v)
                  (passed _ bad_target (rw (c, p, k, request) at h)) in
              (room_sync_request target, rw (c, p, k, request, e) refl)
          | inr r ↦ let no_kind = rw (c, p, k, r) at h in absurd (cc)
        ]
      ]
    ]
  ]

  natural_time :
      (event : Value) (now : ℕ) (allow_historical : Bool) (n : ℤ)
      → max_event_age_ms ≤ now
      → IsChecked outside event now allow_historical
      → property "issuedAt" event ≡ integer n
      → (is_up_to (pos (now + max_clock_skew_ms)) n
          && ((allow_historical && is_join_event event) || is_since now max_event_age_ms n))
        ≡ true
      → (t : ℕ) × (property "issuedAt" event ≡ integer (pos t))
  natural_time event now allow_historical (pos t) late checked e test = (t, e)
  natural_time event now allow_historical (negsuc m) late checked e test =
      elim (Bool-cases (allow_historical && is_join_event event)) [
        | inl history ↦
            let joins = and_true _ _ (and_true allow_historical (is_join_event event) history).1 in
            let content : assert_content outside event (property "origin" event)
                  (integer (negsuc m))
                ≡ none =
              rw e at checked.has_content in
            elim (content-HasTimes outside event (property "origin" event) (integer (negsuc m))
              (is_text-text "hall.presence" (property "kind" event) joins.0)
              (is_text-text "join" (property "action" (property "payload" event)) joins.1)
              content) [ ]
        | inr other ↦ absurd (ground (arith, other, test, late))
      ]

  -- Where a day of the clock has gone, no event that passes was issued before time 0.
  issued-natural :
      (event : Value) (now : ℕ) (allow_historical : Bool)
      → max_event_age_ms ≤ now
      → IsChecked outside event now allow_historical
      → (t : ℕ) × (property "issuedAt" event ≡ integer (pos t))
  issued-natural event now allow_historical late checked =
      let (n, e, test) = is_safe_with-integer _ (property "issuedAt" event) checked.has_time in
      natural_time event now allow_historical n late checked e test

  signature-text :
      (keys : Keys) (event : Value) (signature key origin : Value)
      → assert_signature outside keys event signature key origin ≡ none
      → (t : String) × (signature ≡ text t)
  signature-text keys event (text t) key origin h = (t, refl)
  signature-text keys event undefined key origin h = absurd (cc)
  signature-text keys event null key origin h = absurd (cc)
  signature-text keys event (boolean _) key origin h = absurd (cc)
  signature-text keys event (integer _) key origin h = absurd (cc)
  signature-text keys event fraction key origin h = absurd (cc)
  signature-text keys event (array _) key origin h = absurd (cc)
  signature-text keys event (object _) key origin h = absurd (cc)

  -- An event that `verifyRoomEvent` lets pass, as history or not, a day or more after time 0, reads as
  -- a typed event of the same origin, sequence number and time: every property that its type names is
  -- there with its type, its sequence number is positive, and it is issued at most five minutes ahead.
  pub verify_room_event-IsRead :
      (keys : Keys) (event : Value) (now : ℕ) (allow_historical : Bool)
      → max_event_age_ms ≤ now
      → verify_room_event outside keys event now allow_historical ≡ none
      → (e : RoomEvent) × IsRead now event e
  unfolding read_event
  verify_room_event-IsRead keys event now allow_historical late h =
      let (checked, signed) =
        verify_room_event-IsChecked outside keys event now allow_historical h in
      let (event_id, e0) = is_text_with-text _ (property "eventId" event) checked.has_id in
      let (origin, e1) = is_text_with-text _ (property "origin" event) checked.has_origin in
      let (sequence, e2, first) =
        is_safe_with-natural is_positive (property "sequence" event) (λ n. refl)
          checked.has_sequence in
      let (issued_at, e3) = issued-natural event now allow_historical late checked in
      let (key, e4) = is_text_with-text _ (property "publicKey" event) checked.has_key in
      let content : assert_payload outside (property "kind" event) origin (pos issued_at)
            (property "payload" event)
          ≡ none =
        rw (e1, e3) at checked.has_content in
      let (payload, e5) =
        read-assert_payload (property "kind" event) origin issued_at (property "payload" event)
          content in
      let (signature, e6) =
        signature-text keys event (property "signature" event) (property "publicKey" event)
          (property "origin" event) signed in
      (
        record {
          event_id = event_id;
          origin = origin;
          sequence = sequence;
          issued_at = issued_at;
          public_key = key;
          payload = payload;
          signature = signature;
        },
        record {
          reads = rw (e0, e1, e2, e3, e4, e5, e6) refl;
          same_origin = e1;
          same_sequence = e2;
          same_time = e3;
          is_counted = ground (arith, first);
          is_due = ground (arith, e3, checked.has_time);
        },
      )
