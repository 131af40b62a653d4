-- ===== src/Verify/Passed.antt =====
-- What `assertUnsigned` and `verifyRoomEvent` (src/network/room-events.ts) have checked where they let an
-- event pass.
use dsh_carbonclub.Base.{ℕ, ◌+◌, ◌≡◌, refl, Bool, true, false, not, ◌&&◌, Option, none, some}
use dsh_carbonclub.Verify.Values.{
  pos, Value, property, is_object, is_text, is_text_with, is_safe_with, is_positive,
}
use dsh_carbonclub.Verify.Payloads.{
  VerifyError, not_object, unsupported, bad_id, bad_origin, bad_sequence, bad_timestamp,
  bad_public_key, stale_join, throw_if, and_then, Outside, has_length, is_up_to,
}
use dsh_carbonclub.Verify.Events.{
  assert_unsigned, assert_content, assert_times, is_since, is_join_event, is_integer,
  max_clock_skew_ms, max_event_age_ms, join_freshness_ms, Keys, assert_signature, verify_room_event,
}
use dsh_carbonclub.Base.{◌||◌}

pub and_then-none :
    (first next : Option VerifyError) → and_then first next ≡ none → (first ≡ none) × (next ≡ none)
and_then-none none next h = (refl, h)
and_then-none (some e) next h = absurd (cc)

pub throw_if-none : (test : Bool) (e : VerifyError) → throw_if test e ≡ none → test ≡ false
throw_if-none true e h = absurd (cc)
throw_if-none false e h = refl

-- A check that passed was true.
pub passed : (test : Bool) (e : VerifyError) → throw_if (not test) e ≡ none → test ≡ true
passed true e h = refl
passed false e h = absurd (cc)

module _ (outside : Outside) where
  pub record IsChecked (event : Value) (now : ℕ) (allow_historical : Bool) : Type 0 where
    pub has_id : is_text_with (has_length outside 16 80) (property "eventId" event) ≡ true
    pub has_origin : is_text_with (has_length outside 16 160) (property "origin" event) ≡ true
    pub has_sequence : is_safe_with is_positive (property "sequence" event) ≡ true
    pub has_time :
        is_safe_with
          (λ t.
            is_up_to (pos (now + max_clock_skew_ms)) t
            && ((allow_historical && is_join_event event) || is_since now max_event_age_ms t))
          (property "issuedAt" event)
        ≡ true
    pub has_key : is_text_with (has_length outside 0 512) (property "publicKey" event) ≡ true
    pub has_content :
        assert_content outside event (property "origin" event) (property "issuedAt" event) ≡ none
    pub is_recent :
        (not allow_historical
          && is_join_event event
          && not (is_safe_with (is_since now join_freshness_ms) (property "issuedAt" event)))
        ≡ false

  pub assert_unsigned-IsChecked :
      (event : Value) (now : ℕ) (allow_historical : Bool)
      → assert_unsigned outside event now allow_historical ≡ none
      → IsChecked event now allow_historical
  unfolding assert_unsigned
  assert_unsigned-IsChecked event now allow_historical h =
      let g1 = and_then-none (throw_if (not (is_object event)) not_object) _ h in
      let g2 =
        and_then-none
          (throw_if
            (not (
              is_integer (pos 1) (property "version" event)
              && is_text "hall" (property "roomId" event)))
            unsupported)
          _ g1.1 in
      let g3 =
        and_then-none
          (throw_if (not (is_text_with (has_length outside 16 80) (property "eventId" event)))
            bad_id)
          _ g2.1 in
      let g4 =
        and_then-none
          (throw_if (not (is_text_with (has_length outside 16 160) (property "origin" event)))
            bad_origin)
          _ g3.1 in
      let g5 =
        and_then-none
          (throw_if (not (is_safe_with is_positive (property "sequence" event))) bad_sequence) _
          g4.1 in
      let g6 = and_then-none (assert_times outside event now allow_historical) _ g5.1 in
      let g7 =
        and_then-none
          (throw_if (not (is_text_with (has_length outside 0 512) (property "publicKey" event)))
            bad_public_key)
          _ g6.1 in
      let g8 =
        and_then-none
          (assert_content outside event (property "origin" event) (property "issuedAt" event)) _
          g7.1 in
      record {
        has_id = passed _ bad_id g3.0;
        has_origin = passed _ bad_origin g4.0;
        has_sequence = passed _ bad_sequence g5.0;
        has_time = passed _ bad_timestamp g6.0;
        has_key = passed _ bad_public_key g7.0;
        has_content = g8.0;
        is_recent = throw_if-none _ stale_join g8.1;
      }

  pub verify_room_event-IsChecked :
      (keys : Keys) (event : Value) (now : ℕ) (allow_historical : Bool)
      → verify_room_event outside keys event now allow_historical ≡ none
      → IsChecked event now allow_historical
        × (assert_signature outside keys event
              (property "signature" event)
              (property "publicKey" event)
              (property "origin" event)
            ≡ none)
  unfolding verify_room_event
  verify_room_event-IsChecked keys event now allow_historical h =
      let parts = and_then-none (assert_unsigned outside event now allow_historical) _ h in
      (assert_unsigned-IsChecked event now allow_historical parts.0, parts.1)
