-- ===== src/Verify/Events.antt =====
-- `assertUnsigned` and `verifyRoomEvent` of src/network/room-events.ts. The keys and signatures of
-- libp2p are the parameter `keys`.
use dsh_carbonclub.Base.{
  ℕ, suc, ◌+◌, ◌*◌, ◌==◌, Bool, false, not, ◌&&◌, ◌||◌, String, Option, none, some, leb,
}
use dsh_carbonclub.Verify.Values.{
  ℤ, pos, negsuc, Value, integer, text, object, Fields, closed, field, property, is_object, is_text,
  is_text_with, is_safe_with, is_positive,
}
use dsh_carbonclub.Verify.Payloads.{
  VerifyError, not_object, unsupported, bad_id, bad_origin, bad_sequence, bad_timestamp,
  bad_public_key, stale_join, bad_signature, undecodable_key, other_key, not_verified, throw_if,
  and_then, Outside, has_length, assert_payload, is_up_to,
}

abbrev pub max_clock_skew_ms : ℕ
max_clock_skew_ms = 5 * 60 * 1_000

abbrev pub max_event_age_ms : ℕ
max_event_age_ms = 24 * 60 * 60 * 1_000

abbrev pub join_freshness_ms : ℕ
join_freshness_ms = 30_000

-- `issuedAt >= now - age`
abbrev pub is_since : ℕ → ℕ → ℤ → Bool
is_since now age (pos t) = leb now (t + age)
is_since now age (negsuc t) = leb (now + suc t) age

abbrev pub is_integer : ℤ → Value → Bool
is_integer (pos m) (integer (pos n)) = m == n
is_integer (negsuc m) (integer (negsuc n)) = m == n
is_integer _ _ = false

abbrev pub is_join_event : Value → Bool
is_join_event event =
    is_text "hall.presence" (property "kind" event)
    && is_text "join" (property "action" (property "payload" event))

module _ (outside : Outside) where
  abbrev pub assert_times : Value → ℕ → Bool → Option VerifyError
  assert_times event now allow_historical =
      let historical = allow_historical && is_join_event event in
      throw_if
        (not (
          is_safe_with
            (λ t.
              is_up_to (pos (now + max_clock_skew_ms)) t
              && (historical || is_since now max_event_age_ms t))
            (property "issuedAt" event)))
        bad_timestamp

  -- The payload's checks read the origin and the time, which are a text and an integer by then.
  abbrev pub assert_content : Value → Value → Value → Option VerifyError
  assert_content event (text origin) (integer issued_at) =
      assert_payload outside (property "kind" event) origin issued_at (property "payload" event)
  assert_content event _ _ = some bad_timestamp

  unfoldable pub assert_unsigned : Value → ℕ → Bool → Option VerifyError
  unfolding assert_payload
  assert_unsigned event now allow_historical =
      and_then (throw_if (not (is_object event)) not_object) (
        and_then
          (throw_if
            (not (
              is_integer (pos 1) (property "version" event)
              && is_text "hall" (property "roomId" event)))
            unsupported)
          (and_then
            (throw_if (not (is_text_with (has_length outside 16 80) (property "eventId" event)))
              bad_id)
            (and_then
              (throw_if (not (is_text_with (has_length outside 16 160) (property "origin" event)))
                bad_origin)
              (and_then
                (throw_if (not (is_safe_with is_positive (property "sequence" event))) bad_sequence)
                (and_then (assert_times event now allow_historical) (
                  and_then
                    (throw_if
                      (not (is_text_with (has_length outside 0 512) (property "publicKey" event)))
                      bad_public_key)
                    (and_then
                      (assert_content event (property "origin" event) (property "issuedAt" event))
                      (throw_if
                        (not allow_historical
                          && is_join_event event
                          && not (
                              is_safe_with (is_since now join_freshness_ms)
                                (property "issuedAt" event)))
                        stale_join))))))))

-- The origin of an encoded public key, where it can be decoded, and the check of a signature of the
-- event's canonical bytes.
pub record Keys : Type 0 where
  pub origin_of : String → Option String
  pub verify : String → Value → String → Bool

-- What `canonicalBytes` encodes.
unfoldable pub canonical : Value → Value
canonical event =
    let copy = λ (name : String) (rest : Fields). field name (property name event) rest in
    object (
      copy "version" (
        copy "roomId" (
          copy "eventId" (
            copy "origin" (
              copy "sequence"
                (copy "issuedAt" (copy "kind" (copy "payload" (copy "publicKey" closed)))))))))

module _ (outside : Outside) (keys : Keys) where
  abbrev pub assert_signature : Value → Value → Value → Value → Option VerifyError
  assert_signature event (text signature) (text key) (text origin) =
      and_then (throw_if (not (has_length outside 0 512 signature)) bad_signature)
        (elim (keys.origin_of key) [
          | none ↦ some undecodable_key
          | some found ↦
              and_then (throw_if (not (is_text found (text origin))) other_key)
                (throw_if (not (keys.verify key (canonical event) signature)) not_verified)
        ])
  assert_signature event _ _ _ = some bad_signature

  unfoldable pub verify_room_event : Value → ℕ → Bool → Option VerifyError
  unfolding assert_unsigned canonical
  verify_room_event event now allow_historical =
      and_then (assert_unsigned outside event now allow_historical) (
        assert_signature event (property "signature" event) (property "publicKey" event)
          (property "origin" event))
