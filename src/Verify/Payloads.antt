-- ===== src/Verify/Payloads.antt =====
-- The checks of an event's payload, src/network/room-events.ts: `hasLeadingZeroBits`,
-- `assertAdmission`, `assertProfile`, `assertPayload`. A function answers the error that the source
-- throws, or nothing. Regular expressions, lengths in UTF-16 units and hashes are parameters.
use dsh_carbonclub.Base.{
  ℕ, zero, suc, ◌+◌, ◌-◌, ◌*◌, ◌/◌, ◌%◌, ◌^◌, Bool, true, false, not, ◌&&◌, ◌||◌, String, Option,
  none, some, List, [], ◌∷◌, leb, ◌==◌, if◌then◌else◌,
}
use dsh_carbonclub.Verify.Values.{
  ℤ, pos, negsuc, Value, undefined, integer, text, array, Values, end, item, property, is_object,
  is_undefined, is_null, is_text, is_text_with, is_safe_with, is_positive, is_natural, equal,
}

pub data VerifyError : Type 0 where
  not_object unsupported bad_id bad_origin bad_sequence bad_timestamp bad_public_key : VerifyError
  bad_message bad_action bad_profile bad_name bad_session bad_content_id bad_avatar : VerifyError
  other_avatar bad_admission bad_join_time old_join_time bad_checkpoint bad_target : VerifyError
  stale_join type_error bad_signature undecodable_key other_key not_verified : VerifyError

-- `if (test) throw error`
abbrev pub throw_if : Bool → VerifyError → Option VerifyError
throw_if true error = some error
throw_if false error = none

-- What comes behind a check that may throw.
abbrev pub and_then : Option VerifyError → Option VerifyError → Option VerifyError
and_then none next = next
and_then (some error) next = some error

-- What the checks ask of the engine and of node:crypto.
pub record Outside : Type 0 where
  pub text_length : String → ℕ
  pub is_blank : String → Bool
  pub is_content_id : String → Bool
  pub is_avatar_url : String → Bool
  pub is_state_hash : String → Bool
  pub avatar_content_id : String → String
  pub admission_digest : String → ℤ → ℤ → List ℕ

abbrev pub admission_epoch_ms : ℕ
admission_epoch_ms = 5 * 60_000

abbrev pub admission_difficulty_bits : ℕ
admission_difficulty_bits = 16

-- The loop over the whole bytes, then the rest of the bits; a missing byte counts as 255.
unfoldable pub zero_bytes : ℕ → ℕ → List ℕ → Bool
zero_bytes zero remainder [] = (remainder == 0) || (255 / 2 ^ (8 - remainder) == 0)
zero_bytes zero remainder (b ∷ bytes) = (remainder == 0) || (b / 2 ^ (8 - remainder) == 0)
zero_bytes (suc whole) remainder [] = false
zero_bytes (suc whole) remainder (b ∷ bytes) = (b == 0) && zero_bytes whole remainder bytes

unfoldable pub has_leading_zero_bits : List ℕ → ℕ → Bool
unfolding zero_bytes
has_leading_zero_bits bytes bits = zero_bytes (bits / 8) (bits % 8) bytes

-- `Math.floor(issuedAt / ADMISSION_EPOCH_MS)`
abbrev pub epoch_of : ℤ → ℤ
epoch_of (pos t) = pos (t / admission_epoch_ms)
epoch_of (negsuc t) = negsuc (t / admission_epoch_ms)

abbrev pub is_up_to : ℤ → ℤ → Bool
is_up_to (pos t) (pos j) = leb j t
is_up_to (pos t) (negsuc j) = true
is_up_to (negsuc t) (pos j) = false
is_up_to (negsuc t) (negsuc j) = leb t j

-- `issuedAt - joinedAt <= 10_000`
abbrev pub is_within : ℕ → ℤ → ℤ → Bool
is_within span (pos t) (pos j) = leb t (j + span)
is_within span (pos t) (negsuc j) = leb (t + suc j) span
is_within span (negsuc t) (pos j) = true
is_within span (negsuc t) (negsuc j) = leb j (t + span)

module _ (outside : Outside) where
  abbrev pub has_length : ℕ → ℕ → String → Bool
  has_length least most t = leb least (outside.text_length t) && leb (outside.text_length t) most

  abbrev pub assert_avatar : Value → Value → Option VerifyError
  assert_avatar undefined cid = none
  assert_avatar (text url) cid =
      and_then (throw_if (not (has_length 0 12_288 url && outside.is_avatar_url url)) bad_avatar)
        (throw_if (not (is_text (outside.avatar_content_id url) cid)) other_avatar)
  assert_avatar _ cid = some bad_avatar

  unfoldable pub assert_profile : Value → Option VerifyError
  assert_profile value = and_then (throw_if (not (is_object value)) bad_profile) (
      and_then
        (throw_if
          (not (
            is_text_with (λ t. not (outside.is_blank t) && has_length 0 48 t)
              (property "name" value)))
          bad_name)
        (and_then
          (throw_if
            (not (
              is_undefined (property "lastCompletedSession" value)
              || is_text_with (has_length 0 120) (property "lastCompletedSession" value)))
            bad_session)
          (and_then
            (throw_if
              (not (
                is_undefined (property "avatarCid" value)
                || is_text_with outside.is_content_id (property "avatarCid" value)))
              bad_content_id)
            (assert_avatar (property "avatarUrl" value) (property "avatarCid" value)))))

  -- An admission that is there and no object has no `epoch`; `null` has none to ask for.
  abbrev pub is_proof : String → ℤ → Value → Value → Bool
  is_proof origin issued_at (integer epoch) (integer nonce) =
      is_safe_with (equal (epoch_of issued_at)) (integer epoch)
      && is_safe_with is_natural (integer nonce)
      && has_leading_zero_bits (outside.admission_digest origin epoch nonce)
          admission_difficulty_bits
  is_proof origin issued_at _ _ = false

  unfoldable pub assert_admission : String → ℤ → Value → Option VerifyError
  unfolding has_leading_zero_bits
  assert_admission origin issued_at admission = and_then (throw_if (is_null admission) type_error) (
      throw_if
        (not (is_proof origin issued_at (property "epoch" admission) (property "nonce" admission)))
        bad_admission)

  abbrev pub are_ids : Values → Bool
  are_ids end = true
  are_ids (item v vs) = is_text_with (has_length 16 160) v && are_ids vs

  abbrev pub count : Values → ℕ
  count end = 0
  count (item v vs) = suc (count vs)

  abbrev pub are_witnesses : Value → Bool
  are_witnesses (array vs) = leb (count vs) 8 && are_ids vs
  are_witnesses _ = false

  unfoldable pub assert_presence : String → ℤ → Value → Option VerifyError
  unfolding assert_profile assert_admission
  assert_presence origin issued_at payload =
      let action = property "action" payload in
      let joined = property "joinedAt" payload in
      let joins = is_text "join" action in
      and_then
        (throw_if (not (joins || is_text "heartbeat" action || is_text "leave" action)) bad_action)
        (if is_text "leave" action
          then none
          else and_then (if joins then assert_profile (property "profile" payload) else none) (
              and_then
                (if joins
                  then assert_admission origin issued_at (property "admission" payload)
                  else none)
                (and_then
                  (if is_text "heartbeat" action && not (is_undefined (property "profile" payload))
                    then assert_profile (property "profile" payload)
                    else none)
                  (and_then
                    (throw_if
                      (not (is_safe_with (λ j. is_positive j && is_up_to issued_at j) joined))
                      bad_join_time)
                    (throw_if (joins && not (is_safe_with (is_within 10_000 issued_at) joined))
                      old_join_time)))))

  -- `payload.name` of `null` throws by itself.
  unfoldable pub assert_payload : Value → String → ℤ → Value → Option VerifyError
  unfolding assert_presence
  assert_payload kind origin issued_at payload =
      if is_text "chat.message" kind
      then and_then (throw_if (is_null payload) type_error) (
          throw_if
            (not (
              is_text_with (λ t. not (outside.is_blank t) && has_length 0 400 t)
                (property "body" payload)))
            bad_message)
      else if is_text "hall.presence" kind
      then and_then (throw_if (is_null payload) type_error)
          (assert_presence origin issued_at payload)
      else if is_text "hall.checkpoint" kind
      then and_then (throw_if (is_null payload) type_error) (
          throw_if
            (not (
              is_safe_with is_natural (property "epoch" payload)
              && is_text_with (has_length 16 160) (property "stewardPeerId" payload)
              && is_text_with outside.is_state_hash (property "stateHash" payload)
              && are_witnesses (property "witnesses" payload)))
            bad_checkpoint)
      else if is_text "room.sync.request" kind
      then throw_if (not (is_text_with (has_length 16 160) (property "targetPeerId" payload)))
          bad_target
      else some unsupported
