-- ===== src/Verify/Signing.antt =====
-- How a node signs its events, src/network/room-events.ts: `mineAdmission` and `signEvent`, with the
-- four functions that call it. The private key of libp2p and `randomUUID` are parameters.
use dsh_carbonclub.Base.{
  ℕ, zero, suc, ◌+◌, ◌/◌, Bool, false, ◌&&◌, String, Option, none, some, if◌then◌else◌, same,
}
use dsh_carbonclub.Base.Result.{Result, ok, err, ◌>>=◌}
use dsh_carbonclub.Verify.Values.{
  pos, Value, integer, text, object, Fields, closed, field, property, is_text, is_undefined,
}
use dsh_carbonclub.Verify.Payloads.{
  VerifyError, Outside, admission_difficulty_bits, admission_epoch_ms, has_leading_zero_bits,
}
use dsh_carbonclub.Verify.Events.{assert_unsigned, canonical}

pub record MinedAdmission : Type 0 where
  pub epoch : ℕ
  pub nonce : ℕ

pub data SigningError : Type 0 where
  no_admission : SigningError
  refused : VerifyError → SigningError

-- The peer id and the encoded public key of a private key, and its signatures of what is canonical.
pub record Signer : Type 0 where
  pub origin : String
  pub public_key : String
  pub sign : Value → String

-- `{ ...fields, name: value }`
unfoldable pub set_field : Fields → String → Value → Fields
set_field closed name value = field name value closed
set_field (field key old fields) name value =
    let rest = set_field fields name value in
    if same key name then field key value fields else field key old rest

abbrev pub spread_value : Value → String → Value → Value
unfolding set_field
spread_value (object fields) name value = object (set_field fields name value)
spread_value _ name value = object (field name value closed)

module _ (outside : Outside) where
  abbrev pub proves : String → ℕ → ℕ → Bool
  proves origin epoch nonce =
      has_leading_zero_bits (outside.admission_digest origin (pos epoch) (pos nonce))
        admission_difficulty_bits

  -- The loop from a nonce on, for a number of rounds.
  unfoldable pub mine_from : ℕ → String → ℕ → ℕ → Option MinedAdmission
  unfolding has_leading_zero_bits
  mine_from zero origin epoch nonce = none
  mine_from (suc rounds) origin epoch nonce =
      let rest = mine_from rounds origin epoch (nonce + 1) in
      if proves origin epoch nonce then some (record { epoch = epoch; nonce = nonce }) else rest

  -- At most 2 ^ 53 - 1 rounds; `rounds` are those that are run.
  unfoldable pub mine_admission : ℕ → String → ℕ → Option MinedAdmission
  unfolding mine_from
  mine_admission rounds origin issued_at =
      mine_from rounds origin (issued_at / admission_epoch_ms) 0

  abbrev pub admission_value : MinedAdmission → Value
  admission_value a =
      object (field "epoch" (integer (pos a.epoch)) (field "nonce" (integer (pos a.nonce)) closed))

  abbrev pub with_mined : Option MinedAdmission → Value → Result SigningError Value
  with_mined none payload = err no_admission
  with_mined (some a) payload = ok (spread_value payload "admission" (admission_value a))

  -- The payload of a join gets an admission, where it has none.
  unfoldable pub normalize : ℕ → String → ℕ → String → Value → Result SigningError Value
  unfolding mine_admission set_field
  normalize rounds origin now kind payload =
      if same kind "hall.presence"
        && is_text "join" (property "action" payload)
        && is_undefined (property "admission" payload)
      then with_mined (mine_admission rounds origin now) payload
      else ok payload

  -- The fields of an event, before the given last ones.
  abbrev pub event_fields : Signer → String → String → Value → ℕ → ℕ → Fields → Fields
  event_fields signer event_id kind payload sequence now last = field "version" (integer (pos 1)) (
      field "roomId" (text "hall") (
        field "eventId" (text event_id) (
          field "origin" (text signer.origin) (
            field "sequence" (integer (pos sequence)) (
              field "issuedAt" (integer (pos now)) (
                field "publicKey" (text signer.public_key)
                  (field "kind" (text kind) (field "payload" payload last))))))))

  abbrev pub unless_refused : Option VerifyError → Value → Result SigningError Value
  unless_refused none event = ok event
  unless_refused (some error) event = err (refused error)

  -- `event_id` is what `randomUUID` returns.
  unfoldable pub sign_event :
      ℕ → Signer → String → String → Value → ℕ → ℕ → Result SigningError Value
  unfolding normalize assert_unsigned canonical
  sign_event rounds signer event_id kind details sequence now = do
    payload ← normalize rounds signer.origin now kind details
    let unsigned = object (event_fields signer event_id kind payload sequence now closed)
    let signature = signer.sign (canonical unsigned)
    unless_refused (assert_unsigned outside unsigned now false) (
        object (
          event_fields signer event_id kind payload sequence now
            (field "signature" (text signature) closed)))

  unfoldable pub sign_room_event : ℕ → Signer → String → String → ℕ → ℕ → Result SigningError Value
  unfolding sign_event
  sign_room_event rounds signer event_id body sequence now =
      sign_event rounds signer event_id "chat.message" (object (field "body" (text body) closed))
        sequence now

  unfoldable pub sign_presence_event :
      ℕ → Signer → String → Value → ℕ → ℕ → Result SigningError Value
  unfolding sign_event
  sign_presence_event rounds signer event_id input sequence now =
      sign_event rounds signer event_id "hall.presence" input sequence now

  unfoldable pub sign_sync_request :
      ℕ → Signer → String → String → ℕ → ℕ → Result SigningError Value
  unfolding sign_event
  sign_sync_request rounds signer event_id target_peer_id sequence now =
      sign_event rounds signer event_id "room.sync.request"
        (object (field "targetPeerId" (text target_peer_id) closed)) sequence now

  unfoldable pub sign_checkpoint_event :
      ℕ → Signer → String → Value → ℕ → ℕ → Result SigningError Value
  unfolding sign_event
  sign_checkpoint_event rounds signer event_id payload sequence now =
      sign_event rounds signer event_id "hall.checkpoint" payload sequence now
