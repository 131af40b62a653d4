-- ===== src/Verify/Typed.antt =====
-- The types of src/network/types.ts as a reading of untyped values: what `asserts value is
-- UnsignedRoomEvent` and the casts of src/network/room-events.ts claim that a value is. A value that is
-- of no such type reads as nothing.
use dsh_carbonclub.Base.{ℕ, String, Option, none, some, List, [], ◌∷◌, if◌then◌else◌}
use dsh_carbonclub.Types.{
  RoomProfile, Admission, HallPresence, join, heartbeat, leave, HallCheckpoint, Payload,
  chat_message, hall_presence, hall_checkpoint, room_sync_request, RoomEvent,
}
use dsh_carbonclub.Verify.Values.{
  pos, Value, undefined, integer, text, array, Values, end, item, property, is_text,
}

infixl 5 ◌>>=◌
abbrev pub ◌>>=◌ {ℓ κ} : {A : Type ℓ} {B : Type κ} → Option A → (A → Option B) → Option B
none >>= f = none
some a >>= f = f a

abbrev pub as_text : Value → Option String
as_text (text t) = some t
as_text _ = none

abbrev pub as_natural : Value → Option ℕ
as_natural (integer (pos n)) = some n
as_natural _ = none

-- An optional property.
abbrev pub as_optional {ℓ} : {A : Type ℓ} → (Value → Option A) → Value → Option (Option A)
as_optional read undefined = some none
as_optional read v = do a ← read v; some (some a)

abbrev pub as_texts : Values → Option (List String)
as_texts end = some []
as_texts (item v vs) = do t ← as_text v; ts ← as_texts vs; some (t ∷ ts)

abbrev pub as_text_array : Value → Option (List String)
as_text_array (array vs) = as_texts vs
as_text_array _ = none

unfoldable pub read_profile : Value → Option RoomProfile
read_profile v = do
  name ← as_text (property "name" v)
  url ← as_optional as_text (property "avatarUrl" v)
  cid ← as_optional as_text (property "avatarCid" v)
  session ← as_optional as_text (property "lastCompletedSession" v)
  some
      (record { name = name; avatar_url = url; avatar_cid = cid; last_completed_session = session })

unfoldable pub read_admission : Value → Option Admission
read_admission v = do
  epoch ← as_natural (property "epoch" v)
  nonce ← as_natural (property "nonce" v)
  some (record { epoch = epoch; nonce = nonce })

unfoldable pub read_join : Value → Option HallPresence
unfolding read_profile read_admission
read_join v = do
  profile ← read_profile (property "profile" v)
  joined_at ← as_natural (property "joinedAt" v)
  admission ← read_admission (property "admission" v)
  some (join profile joined_at admission)

unfoldable pub read_heartbeat : Value → Option HallPresence
unfolding read_profile
read_heartbeat v = do
  profile ← as_optional read_profile (property "profile" v)
  joined_at ← as_natural (property "joinedAt" v)
  some (heartbeat profile joined_at)

unfoldable pub read_presence : Value → Option HallPresence
unfolding read_join read_heartbeat
read_presence v =
    let action = property "action" v in
    if is_text "join" action
    then read_join v
    else if is_text "heartbeat" action
    then read_heartbeat v
    else if is_text "leave" action
    then some leave
    else none

unfoldable pub read_checkpoint : Value → Option HallCheckpoint
read_checkpoint v = do
  epoch ← as_natural (property "epoch" v)
  steward ← as_text (property "stewardPeerId" v)
  hash ← as_text (property "stateHash" v)
  witnesses ← as_text_array (property "witnesses" v)
  some (record {
    epoch = epoch;
    steward_peer_id = steward;
    state_hash = hash;
    witnesses = witnesses;
  })

unfoldable pub read_content : Value → Value → Option Payload
unfolding read_presence read_checkpoint
read_content kind v =
    if is_text "chat.message" kind
    then (as_text (property "body" v) >>= λ body. some (chat_message body))
    else if is_text "hall.presence" kind
    then (read_presence v >>= λ presence. some (hall_presence presence))
    else if is_text "hall.checkpoint" kind
    then (read_checkpoint v >>= λ checkpoint. some (hall_checkpoint checkpoint))
    else if is_text "room.sync.request" kind
    then (as_text (property "targetPeerId" v) >>= λ target. some (room_sync_request target))
    else none

unfoldable pub read_event : Value → Option RoomEvent
unfolding read_content
read_event v = do
  event_id ← as_text (property "eventId" v)
  origin ← as_text (property "origin" v)
  sequence ← as_natural (property "sequence" v)
  issued_at ← as_natural (property "issuedAt" v)
  public_key ← as_text (property "publicKey" v)
  payload ← read_content (property "kind" v) (property "payload" v)
  signature ← as_text (property "signature" v)
  some (record {
    event_id = event_id;
    origin = origin;
    sequence = sequence;
    issued_at = issued_at;
    public_key = public_key;
    payload = payload;
    signature = signature;
  })
