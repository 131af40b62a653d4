-- ===== src/Types.antt =====
-- The records of src/network/types.ts. Fields of a literal type (`version`, `roomId`) have one
-- value and are left out. An event's payload is the one that `assertPayload` lets pass: a join
-- carries its profile, its join time and its admission proof.
use dsh_carbonclub.Base.{ℕ, String, Option, List}

pub record RoomProfile : Type 0 where
  pub name : String
  pub avatar_url : Option String
  pub avatar_cid : Option String
  pub last_completed_session : Option String

pub record Admission : Type 0 where
  pub epoch : ℕ
  pub nonce : ℕ

pub data HallPresence : Type 0 where
  join : RoomProfile → (joined_at : ℕ) → Admission → HallPresence
  heartbeat : Option RoomProfile → (joined_at : ℕ) → HallPresence
  leave : HallPresence

pub record HallCheckpoint : Type 0 where
  pub epoch : ℕ
  pub steward_peer_id : String
  pub state_hash : String
  pub witnesses : List String

pub data Payload : Type 0 where
  chat_message : (body : String) → Payload
  hall_presence : HallPresence → Payload
  hall_checkpoint : HallCheckpoint → Payload
  room_sync_request : (target_peer_id : String) → Payload

pub record RoomEvent : Type 0 where
  pub event_id : String
  pub origin : String
  pub sequence : ℕ
  pub issued_at : ℕ
  pub public_key : String
  pub payload : Payload
  pub signature : String

pub record RoomMessage : Type 0 where
  pub id : String
  pub origin : String
  pub sequence : ℕ
  pub sent_at : ℕ
  pub body : String

-- The phase of a node; `failed` is 'error'.
pub data Phase : Type 0 where
  starting online failed : Phase
