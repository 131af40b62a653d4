-- ===== src/Project/Defs.antt =====
-- The functions of src/network/project-crypto.ts. node:crypto and the codecs of `Buffer` and `JSON`
-- are parameters; what `randomBytes` returns is an argument.
use Prim.Native.String.{◌++◌ as append, slice}
use package.text.Mathlib.Text.{starts_with}
use dsh_carbonclub.Base.{ℕ, ◌+◌, Bool, ◌&&◌, String, Option, length, leb, ◌==◌, same}
use dsh_carbonclub.Base.Result.{Result, ok, ◌>>=◌, ◌>>◌, guard, from_option, rethrow}
use dsh_carbonclub.Codec.{Bytes, Codec, code_of, text_behind}
use dsh_carbonclub.Verify.Values.{
  pos, Value, integer, text, object, closed, field, property, is_object, is_safe_with, is_positive,
  max_safe, text_of, number_of, is_text_value,
}
use dsh_carbonclub.Verify.Events.{is_integer}

abbrev pub invite_prefix : String
invite_prefix = "carbon-project1."

abbrev pub max_invite_length : ℕ
max_invite_length = 2_048

abbrev pub max_plaintext_bytes : ℕ
max_plaintext_bytes = 32_768

pub record ProjectRoomInvite : Type 0 where
  pub version : ℕ
  pub room_id : String
  pub secret : String
  pub epoch : ℕ
  pub issued_at : ℕ

pub record EncryptedProjectPayload : Type 0 where
  pub version : ℕ
  pub room_id : String
  pub epoch : ℕ
  pub nonce : String
  pub ciphertext : String
  pub tag : String

pub data ProjectError : Type 0 where
  bad_secret bad_epoch bad_invite bad_size other_room malformed not_authentic : ProjectError

-- SHA-256 in base64url, HKDF to 32 bytes (secret, salt, info), and AES-256-GCM (key, nonce, additional
-- data, text); `decrypt` has nothing where the tag does not fit.
pub record Crypto : Type 0 where
  pub digest : Bytes → String
  pub hkdf : Bytes → Bytes → Bytes → Bytes
  pub encrypt : Bytes → Bytes → Bytes → Bytes → Bytes × Bytes
  pub decrypt : Bytes → Bytes → Bytes → Bytes → Bytes → Option Bytes

-- The invite as `JSON.stringify` reads it.
unfoldable pub invite_value : ProjectRoomInvite → Value
invite_value invite = object (
    field "version" (integer (pos invite.version)) (
      field "roomId" (text invite.room_id) (
        field "secret" (text invite.secret) (
          field "epoch" (integer (pos invite.epoch))
            (field "issuedAt" (integer (pos invite.issued_at)) closed)))))

unfoldable pub is_invite : Value → Bool
is_invite value =
    is_integer (pos 1) (property "version" value)
    && is_text_value (property "roomId" value)
    && is_text_value (property "secret" value)
    && is_safe_with is_positive (property "epoch" value)
    && is_safe_with is_positive (property "issuedAt" value)

abbrev pub read_invite : Value → ProjectRoomInvite
read_invite value = record {
  version = number_of (property "version" value);
  room_id = text_of (property "roomId" value);
  secret = text_of (property "secret" value);
  epoch = number_of (property "epoch" value);
  issued_at = number_of (property "issuedAt" value);
}

module _ (codec : Codec) (crypto : Crypto) where
  -- The first 24 characters of the digest, which is ASCII.
  unfoldable pub room_id_for : Bytes → String
  room_id_for secret = append "project-" (slice (crypto.digest secret) 0 24)

  unfoldable pub decode_secret : ProjectRoomInvite → Result ProjectError Bytes
  unfolding room_id_for
  decode_secret invite = do
    let secret = codec.from_base64url invite.secret
    guard ((length secret == 32) && same (room_id_for secret) invite.room_id) bad_secret
    ok secret

  unfoldable pub epoch_key : ProjectRoomInvite → ℕ → Result ProjectError Bytes
  unfolding decode_secret
  epoch_key invite epoch = do
    guard (leb epoch max_safe && leb invite.epoch epoch && leb epoch (invite.epoch + 1_000_000))
        bad_epoch
    secret ← decode_secret invite
    ok (
        crypto.hkdf secret (codec.from_text invite.room_id)
          (codec.from_text (append "dsh-carbon-project:" (codec.decimal epoch))))

  unfoldable pub aad : String → ℕ → Bytes
  aad room_id epoch = codec.from_text (
      codec.stringify (
        object (
          field "protocol" (text "dsh-carbon-project/1")
            (field "roomId" (text room_id) (field "epoch" (integer (pos epoch)) closed)))))

  unfoldable pub create_project_invite : Bytes → ℕ → ProjectRoomInvite
  unfolding room_id_for
  create_project_invite secret now = record {
    version = 1;
    room_id = room_id_for secret;
    secret = codec.to_base64url secret;
    epoch = 1;
    issued_at = now;
  }

  unfoldable pub encode_project_invite : ProjectRoomInvite → Result ProjectError String
  unfolding decode_secret invite_value
  encode_project_invite invite = do
    secret ← decode_secret invite
    ok (code_of codec invite_prefix (codec.stringify (invite_value invite)))

  unfoldable pub decode_project_invite : String → Result ProjectError ProjectRoomInvite
  unfolding decode_secret is_invite
  decode_project_invite code = do
    let normalized = codec.trim code
    guard (starts_with normalized invite_prefix) bad_invite
    guard (leb (codec.text_length normalized) max_invite_length) bad_invite
    value ← from_option (codec.parse (text_behind codec invite_prefix normalized)) bad_invite
    guard (is_object value) bad_invite
    guard (is_invite value) bad_invite
    secret ← decode_secret (read_invite value)
    ok (read_invite value)

  -- `bytes` is the plaintext, `nonce` what `randomBytes(12)` returns.
  unfoldable pub encrypt_project_payload :
      ProjectRoomInvite → Bytes → ℕ → Bytes → Result ProjectError EncryptedProjectPayload
  unfolding epoch_key aad
  encrypt_project_payload invite bytes epoch nonce = do
    guard (leb 1 (length bytes) && leb (length bytes) max_plaintext_bytes) bad_size
    key ← epoch_key invite epoch
    let sealed = crypto.encrypt key nonce (aad invite.room_id epoch) bytes
    ok (record {
      version = 1;
      room_id = invite.room_id;
      epoch = epoch;
      nonce = codec.to_base64url nonce;
      ciphertext = codec.to_base64url sealed.0;
      tag = codec.to_base64url sealed.1;
    })

  unfoldable pub decrypt_project_payload :
      ProjectRoomInvite → EncryptedProjectPayload → Result ProjectError Bytes
  unfolding epoch_key aad
  decrypt_project_payload invite payload = do
    guard ((payload.version == 1) && same payload.room_id invite.room_id) other_room
    let nonce = codec.from_base64url payload.nonce
    let tag = codec.from_base64url payload.tag
    let ciphertext = codec.from_base64url payload.ciphertext
    guard
        ((length nonce == 12)
          && (length tag == 16)
          && leb 1 (length ciphertext)
          && leb (length ciphertext) (max_plaintext_bytes + 32))
        malformed
    rethrow
        (do
          key ← epoch_key invite payload.epoch
          from_option (crypto.decrypt key nonce (aad payload.room_id payload.epoch) ciphertext tag)
              not_authentic)
        not_authentic

  -- `secret` is the new room's, what `randomBytes(32)` returns.
  unfoldable pub rotate_project_invite :
      ProjectRoomInvite → Bytes → ℕ → Result ProjectError ProjectRoomInvite
  unfolding decode_secret create_project_invite
  rotate_project_invite previous secret now = do
    old ← decode_secret previous
    ok (record (create_project_invite secret now) { epoch = previous.epoch + 1 })
