-- ===== src/Invite/Defs.antt =====
-- Signing, encoding and decoding of an invite: src/network/invite.ts. The codecs of `Buffer` and `JSON`
-- and the keys of libp2p are parameters.
use package.text.Mathlib.Text.{starts_with}
use dsh_carbonclub.Base.{
  ℕ, ◌+◌, ◌*◌, Bool, false, ◌&&◌, not, String, Option, List, [], ◌∷◌, leb, ltb, same,
}
use dsh_carbonclub.Base.Result.{Result, ok, err, ◌>>=◌, ◌>>◌, guard, from_option}
use dsh_carbonclub.Verify.Values.{
  pos, Value, integer, text, array, object, Values, end, item, Fields, closed, field, property,
  is_object, is_text, is_text_with, max_safe, text_of, number_of,
}
use dsh_carbonclub.Verify.Events.{is_integer}
use dsh_carbonclub.Codec.{Bytes, Codec, code_of, text_behind}
use dsh_carbonclub.Invite.Dial.{
  InviteError, bad_address, bad_invite, protocol_mismatch, unsupported, bad_identity, no_addresses,
  bad_lifetime, bad_signature, expired, too_long_lived, bad_public_key, other_key, not_verified,
  not_own_key, Dialer, assert_dial_address,
}

abbrev pub prefix : String
prefix = "carbon2."

abbrev pub max_code_length : ℕ
max_code_length = 16_384

abbrev pub max_addresses : ℕ
max_addresses = 4

abbrev pub hall_protocol_version : String
hall_protocol_version = "0.5.1"

pub record UnsignedInvitePayload : Type 0 where
  pub version : ℕ
  pub hall_protocol : String
  pub room_id : String
  pub peer_id : String
  pub addresses : List String
  pub issued_at : ℕ
  pub expires_at : ℕ

pub record InvitePayload : Type 0 where
  pub unsigned : UnsignedInvitePayload
  pub public_key : String
  pub signature : String

-- libp2p's keys: protobuf, peer ids and signatures; and `base64`.
pub record SigningKeys (Public Private : Type 0) : Type 0 where
  pub to_protobuf : Public → Bytes
  pub from_protobuf : Bytes → Option Public
  pub peer_id_of : Public → String
  pub public_key_of : Private → Public
  pub sign : Private → Bytes → Bytes
  pub verify : Public → Bytes → Bytes → Bool
  pub to_base64 : Bytes → String
  pub from_base64 : String → Bytes

abbrev pub texts_value : List String → Values
texts_value [] = end
texts_value (t ∷ ts) = item (text t) (texts_value ts)

-- The fields of an invite as `JSON.stringify` writes them, before the given last ones.
abbrev fields_before : UnsignedInvitePayload → Fields → Fields
fields_before p last = field "version" (integer (pos p.version)) (
    field "hallProtocol" (text p.hall_protocol) (
      field "roomId" (text p.room_id) (
        field "peerId" (text p.peer_id) (
          field "addresses" (array (texts_value p.addresses)) (
            field "issuedAt" (integer (pos p.issued_at))
              (field "expiresAt" (integer (pos p.expires_at)) last))))))

unfoldable pub canonical_invite_bytes : Codec → UnsignedInvitePayload → Bytes
canonical_invite_bytes codec payload =
    codec.from_text (codec.stringify (object (fields_before payload closed)))

unfoldable pub payload_value : InvitePayload → Value
payload_value p = object (
    fields_before p.unsigned
      (field "publicKey" (text p.public_key) (field "signature" (text p.signature) closed)))

abbrev pub texts_of : Values → List String
texts_of end = []
texts_of (item value rest) = text_of value ∷ texts_of rest

abbrev pub items_of : Value → List String
items_of (array values) = texts_of values
items_of _ = []

abbrev pub read_payload : Value → InvitePayload
read_payload value = record {
  unsigned = record {
    version = number_of (property "version" value);
    hall_protocol = text_of (property "hallProtocol" value);
    room_id = text_of (property "roomId" value);
    peer_id = text_of (property "peerId" value);
    addresses = items_of (property "addresses" value);
    issued_at = number_of (property "issuedAt" value);
    expires_at = number_of (property "expiresAt" value);
  };
  public_key = text_of (property "publicKey" value);
  signature = text_of (property "signature" value);
}

abbrev pub size : Values → ℕ
size end = 0
size (item value rest) = 1 + size rest

abbrev pub has_addresses : Value → Bool
has_addresses (array values) = leb 1 (size values) && leb (size values) max_addresses
has_addresses _ = false

-- Two safe integers; one below 0 is refused, as the first or since it is not after the first.
abbrev pub is_lifetime : ℕ → Value → Value → Bool
is_lifetime now (integer (pos issued)) (integer (pos expires)) =
    leb issued max_safe && leb expires max_safe && leb issued (now + 60_000) && ltb issued expires
is_lifetime now _ _ = false

abbrev pub is_of_protocol : Value → Bool
is_of_protocol value =
    is_integer (pos 2) (property "version" value)
    && is_text hall_protocol_version (property "hallProtocol" value)

module _ (codec : Codec) (dialer : Dialer) where
  abbrev pub is_identity : Value → Bool
  is_identity = is_text_with (λ t. leb 16 (codec.text_length t) && leb (codec.text_length t) 160)

  abbrev pub assert_address : String → Value → Result InviteError (Unit {0})
  assert_address peer (text address) = assert_dial_address dialer address peer
  assert_address peer _ = err bad_address

  abbrev pub assert_addresses : String → Values → Result InviteError (Unit {0})
  assert_addresses peer end = ok tt
  assert_addresses peer (item value rest) = do assert_address peer value; assert_addresses peer rest

  abbrev pub assert_items : String → Value → Result InviteError (Unit {0})
  assert_items peer (array values) = assert_addresses peer values
  assert_items peer _ = ok tt

  unfoldable pub is_signed : Value → Bool
  is_signed value =
      is_text_with (λ t. leb (codec.text_length t) 512) (property "publicKey" value)
      && is_text_with (λ t. leb (codec.text_length t) 512) (property "signature" value)

  -- The length of a lifetime, then its addresses: what `assertPayload` tests last.
  unfoldable pub assert_rest : Value → Result InviteError (Unit {0})
  assert_rest value = do
    let issued_at = number_of (property "issuedAt" value)
    let expires_at = number_of (property "expiresAt" value)
    guard (leb expires_at (issued_at + 24 * 60 * 60 * 1_000)) too_long_lived
    assert_items (text_of (property "peerId" value)) (property "addresses" value)

  unfoldable pub assert_invite : Value → ℕ → Result InviteError (Unit {0})
  unfolding is_signed assert_rest
  assert_invite value now = do
    guard (is_object value) bad_invite
    guard (is_of_protocol value) protocol_mismatch
    guard (is_text "hall" (property "roomId" value)) unsupported
    guard (is_identity (property "peerId" value)) bad_identity
    guard (has_addresses (property "addresses" value)) no_addresses
    guard (is_lifetime now (property "issuedAt" value) (property "expiresAt" value)) bad_lifetime
    guard (is_signed value) bad_signature
    guard (leb now (number_of (property "expiresAt" value))) expired
    assert_rest value

module _ {Public Private : Type 0} (codec : Codec) (keys : SigningKeys Public Private) where
  unfoldable pub encode_invite : InvitePayload → String
  unfolding payload_value
  encode_invite payload = code_of codec prefix (codec.stringify (payload_value payload))

  unfoldable pub sign_invite : Private → UnsignedInvitePayload → Result InviteError InvitePayload
  unfolding canonical_invite_bytes
  sign_invite private_key payload = do
    let key = keys.public_key_of private_key
    guard (same (keys.peer_id_of key) payload.peer_id) not_own_key
    ok (record {
      unsigned = payload;
      public_key = keys.to_base64 (keys.to_protobuf key);
      signature = keys.to_base64 (keys.sign private_key (canonical_invite_bytes codec payload));
    })

  -- What `decodeInvite` tests of a payload that passed `assertPayload`.
  unfoldable pub verify_invite : InvitePayload → Result InviteError InvitePayload
  unfolding canonical_invite_bytes
  verify_invite payload = do
    key ← from_option (keys.from_protobuf (keys.from_base64 payload.public_key)) bad_public_key
    guard (same (keys.peer_id_of key) payload.unsigned.peer_id) other_key
    guard
        (keys.verify key (canonical_invite_bytes codec payload.unsigned)
          (keys.from_base64 payload.signature))
        not_verified
    ok payload

  unfoldable pub decode_invite : Dialer → String → ℕ → Result InviteError InvitePayload
  unfolding assert_invite verify_invite
  decode_invite dialer code now = do
    let normalized = codec.trim code
    guard (not (starts_with normalized "carbon1.")) protocol_mismatch
    guard (starts_with normalized prefix && leb (codec.text_length normalized) max_code_length)
        bad_invite
    value ← from_option (codec.parse (text_behind codec prefix normalized)) bad_invite
    assert_invite codec dialer value now
    verify_invite (read_payload value)
