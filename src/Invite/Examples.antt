-- ===== src/Invite/Examples.antt =====
-- An invite that is signed, encoded and decoded, and the theorems at it.
use dsh_carbonclub.Base.{
  ◌≤◌, ◌≡◌, refl, true, String, none, some, [], ◌∷◌, length, leb, any, same, if◌then◌else◌, arith,
}
use dsh_carbonclub.Base.Result.{ok, err}
use dsh_carbonclub.Verify.Values.{pos, undefined, look_up, property}
use dsh_carbonclub.Codec.{Bytes, Codec}
use dsh_carbonclub.Codec.Sample.{byte_of, sample, sample-IsCodec}
use dsh_carbonclub.Invite.Dial.{
  whole, Dialer, expired, is_websocket_base, is_direct, is_relayed, identity_of, port_of,
  is_allowed_port, is_no_host, is_link_local, assert_dial_address,
}
use dsh_carbonclub.Invite.Defs.{
  prefix, UnsignedInvitePayload, InvitePayload, SigningKeys, canonical_invite_bytes, payload_value,
  is_signed, assert_rest, assert_invite, encode_invite, sign_invite, verify_invite, decode_invite,
}
use dsh_carbonclub.Invite.Decoded.{HasKey, decode_invite-later}
use dsh_carbonclub.Invite.Kept.{IsInvite, decode_invite-IsInvite}
use dsh_carbonclub.Invite.Round.{IsSigning, decode-encode_invite}

program : Unit {0}
unfolding same any look_up property is_websocket_base is_direct is_relayed identity_of port_of
    is_allowed_port is_no_host is_link_local assert_dial_address canonical_invite_bytes
    payload_value is_signed assert_rest assert_invite encode_invite sign_invite verify_invite
    decode_invite
program = tt

abbrev pub peer : String
peer = "12D3KooWannannann"

-- Every address is that of Ann at port 4001.
abbrev pub dialer : Dialer
dialer = record {
  text_length = λ t. 20;
  is_peer_id = λ t. true;
  components = λ t. some (
      record { name = "ip4"; value = some "192.0.2.7" }
      ∷ record { name = "tcp"; value = some "4001" }
      ∷ record { name = "ws"; value = none }
      ∷ record { name = "p2p"; value = some peer }
      ∷ []);
  number = λ t. if same t "4001" then whole (pos 4_001) else whole (pos 192);
  lower_case = λ t. t;
}

-- A signature is what was signed; all keys are Ann's.
abbrev pub keys : SigningKeys Bytes Bytes
keys = record {
  to_protobuf = λ key. key;
  from_protobuf = some;
  peer_id_of = λ key. peer;
  public_key_of = λ key. key;
  sign = λ key bytes. bytes;
  verify = λ key bytes signature. leb (length bytes) (length signature);
  to_base64 = (sample undefined).to_base64url;
  from_base64 = (sample undefined).from_base64url;
}

abbrev unsigned : UnsignedInvitePayload
unsigned = record {
  version = 2;
  hall_protocol = "0.5.1";
  room_id = "hall";
  peer_id = peer;
  addresses = "address" ∷ [];
  issued_at = 1_000_000;
  expires_at = 2_800_000;
}

abbrev payload : InvitePayload
payload = record {
  unsigned = unsigned;
  public_key = "01101011";
  signature = "0111011001100001011011000111010101100101";
}

abbrev codec : Codec
unfolding payload_value
codec = sample (payload_value payload)

signs : sign_invite codec keys (byte_of 107 ∷ []) unsigned ≡ ok payload
unfolding program codec
signs = refl

keys-IsSigning : IsSigning codec keys
keys-IsSigning = record {
  protobuf = λ key. refl;
  base64 = (sample-IsCodec undefined prefix).base64url;
  signed = λ key bytes. ground arith;
}

short : (codec.text_length (encode_invite codec keys payload)) ≤ 16_384
unfolding program codec
short = omega arith

passes : assert_invite codec dialer (payload_value payload) 1_000_000 ≡ ok tt
unfolding program codec
passes = refl

decode-encode_invite_example :
    decode_invite codec keys dialer (encode_invite codec keys payload) 1_000_000 ≡ ok payload
unfolding codec same
decode-encode_invite_example =
    decode-encode_invite codec keys dialer (byte_of 107 ∷ []) unsigned payload 1_000_000
      (sample-IsCodec (payload_value payload) prefix) keys-IsSigning signs short refl passes

abbrev code : String
unfolding program codec
code = encode_invite codec keys payload

decodes : decode_invite codec keys dialer code 1_000_000 ≡ ok payload
unfolding program codec code
decodes = refl

-- An hour later it is over.
decode_invite-later_example : decode_invite codec keys dialer code 4_600_000 ≡ err expired
decode_invite-later_example =
    decode_invite-later codec keys dialer code 1_000_000 4_600_000 payload (omega arith) decodes

decode_invite-IsInvite_example :
    IsInvite codec keys dialer 1_000_000 payload × HasKey codec keys dialer payload
decode_invite-IsInvite_example =
    decode_invite-IsInvite codec keys dialer code 1_000_000 payload decodes
