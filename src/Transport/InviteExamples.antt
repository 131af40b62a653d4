-- ===== src/Transport/InviteExamples.antt =====
-- A node that creates an invite and one that connects by it, and the theorem at them.
use dsh_carbonclub.Base.{
  List, none, some, ◌≡◌, refl, true, false, String, [], ◌∷◌, keep, any, same, arith,
}
use dsh_carbonclub.Base.Result.{ok, err}
use dsh_carbonclub.Base.Keys.{mem, keys as all_keys, values}
use dsh_carbonclub.Node.Recalled.{IsEarlier}
use dsh_carbonclub.Base.Sort.{sort_by}
use dsh_carbonclub.Types.{online}
use dsh_carbonclub.Verify.Values.{undefined, look_up, property}
use dsh_carbonclub.Codec.{Codec}
use dsh_carbonclub.Codec.Sample.{byte_of, sample, sample-IsCodec}
use dsh_carbonclub.Invite.Dial.{
  is_websocket_base, is_direct, is_relayed, identity_of, port_of, is_allowed_port, is_no_host,
  is_link_local, assert_dial_address,
}
use dsh_carbonclub.Invite.Defs.{
  prefix, InvitePayload, canonical_invite_bytes, payload_value, is_signed, assert_rest,
  assert_invite, encode_invite, sign_invite, verify_invite, decode_invite,
}
use dsh_carbonclub.Invite.Round.{IsSigning}
use dsh_carbonclub.Invite.Examples.{peer, keys}
use dsh_carbonclub.Transport.Defs.{CarbonNode, hall_sync_protocol, is_allowed_address}
use dsh_carbonclub.Transport.Connect.{
  InviteInfo, CheckRound, Attempt, protocol_mismatch, invite_payload, info_of, invite_addresses,
  signed_info, create_invite, check_rounds, verify_peer_protocol, attempt, try_addresses,
  connect_to, connect,
}
use dsh_carbonclub.Transport.Invited.{decode-create_invite}
use dsh_carbonclub.Transport.Connected.{IsConnected, connect-IsConnected}
use dsh_carbonclub.Transport.Calls.{load_peers, new_node}
use dsh_carbonclub.Transport.Examples.{wire, queue}

abbrev ann : CarbonNode
unfolding new_node load_peers
ann = record (new_node peer [] queue) { is_running = true; phase = online }

abbrev address : String
address = "/ip4/192.0.2.7/tcp/4001/ws/p2p/12D3KooWannannann"

abbrev payload : InvitePayload
payload = record {
  unsigned = invite_payload peer (address ∷ []) 1_000_000;
  public_key = "01101011";
  signature = "0111011001100001011011000111010101100101";
}

abbrev codec : Codec
unfolding payload_value
codec = sample (payload_value payload)

keys-IsSigning : IsSigning codec keys
keys-IsSigning = record {
  protobuf = λ key. refl;
  base64 = (sample-IsCodec undefined prefix).base64url;
  signed = λ key bytes. ground arith;
}

program : Unit {0}
unfolding same any keep mem sort_by look_up property is_websocket_base is_direct is_relayed
    identity_of port_of is_allowed_port is_no_host is_link_local assert_dial_address
    is_allowed_address canonical_invite_bytes payload_value is_signed assert_rest assert_invite
    encode_invite sign_invite verify_invite decode_invite invite_addresses signed_info create_invite
    check_rounds verify_peer_protocol attempt try_addresses connect_to connect
program = tt

abbrev info : InviteInfo
info = info_of wire codec keys peer (address ∷ []) 1_000_000 payload

-- The address comes from a listener that does not name the peer yet.
created :
    create_invite wire codec keys ann
      ("/ip4/192.0.2.7/tcp/4001/ws" ∷ [])
      (byte_of 107 ∷ [])
      1_000_000
    ≡ ok info
unfolding program ann codec
created = refl

signs :
    sign_invite codec keys (byte_of 107 ∷ []) (
      invite_payload peer (invite_addresses wire ann ("/ip4/192.0.2.7/tcp/4001/ws" ∷ [])) 1_000_000)
    ≡ ok payload
unfolding program ann codec
signs = refl

-- Twenty minutes later.
decode-create_invite_example : decode_invite codec keys wire.dialer info.code 2_200_000 ≡ ok payload
unfolding codec same ann encode_invite
decode-create_invite_example =
    decode-create_invite wire codec keys ann ("/ip4/192.0.2.7/tcp/4001/ws" ∷ []) (byte_of 107 ∷ [])
      1_000_000 2_200_000 info payload (sample-IsCodec (payload_value payload) prefix)
      keys-IsSigning created signs refl (omega arith) (omega arith) (omega arith) refl (omega arith)
      (omega arith) (omega arith)

abbrev bob : CarbonNode
unfolding new_node load_peers
bob = record (new_node "bob" [] queue) { is_running = true; phase = online }

-- Identify has told the protocols at the second round.
abbrev rounds_with : List String → List CheckRound
rounds_with protocols =
    record { at = 2_200_010; is_same_node = true; protocols = none; is_connected = true }
    ∷ record {
      at = 2_200_060;
      is_same_node = true;
      protocols = some protocols;
      is_connected = true;
    }
    ∷ []

abbrev attempt_with : List String → Attempt
attempt_with protocols = record {
  dials = true;
  node = bob;
  is_connected = true;
  checked_at = 2_200_005;
  rounds = rounds_with protocols;
  persists = true;
}

abbrev attempts : String → Attempt
attempts a = attempt_with (hall_sync_protocol ∷ [])

connects : (connect wire codec keys bob info.code attempts 2_200_000 2_200_070).1 ≡ ok peer
unfolding program bob codec
connects = refl

bob-IsEarlier : IsEarlier 2_200_070 bob.remembered
unfolding bob new_node load_peers all_keys values
bob-IsEarlier = record { keyed = tt; distinct = tt; before = tt }

connect-IsConnected_example :
    IsConnected wire codec keys bob info.code attempts 2_200_000 2_200_070 peer
connect-IsConnected_example =
    connect-IsConnected wire codec keys bob info.code attempts 2_200_000 2_200_070 peer
      bob-IsEarlier connects

-- Where the first address is reached and the peer does not speak the protocol, no other is tried.
stops_early :
    try_addresses (λ a. attempt_with ("/other/1.0.0" ∷ [])) ("a" ∷ "b" ∷ [])
    ≡ (false, err protocol_mismatch)
unfolding program bob
stops_early = refl
