-- ===== src/Transport/Connect.antt =====
-- Invitations of a node, src/network/node.ts: `createInvite`, `connect` and the check of a peer's
-- protocol. What dialling an address comes to is an argument.
use Prim.Native.String.{◌++◌ as append}
use package.text.Mathlib.Text.{find?}
use dsh_carbonclub.Base.{
  ℕ, ◌+◌, ◌*◌, Bool, true, false, ◌&&◌, not, String, Option, none, some, List, [], ◌∷◌, keep, map,
  take, ltb, if◌then◌else◌,
}
use dsh_carbonclub.Base.Result.{Result, ok, err, ◌>>◌, guard}
use dsh_carbonclub.Base.Keys.{mem}
use dsh_carbonclub.Base.Sort.{sort_by}
use dsh_carbonclub.Codec.{Codec}
use dsh_carbonclub.Invite.Dial.{InviteError}
use dsh_carbonclub.Invite.Defs.{
  UnsignedInvitePayload, InvitePayload, SigningKeys, hall_protocol_version, encode_invite,
  sign_invite, decode_invite,
}
use dsh_carbonclub.Node.Peers.{is_nil}
use dsh_carbonclub.Transport.Defs.{
  CarbonNode, Wire, hall_sync_protocol, with_suffix, is_allowed_address,
}
use dsh_carbonclub.Transport.Publish.{is_ready}
use dsh_carbonclub.Transport.Calls.{remember}

abbrev pub invite_ttl_ms : ℕ
invite_ttl_ms = 30 * 60 * 1_000

abbrev pub dial_timeout_ms : ℕ
dial_timeout_ms = 8_000

pub data ConnectError : Type 0 where
  not_running no_address no_allowed_address : ConnectError
  refused_invite : InviteError → ConnectError
  not_connected protocol_mismatch check_timeout : ConnectError
  not_dialled not_remembered could_not_connect : ConnectError

pub record InviteInfo : Type 0 where
  pub code : String
  pub peer_id : String
  pub addresses : List String
  pub expires_at : ℕ

-- `address.includes('/p2p-circuit/')`
abbrev pub is_relayed_address : String → Bool
is_relayed_address address = elim (find? address "/p2p-circuit/") [ none ↦ false | some n ↦ true ]

-- Relayed addresses come first.
abbrev pub relayed_first : String → String → Bool
relayed_first left right = is_relayed_address left && not (is_relayed_address right)

-- The rounds of the check: the time of its test and whether the node is still the one it was; the
-- protocols that Identify told, and whether the peer is connected.
pub record CheckRound : Type 0 where
  pub at : ℕ
  pub is_same_node : Bool
  pub protocols : Option (List String)
  pub is_connected : Bool

-- The loop of `verifyPeerProtocol` with what each of its rounds finds. Where no round settles it, the
-- deadline has come when they are over.
unfoldable pub check_rounds : ℕ → List CheckRound → Result ConnectError (Unit {0})
unfolding mem
check_rounds deadline [] = err check_timeout
check_rounds deadline (r ∷ rounds) =
    let rest = check_rounds deadline rounds in
    if ltb r.at deadline && r.is_same_node
    then elim r.protocols [
      | some protocols ↦ if mem hall_sync_protocol protocols then ok tt else err protocol_mismatch
      | none ↦ if r.is_connected then rest else err not_connected
    ]
    else err check_timeout

unfoldable pub verify_peer_protocol :
    CarbonNode → Bool → ℕ → List CheckRound → Result ConnectError (Unit {0})
unfolding check_rounds
verify_peer_protocol n is_connected now rounds = do
  guard (is_ready n) not_running
  guard is_connected not_connected
  check_rounds (now + dial_timeout_ms) rounds

-- What dialling an address comes to: whether it succeeds, what the check of the protocol finds at the
-- node then, and whether `rememberPeer` returns.
pub record Attempt : Type 0 where
  pub dials : Bool
  pub node : CarbonNode
  pub is_connected : Bool
  pub checked_at : ℕ
  pub rounds : List CheckRound
  pub persists : Bool

-- The errors that `connect` throws on.
abbrev pub is_final : ConnectError → Bool
is_final protocol_mismatch = true
is_final check_timeout = true
is_final _ = false

unfoldable pub attempt : Attempt → Result ConnectError (Unit {0})
unfolding verify_peer_protocol
attempt a = do
  guard a.dials not_dialled
  verify_peer_protocol a.node a.is_connected a.checked_at a.rounds
  guard a.persists not_remembered

-- What follows an attempt, before the attempts at the other addresses. The peer is remembered before
-- that is written, so also where the writing throws.
abbrev pub after_attempt :
    Result ConnectError (Unit {0})
    → Bool × Result ConnectError (Unit {0})
    → Bool × Result ConnectError (Unit {0})
after_attempt (ok u) rest = (true, ok tt)
after_attempt (err not_remembered) rest = (true, rest.1)
after_attempt (err e) rest = if is_final e then (false, err e) else rest

-- The loop over the addresses, and whether the peer was remembered.
unfoldable pub try_addresses :
    (String → Attempt) → List String → Bool × Result ConnectError (Unit {0})
unfolding attempt
try_addresses attempts [] = (false, err could_not_connect)
try_addresses attempts (address ∷ addresses) =
    after_attempt (attempt (attempts address)) (try_addresses attempts addresses)

-- What `createInvite` signs.
abbrev pub invite_payload : String → List String → ℕ → UnsignedInvitePayload
invite_payload peer addresses now = record {
  version = 2;
  hall_protocol = hall_protocol_version;
  room_id = "hall";
  peer_id = peer;
  addresses = addresses;
  issued_at = now;
  expires_at = now + invite_ttl_ms;
}

module _ (wire : Wire) where
  unfoldable pub invite_addresses : CarbonNode → List String → List String
  unfolding is_allowed_address
  invite_addresses n multiaddrs =
      if n.is_running
      then (let peer = n.session.peer_id in
          take 4 (
            sort_by relayed_first (
              keep (λ address. is_allowed_address wire address peer)
                (map (with_suffix (append "/p2p/" peer)) multiaddrs))))
      else []

  module _ {Public Private : Type 0} (codec : Codec) (keys : SigningKeys Public Private) where
    abbrev pub info_of : String → List String → ℕ → InvitePayload → InviteInfo
    info_of peer addresses now payload = record {
      code = encode_invite codec keys payload;
      peer_id = peer;
      addresses = addresses;
      expires_at = now + invite_ttl_ms;
    }

    -- The end of `createInvite`.
    unfoldable pub signed_info :
        String → List String → ℕ → Result InviteError InvitePayload → Result ConnectError InviteInfo
    signed_info peer addresses now (err e) = err (refused_invite e)
    signed_info peer addresses now (ok payload) = ok (info_of peer addresses now payload)

    unfoldable pub create_invite :
        CarbonNode → List String → Private → ℕ → Result ConnectError InviteInfo
    unfolding invite_addresses sign_invite signed_info
    create_invite n multiaddrs private_key now = do
      guard (is_ready n) not_running
      let peer = n.session.peer_id
      let addresses = invite_addresses n multiaddrs
      guard (not (is_nil addresses)) no_address
      signed_info peer addresses now
          (sign_invite codec keys private_key (invite_payload peer addresses now))

    -- `connect` with the invite that was decoded, or not, where libp2p's peer store takes the
    -- addresses; the peer is remembered later.
    unfoldable pub connect_to :
        CarbonNode
        → Result InviteError InvitePayload
        → (String → Attempt)
        → ℕ
        → CarbonNode × Result ConnectError String
    unfolding is_allowed_address try_addresses remember
    connect_to n (err e) attempts later = (n, err (refused_invite e))
    connect_to n (ok invite) attempts later =
        let peer = invite.unsigned.peer_id in
        let addresses = invite.unsigned.addresses in
        let tried = try_addresses attempts addresses in
        if is_nil (keep (λ address. is_allowed_address wire address peer) addresses)
        then (n, err no_allowed_address)
        else (if tried.0 then remember wire n peer addresses later else n, (tried.1 >> ok peer))

    unfoldable pub connect :
        CarbonNode → String → (String → Attempt) → ℕ → ℕ → CarbonNode × Result ConnectError String
    unfolding connect_to decode_invite
    connect n code attempts now later =
        if is_ready n
        then connect_to n (decode_invite codec keys wire.dialer code now) attempts later
        else (n, err not_running)
