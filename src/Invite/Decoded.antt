-- ===== src/Invite/Decoded.antt =====
-- What `decodeInvite` of src/network/invite.ts returns, and how long.
use package.text.Mathlib.Text.{starts_with}
use dsh_carbonclub.Base.{
  ℕ, ◌≤◌, ◌≡◌, refl, ap, Bool, true, false, ◌&&◌, not, String, some, leb, if◌then◌else◌, same,
  same_iff, arith,
}
use dsh_carbonclub.Base.Result.{
  Result, ok, err, ◌>>◌, guard, from_option, guard-eq-ok, bind-eq-ok, from_option-eq-ok,
}
use dsh_carbonclub.Verify.Values.{
  pos, negsuc, Value, integer, text, property, is_object, is_text, number_of,
}
use dsh_carbonclub.Codec.{Codec, text_behind}
use dsh_carbonclub.Invite.Dial.{
  bad_invite, protocol_mismatch, unsupported, bad_identity, no_addresses, bad_lifetime,
  bad_signature, expired, bad_public_key, other_key, not_verified, Dialer,
}
use dsh_carbonclub.Invite.Defs.{
  prefix, max_code_length, InvitePayload, SigningKeys, canonical_invite_bytes, read_payload,
  has_addresses, is_lifetime, is_of_protocol, is_identity, is_signed, assert_rest, assert_invite,
  verify_invite, decode_invite,
}

guard_again : {E : Type 0} (e : E) (b : Bool) → (guard b e >> ok tt) ≡ guard b e
guard_again e true = refl
guard_again e false = refl

guarded :
    {E A : Type 0} (b : Bool) (e : E) (next : Result E A)
    → (guard b e >> next) ≡ (if b then next else err e)
guarded true e next = refl
guarded false e next = refl

module _ {Public Private : Type 0} (codec : Codec) (keys : SigningKeys Public Private)
    (dialer : Dialer) where
  -- The value of a code that decodes.
  pub record IsDecoded (code : String) (now : ℕ) (payload : InvitePayload) : Type 0 where
    pub value : Value
    pub is_new : not (starts_with (codec.trim code) "carbon1.") ≡ true
    pub fits :
        (starts_with (codec.trim code) prefix
          && leb (codec.text_length (codec.trim code)) max_code_length)
        ≡ true
    pub parsed : codec.parse (text_behind codec prefix (codec.trim code)) ≡ some value
    pub asserted : assert_invite codec dialer value now ≡ ok tt
    pub verified : verify_invite codec keys (read_payload value) ≡ ok payload

  pub decode_invite-IsDecoded :
      (code : String) (now : ℕ) (payload : InvitePayload)
      → decode_invite codec keys dialer code now ≡ ok payload
      → IsDecoded code now payload
  unfolding decode_invite
  decode_invite-IsDecoded code now payload h =
      let (is_new, h1) =
        guard-eq-ok (not (starts_with (codec.trim code) "carbon1.")) protocol_mismatch _ h in
      let (fits, h2) =
        guard-eq-ok
          (starts_with (codec.trim code) prefix
            && leb (codec.text_length (codec.trim code)) max_code_length)
          bad_invite _ h1 in
      let (value, parsed, h3) =
        bind-eq-ok
          (from_option (codec.parse (text_behind codec prefix (codec.trim code))) bad_invite) _
          h2 in
      let (u, asserted, h4) = bind-eq-ok (assert_invite codec dialer value now) _ h3 in
      record {
        value = value;
        is_new = is_new;
        fits = fits;
        parsed = from_option-eq-ok _ _ parsed;
        asserted = asserted;
        verified = h4;
      }

  -- The tests of `assertPayload` that the time has no part in, and the two in which it has.
  pub record IsAsserted (value : Value) (now : ℕ) : Type 0 where
    pub is_thing : is_object value ≡ true
    pub of_protocol : is_of_protocol value ≡ true
    pub of_hall : is_text "hall" (property "roomId" value) ≡ true
    pub identified : is_identity codec dialer (property "peerId" value) ≡ true
    pub addressed : has_addresses (property "addresses" value) ≡ true
    pub timed : is_lifetime now (property "issuedAt" value) (property "expiresAt" value) ≡ true
    pub signed : is_signed codec dialer value ≡ true
    pub unexpired : leb now (number_of (property "expiresAt" value)) ≡ true
    pub rest : assert_rest codec dialer value ≡ ok tt

  pub assert_invite-IsAsserted :
      (value : Value) (now : ℕ)
      → assert_invite codec dialer value now ≡ ok tt
      → IsAsserted value now
  unfolding assert_invite
  assert_invite-IsAsserted value now h =
      let (is_thing, h1) = guard-eq-ok (is_object value) bad_invite _ h in
      let (of_protocol, h2) = guard-eq-ok (is_of_protocol value) protocol_mismatch _ h1 in
      let (of_hall, h3) = guard-eq-ok (is_text "hall" (property "roomId" value)) unsupported _ h2 in
      let (identified, h4) =
        guard-eq-ok (is_identity codec dialer (property "peerId" value)) bad_identity _ h3 in
      let (addressed, h5) =
        guard-eq-ok (has_addresses (property "addresses" value)) no_addresses _ h4 in
      let (timed, h6) =
        guard-eq-ok (is_lifetime now (property "issuedAt" value) (property "expiresAt" value))
          bad_lifetime _ h5 in
      let (signed, h7) = guard-eq-ok (is_signed codec dialer value) bad_signature _ h6 in
      let (unexpired, h8) =
        guard-eq-ok (leb now (number_of (property "expiresAt" value))) expired _ h7 in
      record {
        is_thing = is_thing;
        of_protocol = of_protocol;
        of_hall = of_hall;
        identified = identified;
        addressed = addressed;
        timed = timed;
        signed = signed;
        unexpired = unexpired;
        rest = h8;
      }

  is_lifetime-le :
      (now later : ℕ) (issued expires : Value)
      → now ≤ later
      → is_lifetime now issued expires ≡ true
      → is_lifetime later issued expires ≡ true
  is_lifetime-le now later (integer (pos i)) (integer (pos e)) le h = ground (arith, h)
  is_lifetime-le now later (integer (pos i)) (integer (negsuc e)) le h = absurd (cc)
  is_lifetime-le now later (integer (negsuc i)) e le h = absurd (cc)
  is_lifetime-le now later _ e le h = absurd (cc)

  -- Whether a payload that passed still passes depends on its expiry alone.
  assert_invite-le :
      (value : Value) (now later : ℕ)
      → now ≤ later
      → IsAsserted value now
      → assert_invite codec dialer value later
        ≡ (guard (leb later (number_of (property "expiresAt" value))) expired)
  unfolding assert_invite
  assert_invite-le value now later le a =
      let timed =
        is_lifetime-le now later (property "issuedAt" value) (property "expiresAt" value) le
          a.timed in
      rw (a.is_thing, a.of_protocol, a.of_hall, a.identified, a.addressed, timed, a.signed, a.rest)
        (guard_again expired (leb later (number_of (property "expiresAt" value))))

  -- A key of the peer that an invite names, which verified the invite.
  pub record HasKey (payload : InvitePayload) : Type 0 where
    pub key : Public
    pub owned : keys.peer_id_of key ≡ payload.unsigned.peer_id
    pub verified :
        keys.verify key
          (canonical_invite_bytes codec payload.unsigned)
          (keys.from_base64 payload.signature)
        ≡ true

  pub verify_invite-HasKey :
      (read payload : InvitePayload)
      → verify_invite codec keys read ≡ ok payload
      → (read ≡ payload) × HasKey read
  unfolding verify_invite
  verify_invite-HasKey read payload h =
      let (key, found, h1) =
        bind-eq-ok
          (from_option (keys.from_protobuf (keys.from_base64 read.public_key)) bad_public_key) _
          h in
      let (owned, h2) =
        guard-eq-ok (same (keys.peer_id_of key) read.unsigned.peer_id) other_key _ h1 in
      let (checked, h3) =
        guard-eq-ok
          (keys.verify key (canonical_invite_bytes codec read.unsigned)
            (keys.from_base64 read.signature))
          not_verified _ h2 in
      let owns = (same_iff (keys.peer_id_of key) read.unsigned.peer_id).0 owned in
      (ground (arith, h3), record { key = key; owned = owns; verified = checked })

  -- An invite that a node decoded decodes to the same payload at any later time up to its expiry, and
  -- is refused as expired at any time after.
  pub decode_invite-later :
      (code : String) (now later : ℕ) (payload : InvitePayload)
      → now ≤ later
      → decode_invite codec keys dialer code now ≡ ok payload
      → decode_invite codec keys dialer code later
        ≡ (if leb later payload.unsigned.expires_at then ok payload else err expired)
  unfolding decode_invite
  decode_invite-later code now later payload le h =
      let d = decode_invite-IsDecoded code now payload h in
      let read = read_payload d.value in
      let a = assert_invite-IsAsserted d.value now d.asserted in
      let (same_payload, key) = verify_invite-HasKey read payload d.verified in
      let until = ap (λ (p : InvitePayload). leb later p.unsigned.expires_at) same_payload in
      rw (d.is_new, d.fits, d.parsed, assert_invite-le d.value now later le a, until, d.verified)
        (guarded (leb later payload.unsigned.expires_at) expired (ok payload))
