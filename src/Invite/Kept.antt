-- ===== src/Invite/Kept.antt =====
-- What an invite that `decodeInvite` of src/network/invite.ts returns is like.
use dsh_carbonclub.Base.{
  ℕ, ◌+◌, ◌*◌, ◌≤◌, ◌<◌, ◌≡◌, refl, subst, Bool, true, String, some, List, length, All, leb,
  same_iff, arith, ◌&&◌, and_true,
}
use dsh_carbonclub.Base.Result.{ok, guard-eq-ok, bind-eq-ok}
use dsh_carbonclub.Verify.Values.{
  pos, negsuc, Value, integer, text, array, Values, end, item, property, is_text, is_text_with,
  text_of, number_of,
}
use dsh_carbonclub.Verify.Events.{is_integer}
use dsh_carbonclub.Codec.{Codec}
use dsh_carbonclub.Invite.Dial.{
  too_long_lived, Dialer, Component, assert_dial_address, IsEndpoint,
  assert_dial_address-IsEndpoint,
}
use dsh_carbonclub.Invite.Defs.{
  hall_protocol_version, InvitePayload, SigningKeys, read_payload, items_of, texts_of, size,
  has_addresses, is_lifetime, assert_addresses, assert_items, assert_rest, decode_invite,
}
use dsh_carbonclub.Invite.Decoded.{
  decode_invite-IsDecoded, IsAsserted, assert_invite-IsAsserted, HasKey, verify_invite-HasKey,
}

is_text-text_of : (t : String) (v : Value) → is_text t v ≡ true → text_of v ≡ t
is_text-text_of t (text u) h = (same_iff u t).0 h
is_text-text_of t _ h = absurd (cc)

is_integer-number_of : (n : ℕ) (v : Value) → is_integer (pos n) v ≡ true → number_of v ≡ n
is_integer-number_of n (integer (pos m)) h = ground (arith, h)
is_integer-number_of n (integer (negsuc m)) h = absurd (cc)
is_integer-number_of n _ h = absurd (cc)

is_text_with-text_of :
    (test : String → Bool) (v : Value) → is_text_with test v ≡ true → test (text_of v) ≡ true
is_text_with-text_of test (text u) h = h
is_text_with-text_of test _ h = absurd (cc)

length-texts_of : (vs : Values) → length (texts_of vs) ≡ size vs
length-texts_of end = refl
length-texts_of (item v vs) = omega (arith, length-texts_of vs)

has_addresses-length :
    (v : Value) → has_addresses v ≡ true → (1 ≤ length (items_of v)) × (length (items_of v) ≤ 4)
has_addresses-length (array vs) h = ground (arith, h, length-texts_of vs)
has_addresses-length _ h = absurd (cc)

is_lifetime-bounds :
    (now : ℕ) (issued expires : Value)
    → is_lifetime now issued expires ≡ true
    → (number_of issued ≤ now + 60_000) × (number_of issued < number_of expires)
is_lifetime-bounds now (integer (pos i)) (integer (pos e)) h = ground (arith, h)
is_lifetime-bounds now (integer (pos i)) (integer (negsuc e)) h = absurd (cc)
is_lifetime-bounds now (integer (negsuc i)) e h = absurd (cc)
is_lifetime-bounds now _ e h = absurd (cc)

between_tests : (low high n : ℕ) → (leb low n && leb n high) ≡ true → (low ≤ n) × (n ≤ high)
between_tests low high n h = ground (arith, h)

module _ {Public Private : Type 0} (codec : Codec) (keys : SigningKeys Public Private)
    (dialer : Dialer) where
  -- An address that is an endpoint of the peer.
  abbrev pub Dials : String → String → Type 0
  Dials peer address =
      (cs : List Component) × (dialer.components address ≡ some cs) × IsEndpoint dialer peer cs

  -- An invite that may be joined at a time.
  pub record IsInvite (now : ℕ) (p : InvitePayload) : Type 0 where
    pub version : p.unsigned.version ≡ 2
    pub protocol : p.unsigned.hall_protocol ≡ hall_protocol_version
    pub room : p.unsigned.room_id ≡ "hall"
    pub identity :
        (16 ≤ codec.text_length p.unsigned.peer_id) × (codec.text_length p.unsigned.peer_id ≤ 160)
    pub some_addresses : (1 ≤ length p.unsigned.addresses) × (length p.unsigned.addresses ≤ 4)
    pub issued : p.unsigned.issued_at ≤ now + 60_000
    pub lives : p.unsigned.issued_at < p.unsigned.expires_at
    pub unexpired : now ≤ p.unsigned.expires_at
    pub at_most_a_day : p.unsigned.expires_at ≤ p.unsigned.issued_at + 86_400_000
    pub dialled : All (Dials p.unsigned.peer_id) p.unsigned.addresses

  assert_addresses-All :
      (peer : String) (vs : Values) {u : Unit {0}}
      → assert_addresses codec dialer peer vs ≡ ok u
      → All (Dials peer) (texts_of vs)
  assert_addresses-All peer end h = tt
  assert_addresses-All peer (item (text t) vs) h =
      let (u, first, rest) = bind-eq-ok (assert_dial_address dialer t peer) _ h in
      (assert_dial_address-IsEndpoint dialer t peer first, assert_addresses-All peer vs rest)
  assert_addresses-All peer (item _ vs) h = absurd (cc)

  assert_items-All :
      (peer : String) (v : Value)
      → has_addresses v ≡ true
      → assert_items codec dialer peer v ≡ ok tt
      → All (Dials peer) (items_of v)
  assert_items-All peer (array vs) has h = assert_addresses-All peer vs h
  assert_items-All peer _ has h = absurd (cc)

  assert_rest-lifetime :
      (v : Value)
      → assert_rest codec dialer v ≡ ok tt
      → (number_of (property "expiresAt" v) ≤ number_of (property "issuedAt" v) + 86_400_000)
        × (assert_items codec dialer (text_of (property "peerId" v)) (property "addresses" v)
            ≡ ok tt)
  unfolding assert_rest
  assert_rest-lifetime v h =
      let (short, rest) =
        guard-eq-ok
          (leb (number_of (property "expiresAt" v))
            (number_of (property "issuedAt" v) + 24 * 60 * 60 * 1_000))
          too_long_lived _ h in
      (ground (arith, short), rest)

  read_payload-IsInvite :
      (v : Value) (now : ℕ) → IsAsserted codec keys dialer v now → IsInvite now (read_payload v)
  read_payload-IsInvite v now a =
      let (versions, protocols) = and_true _ _ a.of_protocol in
      let (issued, lives) =
        is_lifetime-bounds now (property "issuedAt" v) (property "expiresAt" v) a.timed in
      let (short, items) = assert_rest-lifetime v a.rest in
      let sized = is_text_with-text_of _ (property "peerId" v) a.identified in
      record {
        version = is_integer-number_of 2 (property "version" v) versions;
        protocol = is_text-text_of hall_protocol_version (property "hallProtocol" v) protocols;
        room = is_text-text_of "hall" (property "roomId" v) a.of_hall;
        identity = between_tests 16 160 (codec.text_length (text_of (property "peerId" v))) sized;
        some_addresses = has_addresses-length (property "addresses" v) a.addressed;
        issued = issued;
        lives = lives;
        unexpired = ground (arith, a.unexpired);
        at_most_a_day = short;
        dialled =
            assert_items-All (text_of (property "peerId" v)) (property "addresses" v) a.addressed
              items;
      }

  -- A decoded invite is one for this version's hall, issued at most a minute ahead, for at most a day
  -- that is not over, with one to four addresses, each an endpoint of the peer that it names; and a key
  -- of that peer verified it.
  pub decode_invite-IsInvite :
      (code : String) (now : ℕ) (payload : InvitePayload)
      → decode_invite codec keys dialer code now ≡ ok payload
      → IsInvite now payload × HasKey codec keys dialer payload
  decode_invite-IsInvite code now payload h =
      let d = decode_invite-IsDecoded codec keys dialer code now payload h in
      let a = assert_invite-IsAsserted codec keys dialer d.value now d.asserted in
      let (same_payload, key) =
        verify_invite-HasKey codec keys dialer (read_payload d.value) payload d.verified in
      subst (λ (p : InvitePayload). IsInvite now p × HasKey codec keys dialer p) same_payload
        (read_payload-IsInvite d.value now a, key)
