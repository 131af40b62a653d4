-- ===== src/Transport/Invited.antt =====
-- An invite that one node creates is one that another node decodes: src/network/node.ts and
-- src/network/invite.ts together.
use Prim.Native.String.{◌++◌ as append}
use dsh_carbonclub.Base.{
  ℕ, ◌+◌, ◌*◌, ◌≤◌, ◌≡◌, refl, sym, ap, ◌∙◌, subst, Bool, true, false, ◌&&◌, not, String, some,
  List, [], ◌∷◌, keep, map, length, length-take, All, All-take, leb, ltb, same, Bool-cases, inl,
  inr, arith, not-true,
}
use dsh_carbonclub.Base.Result.{Result, ok, err, guard-eq-ok, ok_injective}
use dsh_carbonclub.Base.Sort.{sort_by, All-sort_by}
use dsh_carbonclub.Verify.Values.{look_up, property, max_safe}
use dsh_carbonclub.Codec.{Codec, IsCodec}
use dsh_carbonclub.Invite.Dial.{InviteError, assert_dial_address, not_own_key}
use dsh_carbonclub.Invite.Defs.{
  prefix, max_code_length, UnsignedInvitePayload, InvitePayload, SigningKeys, payload_value,
  texts_value, size, is_signed, assert_addresses, assert_rest, assert_invite, encode_invite,
  sign_invite, decode_invite,
}
use dsh_carbonclub.Invite.Round.{IsSigning, decode-encode_invite}
use dsh_carbonclub.Node.Peers.{is_nil}
use dsh_carbonclub.Transport.Defs.{CarbonNode, Wire, with_suffix, is_allowed_address}
use dsh_carbonclub.Transport.Publish.{is_ready}
use dsh_carbonclub.Transport.Connect.{
  invite_ttl_ms, not_running, no_address, InviteInfo, relayed_first, invite_addresses,
  invite_payload, signed_info, create_invite,
}

module _ {A : Type 0} where
  All-keep : (test : A → Bool) (xs : List A) → All (λ (x : A). test x ≡ true) (keep test xs)
  unfolding keep
  All-keep test [] = tt
  All-keep test (x ∷ xs) = elim (Bool-cases (test x)) [
    | inl passes ↦ rw (passes, keep) (passes, All-keep test xs)
    | inr fails ↦ rw (fails, keep) (All-keep test xs)
  ]

size-texts_value : (ts : List String) → size (texts_value ts) ≡ length ts
size-texts_value [] = refl
size-texts_value (t ∷ ts) = omega (arith, size-texts_value ts)

module _ (wire : Wire) where
  abbrev AllAllowed : String → List String → Type 0
  AllAllowed peer = All (λ (address : String). is_allowed_address wire address peer ≡ true)

  returned :
      (r : Result InviteError (Unit {0}))
      → (elim r [ ok u ↦ true | err e ↦ false ]) ≡ true
      → r ≡ ok tt
  returned (ok u) h = refl
  returned (err e) h = absurd (cc)

  is_allowed-ok :
      (address peer : String)
      → is_allowed_address wire address peer ≡ true
      → assert_dial_address wire.dialer address peer ≡ ok tt
  unfolding is_allowed_address
  is_allowed-ok address peer h = returned (assert_dial_address wire.dialer address peer) h

  module _ (codec : Codec) where
    assert_addresses-ok :
        (peer : String) (addresses : List String)
        → AllAllowed peer addresses
        → assert_addresses codec wire.dialer peer (texts_value addresses) ≡ ok tt
    assert_addresses-ok peer [] h = refl
    assert_addresses-ok peer (address ∷ addresses) h =
        rw (is_allowed-ok address peer h.0, assert_addresses-ok peer addresses h.1) refl

  AllAllowed-invite_addresses :
      (n : CarbonNode) (multiaddrs : List String)
      → AllAllowed n.session.peer_id (invite_addresses wire n multiaddrs)
  unfolding invite_addresses
  AllAllowed-invite_addresses n multiaddrs =
      let peer = n.session.peer_id in
      let P = λ (address : String). is_allowed_address wire address peer ≡ true in
      let suffixed = map (with_suffix (append "/p2p/" peer)) multiaddrs in
      let allowed = keep (λ (address : String). is_allowed_address wire address peer) suffixed in
      elim (Bool-cases n.is_running) [
        | inr stopped ↦ rw (stopped, invite_addresses) tt
        | inl runs ↦
            rw (runs, invite_addresses)
              (All-take P 4 (sort_by relayed_first allowed) (
                All-sort_by P relayed_first allowed
                  (All-keep (λ (address : String). is_allowed_address wire address peer) suffixed)))
      ]

  length-invite_addresses :
      (n : CarbonNode) (multiaddrs : List String) → length (invite_addresses wire n multiaddrs) ≤ 4
  unfolding invite_addresses
  length-invite_addresses n multiaddrs =
      let peer = n.session.peer_id in
      let suffixed = map (with_suffix (append "/p2p/" peer)) multiaddrs in
      let allowed = keep (λ (address : String). is_allowed_address wire address peer) suffixed in
      elim (Bool-cases n.is_running) [
        | inr stopped ↦ rw (stopped, invite_addresses) (omega arith)
        | inl runs ↦ rw (runs, invite_addresses) (length-take 4 (sort_by relayed_first allowed))
      ]

  module _ {Public Private : Type 0} (codec : Codec) (keys : SigningKeys Public Private) where
    -- A text that fits: the peer's id and the two texts of a signature.
    abbrev fits : ℕ → ℕ → String → Bool
    fits least most t = leb least (codec.text_length t) && leb (codec.text_length t) most

    payload_passes :
        (peer key signature : String) (addresses : List String) (now later : ℕ)
        → fits 16 160 peer ≡ true
        → codec.text_length key ≤ 512
        → codec.text_length signature ≤ 512
        → 1 ≤ length addresses
        → length addresses ≤ 4
        → AllAllowed peer addresses
        → now + invite_ttl_ms ≤ max_safe
        → now ≤ later + 60_000
        → later ≤ now + invite_ttl_ms
        → assert_invite codec wire.dialer
            (payload_value (record {
              unsigned = invite_payload peer addresses now;
              public_key = key;
              signature = signature;
            }))
            later
          ≡ ok tt
    unfolding assert_invite payload_value property look_up same is_signed assert_rest
    payload_passes peer key signature addresses now later named short_key short_signature
          some_address few allowed safe early late =
        let counted = size-texts_value addresses in
        let has_some : leb 1 (size (texts_value addresses)) ≡ true =
          ground (arith, counted, some_address) in
        let has_few : leb (size (texts_value addresses)) 4 ≡ true = ground (arith, counted, few) in
        let now_safe : leb now max_safe ≡ true = ground (arith, safe) in
        let end_safe : leb (now + invite_ttl_ms) max_safe ≡ true = ground (arith, safe) in
        let begun : leb now (later + 60_000) ≡ true = ground (arith, early) in
        let lasts : ltb now (now + invite_ttl_ms) ≡ true = ground arith in
        let key_fits : leb (codec.text_length key) 512 ≡ true = ground (arith, short_key) in
        let signature_fits : leb (codec.text_length signature) 512 ≡ true =
          ground (arith, short_signature) in
        let going : leb later (now + invite_ttl_ms) ≡ true = ground (arith, late) in
        let brief : leb (now + invite_ttl_ms) (now + 24 * 60 * 60 * 1_000) ≡ true = ground arith in
        rw
          (
            named,
            has_some,
            has_few,
            now_safe,
            end_safe,
            begun,
            lasts,
            key_fits,
            signature_fits,
            going,
            brief,
            assert_addresses-ok codec peer addresses allowed,
          )
          refl

    signed_info-ok :
        (peer : String) (addresses : List String) (now : ℕ) (r : Result InviteError InvitePayload)
        (info : InviteInfo) (payload : InvitePayload)
        → r ≡ ok payload
        → signed_info wire codec keys peer addresses now r ≡ ok info
        → encode_invite codec keys payload ≡ info.code
    unfolding signed_info
    signed_info-ok peer addresses now (err e) info payload signed h = absurd (cc)
    signed_info-ok peer addresses now (ok p) info payload signed h =
        ap (encode_invite codec keys) (sym (ok_injective signed))
        ∙ ap (λ (i : InviteInfo). i.code) (ok_injective h)

    created_code :
        (n : CarbonNode) (multiaddrs : List String) (private_key : Private) (now : ℕ)
        (info : InviteInfo) (payload : InvitePayload)
        → create_invite wire codec keys n multiaddrs private_key now ≡ ok info
        → sign_invite codec keys private_key
            (invite_payload n.session.peer_id (invite_addresses wire n multiaddrs) now)
          ≡ ok payload
        → (is_nil (invite_addresses wire n multiaddrs) ≡ false)
          × (encode_invite codec keys payload ≡ info.code)
    unfolding create_invite
    created_code n multiaddrs private_key now info payload h signed =
        let addresses = invite_addresses wire n multiaddrs in
        let (ready, h1) = guard-eq-ok (is_ready n) not_running _ h in
        let (some_address, h2) = guard-eq-ok (not (is_nil addresses)) no_address _ h1 in
        (
          not-true _ some_address,
          signed_info-ok n.session.peer_id addresses now _ info payload signed h2,
        )

    some_length : (ts : List String) → is_nil ts ≡ false → 1 ≤ length ts
    some_length [] h = absurd (cc)
    some_length (t ∷ ts) h = omega arith

    signed_payload :
        (private_key : Private) (unsigned : UnsignedInvitePayload) (payload : InvitePayload)
        → sign_invite codec keys private_key unsigned ≡ ok payload
        → payload.unsigned ≡ unsigned
    unfolding sign_invite
    signed_payload private_key unsigned payload h =
        let key = keys.public_key_of private_key in
        let (owned, made) =
          guard-eq-ok (same (keys.peer_id_of key) unsigned.peer_id) not_own_key _ h in
        sym (ap (λ (p : InvitePayload). p.unsigned) (ok_injective made))

    -- An invite that a node creates is decoded to what the node signed by every node that reads addresses
    -- alike, from a minute before to the thirty minutes after, where keys and codecs undo what they did,
    -- its texts and its code are no longer than an invite's may be, its end is a safe integer, and the
    -- text of the invite parses to its value.
    pub decode-create_invite :
        (n : CarbonNode) (multiaddrs : List String) (private_key : Private) (now later : ℕ)
        (info : InviteInfo) (payload : InvitePayload)
        → IsCodec codec prefix
        → IsSigning codec keys
        → create_invite wire codec keys n multiaddrs private_key now ≡ ok info
        → sign_invite codec keys private_key
            (invite_payload n.session.peer_id (invite_addresses wire n multiaddrs) now)
          ≡ ok payload
        → fits 16 160 n.session.peer_id ≡ true
        → codec.text_length payload.public_key ≤ 512
        → codec.text_length payload.signature ≤ 512
        → codec.text_length info.code ≤ max_code_length
        → codec.parse (codec.to_text (codec.from_text (codec.stringify (payload_value payload))))
          ≡ some (payload_value payload)
        → now + invite_ttl_ms ≤ max_safe
        → now ≤ later + 60_000
        → later ≤ now + invite_ttl_ms
        → decode_invite codec keys wire.dialer info.code later ≡ ok payload
    decode-create_invite n multiaddrs private_key now later info payload codecs signing created
          signed named short_key short_signature short parses safe early late =
        let peer = n.session.peer_id in
        let addresses = invite_addresses wire n multiaddrs in
        let unsigned = invite_payload peer addresses now in
        let (some_address, coded) =
          created_code n multiaddrs private_key now info payload created signed in
        let passes =
          payload_passes peer payload.public_key payload.signature addresses now later named
            short_key short_signature (some_length addresses some_address)
            (length-invite_addresses n multiaddrs) (AllAllowed-invite_addresses n multiaddrs) safe
            early late in
        let asserted : assert_invite codec wire.dialer (payload_value payload) later ≡ ok tt =
          subst
            (λ (u : UnsignedInvitePayload).
              assert_invite codec wire.dialer (payload_value (record payload { unsigned = u }))
                later
              ≡ ok tt)
            (sym (signed_payload private_key unsigned payload signed)) passes in
        subst (λ (code : String). decode_invite codec keys wire.dialer code later ≡ ok payload)
          coded
          (decode-encode_invite codec keys wire.dialer private_key unsigned payload later codecs
            signing signed
            (subst (λ (code : String). codec.text_length code ≤ max_code_length) (sym coded) short)
            parses asserted)
