-- ===== src/Invite/Round.antt =====
-- An invite that was signed and encoded, src/network/invite.ts, comes back from its code.
use Prim.Native.String.{compare}
use package.text.Mathlib.Text.{starts_with, is_eq}
use package.text.Mathlib.TextPositions.{slice-append_left}
use dsh_carbonclub.Base.{
  ℕ, ◌≤◌, ◌≡◌, refl, ap, ◌∙◌, subst, true, false, String, some, List, [], ◌∷◌, leb, same, arith,
}
use dsh_carbonclub.Base.Result.{ok, guard-eq-ok, ok_injective}
use dsh_carbonclub.Verify.Values.{Value, property, look_up}
use dsh_carbonclub.Codec.{Bytes, Codec, IsCodec, code_of, text_behind-code_of, starts_with-code_of}
use dsh_carbonclub.Invite.Dial.{Dialer, not_own_key}
use dsh_carbonclub.Invite.Defs.{
  prefix, max_code_length, UnsignedInvitePayload, InvitePayload, SigningKeys,
  canonical_invite_bytes, payload_value, texts_value, texts_of, read_payload, assert_invite,
  encode_invite, sign_invite, verify_invite, decode_invite,
}

texts_of-texts_value : (ts : List String) → texts_of (texts_value ts) ≡ ts
texts_of-texts_value [] = refl
texts_of-texts_value (t ∷ ts) = ap (λ (rest : List String). t ∷ rest) (texts_of-texts_value ts)

with_addresses : InvitePayload → List String → InvitePayload
with_addresses p addresses = record p { unsigned = record p.unsigned { addresses = addresses } }

read_payload-payload_value : (p : InvitePayload) → read_payload (payload_value p) ≡ p
unfolding payload_value property look_up same with_addresses
read_payload-payload_value p = ap (with_addresses p) (texts_of-texts_value p.unsigned.addresses)

module _ {Public Private : Type 0} (codec : Codec) (keys : SigningKeys Public Private) where
  -- Keys whose protobuf and base64 read back, and whose signatures verify.
  pub record IsSigning : Type 0 where
    pub protobuf : (key : Public) → keys.from_protobuf (keys.to_protobuf key) ≡ some key
    pub base64 : (bytes : Bytes) → keys.from_base64 (keys.to_base64 bytes) ≡ bytes
    pub signed :
        (private_key : Private) (bytes : Bytes)
        → keys.verify (keys.public_key_of private_key) bytes (keys.sign private_key bytes) ≡ true

  verify-sign_invite :
      (private_key : Private) (unsigned : UnsignedInvitePayload) (payload : InvitePayload)
      → IsSigning
      → sign_invite codec keys private_key unsigned ≡ ok payload
      → verify_invite codec keys payload ≡ ok payload
  unfolding sign_invite verify_invite
  verify-sign_invite private_key unsigned payload laws h =
      let key = keys.public_key_of private_key in
      let (owned, h1) = guard-eq-ok (same (keys.peer_id_of key) unsigned.peer_id) not_own_key _ h in
      let bytes = canonical_invite_bytes codec unsigned in
      let is_payload = ok_injective h1 in
      subst (λ (p : InvitePayload). verify_invite codec keys p ≡ ok p) is_payload
        (rw
          (
            laws.base64 (keys.to_protobuf key),
            laws.protobuf key,
            owned,
            laws.base64 (keys.sign private_key bytes),
            laws.signed private_key bytes,
          )
          refl)

  is_new_code : (t : String) → starts_with (code_of codec prefix t) "carbon1." ≡ false
  is_new_code t =
      ap (λ (start : String). is_eq (compare start "carbon1."))
        (slice-append_left prefix (codec.to_base64url (codec.from_text t)))

  decoded :
      (dialer : Dialer) (t : String) (value : Value) (now : ℕ)
      → IsCodec codec prefix
      → codec.text_length (code_of codec prefix t) ≤ max_code_length
      → codec.parse (codec.to_text (codec.from_text t)) ≡ some value
      → assert_invite codec dialer value now ≡ ok tt
      → decode_invite codec keys dialer (code_of codec prefix t) now
        ≡ verify_invite codec keys (read_payload value)
  unfolding decode_invite
  decoded dialer t value now laws short parses asserted =
      let fits : leb (codec.text_length (code_of codec prefix t)) max_code_length ≡ true =
        ground arith in
      rw
        (
          laws.trimmed (codec.from_text t),
          is_new_code t,
          starts_with-code_of codec prefix t,
          fits,
          text_behind-code_of codec prefix t laws,
          parses,
          asserted,
        )
        refl

  -- An invite that was signed, with keys and codecs that undo what they did, decodes from its code to
  -- what was signed, where the code is no longer than 16,384, the text of the invite parses to its
  -- value, and the value passes `assertPayload` at that time.
  pub decode-encode_invite :
      (dialer : Dialer) (private_key : Private) (unsigned : UnsignedInvitePayload)
      (payload : InvitePayload) (now : ℕ)
      → IsCodec codec prefix
      → IsSigning
      → sign_invite codec keys private_key unsigned ≡ ok payload
      → codec.text_length (encode_invite codec keys payload) ≤ max_code_length
      → codec.parse (codec.to_text (codec.from_text (codec.stringify (payload_value payload))))
        ≡ some (payload_value payload)
      → assert_invite codec dialer (payload_value payload) now ≡ ok tt
      → decode_invite codec keys dialer (encode_invite codec keys payload) now ≡ ok payload
  unfolding encode_invite
  decode-encode_invite dialer private_key unsigned payload now codecs laws signs short parses
        asserted =
      let t = codec.stringify (payload_value payload) in
      decoded dialer t (payload_value payload) now codecs short parses asserted
      ∙ ap (verify_invite codec keys) (read_payload-payload_value payload)
      ∙ verify-sign_invite private_key unsigned payload laws signs
