-- ===== src/Project/Laws.antt =====
-- What src/network/project-crypto.ts relies on of node:crypto, `Buffer` and `JSON`, and what its
-- encrypted payloads and invite codes come to.
use package.text.Mathlib.Text.{starts_with}
use dsh_carbonclub.Codec.{
  Bytes, Codec, IsCodec, code_of, text_behind, text_behind-code_of, starts_with-code_of,
}
use dsh_carbonclub.Base.{
  ℕ, ◌+◌, ◌≤◌, ◌≡◌, ◌≢◌, refl, sym, ap, subst, ◌∙◌, true, ◌&&◌, String, some, length, leb, same,
  same_iff, same_self, arith,
}
use dsh_carbonclub.Base.Result.{ok, err, bind-eq-ok, guard-eq-ok}
use dsh_carbonclub.Verify.Values.{Value, property, max_safe, look_up, is_object}
use dsh_carbonclub.Project.Defs.{
  ProjectRoomInvite, EncryptedProjectPayload, other_room, max_plaintext_bytes, Crypto,
  invite_prefix, max_invite_length, invite_value, is_invite, room_id_for, decode_secret, epoch_key,
  aad, encode_project_invite, decode_project_invite, encrypt_project_payload,
  decrypt_project_payload, rotate_project_invite, create_project_invite, read_invite,
}

-- A cipher that decrypts what it encrypted, with a tag of 16 bytes and a text of the same length.
pub record IsCipher (crypto : Crypto) : Type 0 where
  pub opens :
      (key nonce aad bytes : Bytes)
      → crypto.decrypt key nonce aad
          (crypto.encrypt key nonce aad bytes).0
          (crypto.encrypt key nonce aad bytes).1
        ≡ some bytes
  pub as_long :
      (key nonce aad bytes : Bytes) → length (crypto.encrypt key nonce aad bytes).0 ≡ length bytes
  pub tagged : (key nonce aad bytes : Bytes) → length (crypto.encrypt key nonce aad bytes).1 ≡ 16

module _ (codec : Codec) (crypto : Crypto) where
  -- The payload that an encryption under a key returns.
  abbrev sealed : ProjectRoomInvite → Bytes → ℕ → Bytes → Bytes → EncryptedProjectPayload
  sealed invite bytes epoch nonce key = record {
    version = 1;
    room_id = invite.room_id;
    epoch = epoch;
    nonce = codec.to_base64url nonce;
    ciphertext =
        codec.to_base64url
          (crypto.encrypt key nonce (aad codec crypto invite.room_id epoch) bytes).0;
    tag =
        codec.to_base64url
          (crypto.encrypt key nonce (aad codec crypto invite.room_id epoch) bytes).1;
  }

  sealed-encrypt :
      (invite : ProjectRoomInvite) (bytes nonce : Bytes) (epoch : ℕ)
      (payload : EncryptedProjectPayload)
      → encrypt_project_payload codec crypto invite bytes epoch nonce ≡ ok payload
      → (key : Bytes) × (epoch_key codec crypto invite epoch ≡ ok key)
        × (sealed invite bytes epoch nonce key ≡ payload)
        × ((leb 1 (length bytes) && leb (length bytes) max_plaintext_bytes) ≡ true)
  unfolding encrypt_project_payload
  sealed-encrypt invite bytes nonce epoch payload h =
      let (sized, h1) = guard-eq-ok _ _ _ h in
      let (key, has_key, h2) = bind-eq-ok (epoch_key codec crypto invite epoch) _ h1 in
      (key, has_key, ground (arith, h2), sized)

  -- What was encrypted for an invite, with a nonce of twelve bytes, by a cipher and codecs that undo
  -- what they did, decrypts under the same invite to the plaintext.
  pub decrypt-encrypt_project_payload :
      (invite : ProjectRoomInvite) (bytes nonce : Bytes) (epoch : ℕ)
      (payload : EncryptedProjectPayload)
      → IsCipher crypto
      → IsCodec codec invite_prefix
      → length nonce ≡ 12
      → encrypt_project_payload codec crypto invite bytes epoch nonce ≡ ok payload
      → decrypt_project_payload codec crypto invite payload ≡ ok bytes
  unfolding decrypt_project_payload
  decrypt-encrypt_project_payload invite bytes nonce epoch payload cipher codecs twelve h =
      let (key, has_key, e, sized) = sealed-encrypt invite bytes nonce epoch payload h in
      let data_text = aad codec crypto invite.room_id epoch in
      let fits : (leb 1 (length bytes) && leb (length bytes) (max_plaintext_bytes + 32)) ≡ true =
        ground arith in
      rw (sym e) (
        rw
          (
            same_self invite.room_id,
            codecs.base64url nonce,
            codecs.base64url (crypto.encrypt key nonce data_text bytes).0,
            codecs.base64url (crypto.encrypt key nonce data_text bytes).1,
            twelve,
            cipher.tagged key nonce data_text bytes,
            cipher.as_long key nonce data_text bytes,
            fits,
            has_key,
            cipher.opens key nonce data_text bytes,
          )
          refl)

  -- A payload that decrypts under an invite is of its room, and of no epoch before the invite's nor
  -- more than a million after it.
  pub decrypt_project_payload-epoch :
      (invite : ProjectRoomInvite) (payload : EncryptedProjectPayload) (bytes : Bytes)
      → decrypt_project_payload codec crypto invite payload ≡ ok bytes
      → (payload.room_id ≡ invite.room_id)
        × (invite.epoch ≤ payload.epoch)
        × (payload.epoch ≤ invite.epoch + 1_000_000)
  unfolding decrypt_project_payload epoch_key
  decrypt_project_payload-epoch invite payload bytes h =
      ground (arith, h, same_iff payload.room_id invite.room_id)

  -- A payload of the room before a rotation is refused by the rotated invite, unless the two secrets
  -- have one room id.
  pub rotate-decrypt_project_payload :
      (previous next : ProjectRoomInvite) (secret bytes nonce : Bytes) (now epoch : ℕ)
      (payload : EncryptedProjectPayload)
      → rotate_project_invite codec crypto previous secret now ≡ ok next
      → room_id_for codec crypto secret ≢ previous.room_id
      → encrypt_project_payload codec crypto previous bytes epoch nonce ≡ ok payload
      → decrypt_project_payload codec crypto next payload ≡ err other_room
  unfolding rotate_project_invite create_project_invite decrypt_project_payload
  rotate-decrypt_project_payload previous next secret bytes nonce now epoch payload r other h =
      let (old, has_old, e1) = bind-eq-ok (decode_secret codec crypto previous) _ r in
      let (key, has_key, e, sized) = sealed-encrypt previous bytes nonce epoch payload h in
      let moved : room_id_for codec crypto secret ≡ next.room_id = ground (arith, e1) in
      let its_room : previous.room_id ≡ payload.room_id = ground (arith, e) in
      ground (arith, moved, its_room, other, same_iff payload.room_id next.room_id)

  decoded :
      (code : String) (value : Value) (secret : Bytes)
      → codec.trim code ≡ code
      → starts_with code invite_prefix ≡ true
      → leb (codec.text_length code) max_invite_length ≡ true
      → codec.parse (text_behind codec invite_prefix code) ≡ some value
      → is_object value ≡ true
      → is_invite value ≡ true
      → decode_secret codec crypto (read_invite value) ≡ ok secret
      → decode_project_invite codec crypto code ≡ ok (read_invite value)
  unfolding decode_project_invite
  decoded code value secret trims prefixed short parses thing tests has_secret =
      ground (arith, trims, prefixed, short, parses, thing, tests, has_secret)

  is_invite-invite_value :
      (invite : ProjectRoomInvite)
      → invite.version ≡ 1
      → 1 ≤ invite.epoch
      → invite.epoch ≤ max_safe
      → 1 ≤ invite.issued_at
      → invite.issued_at ≤ max_safe
      → is_invite (invite_value invite) ≡ true
  unfolding is_invite invite_value property look_up same
  is_invite-invite_value invite one epoch_low epoch_high issued_low issued_high = ground arith

  read_invite-invite_value :
      (invite : ProjectRoomInvite) → read_invite (invite_value invite) ≡ invite
  unfolding invite_value property look_up same
  read_invite-invite_value invite = refl

  -- A code that was encoded for an invite of version 1, with an epoch and a time from 1 to the largest
  -- safe integer, decodes to the invite, where the code is no longer than 2,048, codecs undo what they did and
  -- the text of the invite, in
  -- UTF-8 and back, parses to its value.
  pub decode-encode_project_invite :
      (invite : ProjectRoomInvite) (code : String)
      → IsCodec codec invite_prefix
      → codec.parse (codec.to_text (codec.from_text (codec.stringify (invite_value invite))))
        ≡ some (invite_value invite)
      → invite.version ≡ 1
      → 1 ≤ invite.epoch
      → invite.epoch ≤ max_safe
      → 1 ≤ invite.issued_at
      → invite.issued_at ≤ max_safe
      → encode_project_invite codec crypto invite ≡ ok code
      → codec.text_length code ≤ max_invite_length
      → decode_project_invite codec crypto code ≡ ok invite
  unfolding encode_project_invite decode_project_invite
  decode-encode_project_invite invite code laws parses one epoch_low epoch_high issued_low
        issued_high h short =
      let (secret, has_secret, e) = bind-eq-ok (decode_secret codec crypto invite) _ h in
      let t = codec.stringify (invite_value invite) in
      let is_code : code_of codec invite_prefix t ≡ code = ground (arith, e) in
      let trims : codec.trim code ≡ code =
        subst (λ (c : String). codec.trim c ≡ c) is_code (laws.trimmed (codec.from_text t)) in
      let prefixed =
        ap (λ (c : String). starts_with c invite_prefix) (sym is_code)
        ∙ starts_with-code_of codec invite_prefix t in
      let inside =
        ap (text_behind codec invite_prefix) (sym is_code)
        ∙ text_behind-code_of codec invite_prefix t laws in
      let small : leb (codec.text_length code) max_invite_length ≡ true = ground (arith) in
      let values = is_invite-invite_value invite one epoch_low epoch_high issued_low issued_high in
      let its = read_invite-invite_value invite in
      decoded code (invite_value invite) secret trims prefixed small
        (ap codec.parse inside ∙ parses) refl values
        (ap (decode_secret codec crypto) its ∙ has_secret)
      ∙ ap ok its
