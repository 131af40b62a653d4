-- ===== src/Project/Examples.antt =====
-- A project room, with a cipher that leaves the text as it is, and the theorems at it.
use Prim.Native.String.{◌++◌ as append}
use dsh_carbonclub.Base.{
  ℕ, zero, suc, ◌+◌, ◌≤◌, ◌≡◌, ◌≢◌, refl, ap, String, some, [], ◌∷◌, same, arith, false_true,
}
use dsh_carbonclub.Base.Result.{ok, err}
use dsh_carbonclub.Verify.Values.{undefined, look_up, property}
use dsh_carbonclub.Codec.{Bytes, Codec}
use dsh_carbonclub.Codec.Sample.{byte_of, sample, sample-IsCodec}
use dsh_carbonclub.Project.Defs.{
  ProjectRoomInvite, EncryptedProjectPayload, Crypto, other_room, invite_prefix, invite_value,
  is_invite, room_id_for, decode_secret, epoch_key, aad, create_project_invite,
  encode_project_invite, decode_project_invite, encrypt_project_payload, decrypt_project_payload,
  rotate_project_invite,
}
use dsh_carbonclub.Project.Laws.{
  IsCipher, decrypt-encrypt_project_payload, decrypt_project_payload-epoch,
  rotate-decrypt_project_payload, decode-encode_project_invite,
}

abbrev repeat : ℕ → ℕ → Bytes
repeat zero n = []
repeat (suc k) n = byte_of n ∷ repeat k n

-- A digest by the first bytes, which tells the two secrets below apart.
abbrev crypto : Crypto
crypto = record {
  digest = (sample undefined).to_base64url;
  hkdf = λ secret salt info. secret;
  encrypt = λ key nonce aad bytes. (bytes, repeat 16 0);
  decrypt = λ key nonce aad bytes tag. some bytes;
}

crypto-IsCipher : IsCipher crypto
crypto-IsCipher = record {
  opens = λ key nonce aad bytes. refl;
  as_long = λ key nonce aad bytes. refl;
  tagged = λ key nonce aad bytes. refl;
}

program : Unit {0}
unfolding same look_up property invite_value is_invite room_id_for decode_secret epoch_key aad
    create_project_invite encode_project_invite decode_project_invite encrypt_project_payload
    decrypt_project_payload rotate_project_invite
program = tt

abbrev plain : Codec
plain = sample undefined

abbrev invite : ProjectRoomInvite
unfolding program
invite = create_project_invite plain crypto (repeat 32 7) 1_000_000

abbrev message : Bytes
message = byte_of 104 ∷ byte_of 105 ∷ []

abbrev sealed : EncryptedProjectPayload
sealed = record {
  version = 1;
  room_id = "project-000001110000011100000111";
  epoch = 3;
  nonce = plain.to_base64url (repeat 12 5);
  ciphertext = plain.to_base64url message;
  tag = plain.to_base64url (repeat 16 0);
}

encrypted : encrypt_project_payload plain crypto invite message 3 (repeat 12 5) ≡ ok sealed
unfolding program
encrypted = refl

decrypt-encrypt_project_payload_example :
    decrypt_project_payload plain crypto invite sealed ≡ ok message
decrypt-encrypt_project_payload_example =
    decrypt-encrypt_project_payload plain crypto invite message (repeat 12 5) 3 sealed
      crypto-IsCipher (sample-IsCodec undefined invite_prefix) refl encrypted

decrypted : decrypt_project_payload plain crypto invite sealed ≡ ok message
unfolding program
decrypted = refl

decrypt_project_payload-epoch_example :
    (sealed.room_id ≡ invite.room_id) × (invite.epoch ≤ 3) × (3 ≤ invite.epoch + 1_000_000)
decrypt_project_payload-epoch_example =
    decrypt_project_payload-epoch plain crypto invite sealed message decrypted

abbrev next : ProjectRoomInvite
unfolding program
next = record (create_project_invite plain crypto (repeat 32 8) 2_000_000) { epoch = 2 }

rotated : rotate_project_invite plain crypto invite (repeat 32 8) 2_000_000 ≡ ok next
unfolding program
rotated = refl

is_other : room_id_for plain crypto (repeat 32 8) ≢ invite.room_id
unfolding program invite
is_other h = false_true refl (ap (λ (t : String). same t invite.room_id) h)

rotate-decrypt_project_payload_example :
    decrypt_project_payload plain crypto next sealed ≡ err other_room
rotate-decrypt_project_payload_example =
    rotate-decrypt_project_payload plain crypto invite next (repeat 32 8) message (repeat 12 5)
      2_000_000 3 sealed rotated is_other encrypted

abbrev coded : Codec
unfolding program
coded = sample (invite_value invite)

abbrev code : String
unfolding program
code = append invite_prefix (coded.to_base64url (coded.from_text "value"))

encoded : encode_project_invite coded crypto invite ≡ ok code
unfolding program
encoded = refl

decode-encode_project_invite_example : decode_project_invite coded crypto code ≡ ok invite
unfolding coded invite
decode-encode_project_invite_example =
    decode-encode_project_invite coded crypto invite code
      (sample-IsCodec (invite_value invite) invite_prefix) refl refl (omega arith) (omega arith)
      (omega arith) (omega arith) encoded (omega arith)
