-- ===== src/Verify/Examples.antt =====
-- A join that is verified, a message that is signed, a proof of work, and the theorems at them.
use dsh_carbonclub.Base.{
  List, leb, if◌then◌else◌, arith, ℕ, ◌≡◌, refl, true, false, none, some, [], ◌∷◌, same,
}
use dsh_carbonclub.Types.{RoomEvent, hall_presence, join}
use dsh_carbonclub.Verify.Typed.{
  read_event, read_content, read_presence, read_join, read_profile, read_admission,
}
use dsh_carbonclub.Verify.Verified.{IsRead, verify_room_event-IsRead}
use dsh_carbonclub.Verify.Values.{
  ℤ, pos, negsuc, Value, integer, text, object, closed, field, property, look_up,
}
use dsh_carbonclub.Verify.Payloads.{
  Outside, old_join_time, has_leading_zero_bits, zero_bytes, assert_profile, assert_admission,
  assert_presence, assert_payload,
}
use dsh_carbonclub.Verify.Events.{Keys, assert_unsigned, canonical, verify_room_event}
use dsh_carbonclub.Verify.Signing.{
  MinedAdmission, Signer, proves, mine_admission, event_fields, normalize, sign_event,
}
use dsh_carbonclub.Verify.Signed.{IsSigner, IsFirst, verify-sign_event, mine_admission-IsFirst}
use dsh_carbonclub.Base.Result.{ok}
use dsh_carbonclub.Verify.Fresh.{IsFresh, verify_room_event-IsFresh}

-- Texts of twenty units that pass every test, and a hash that is a proof of work.
abbrev pub outside : Outside
outside = record {
  text_length = λ t. 20;
  is_blank = λ t. false;
  is_content_id = λ t. true;
  is_avatar_url = λ t. true;
  is_state_hash = λ t. true;
  avatar_content_id = λ t. "sha256";
  admission_digest = λ origin epoch nonce. 0 ∷ 0 ∷ 9 ∷ [];
}

abbrev pub keys : Keys
keys = record { origin_of = λ key. some "ann"; verify = λ key event signature. true }

-- A join issued at one million.
abbrev pub join_at : ℕ → Value
join_at joined = object (
    field "version" (integer (pos 1)) (
      field "roomId" (text "hall") (
        field "eventId" (text "j1") (
          field "origin" (text "ann") (
            field "sequence" (integer (pos 1)) (
              field "issuedAt" (integer (pos 1_000_000)) (
                field "publicKey" (text "key") (
                  field "signature" (text "signature") (
                    field "kind" (text "hall.presence") (
                      field "payload"
                        (object (
                          field "action" (text "join") (
                            field "profile" (object (field "name" (text "Ann") closed)) (
                              field "joinedAt" (integer (pos joined)) (
                                field "admission"
                                  (object (
                                    field "epoch" (integer (pos 3))
                                      (field "nonce" (integer (pos 7)) closed)))
                                  closed)))))
                        closed))))))))))

program : Unit {0}
unfolding same look_up property zero_bytes has_leading_zero_bits assert_profile assert_admission
    assert_presence assert_payload assert_unsigned canonical verify_room_event
program = tt

join_verified : verify_room_event outside keys (join_at 995_000) 1_001_000 false ≡ none
unfolding program
join_verified = refl

-- One that says that it joined long ago is refused.
join_refused : verify_room_event outside keys (join_at 5_000) 1_001_000 false ≡ some old_join_time
unfolding program
join_refused = refl

join_kind : property "kind" (join_at 995_000) ≡ text "hall.presence"
unfolding program
join_kind = refl

join_action : property "action" (property "payload" (join_at 995_000)) ≡ text "join"
unfolding program
join_action = refl

verify_room_event-IsFresh_example :
    IsFresh 1_001_000
      (property "issuedAt" (join_at 995_000))
      (property "joinedAt" (property "payload" (join_at 995_000)))
verify_room_event-IsFresh_example =
    verify_room_event-IsFresh outside keys (join_at 995_000) 1_001_000 join_kind join_action
      join_verified

-- The join as history, a day and more later, and the event that it reads as.
join_history : verify_room_event outside keys (join_at 995_000) 90_000_000 true ≡ none
unfolding program
join_history = refl

abbrev joined : RoomEvent
joined = record {
  event_id = "j1";
  origin = "ann";
  sequence = 1;
  issued_at = 1_000_000;
  public_key = "key";
  payload = hall_presence (
      join
        (record {
          name = "Ann";
          avatar_url = none;
          avatar_cid = none;
          last_completed_session = none;
        })
        995_000 (record { epoch = 3; nonce = 7 }));
  signature = "signature";
}

join_read : read_event (join_at 995_000) ≡ some joined
unfolding program read_event read_content read_presence read_join read_profile read_admission
join_read = refl

verify_room_event-IsRead_example : (e : RoomEvent) × IsRead 90_000_000 (join_at 995_000) e
verify_room_event-IsRead_example =
    verify_room_event-IsRead outside keys (join_at 995_000) 90_000_000 true (omega arith)
      join_history

abbrev signer : Signer
signer = record { origin = "ann"; public_key = "key"; sign = λ event. "signature" }

signer-IsSigner : IsSigner outside keys signer
signer-IsSigner = record { decodes = refl; short = λ event. refl; signs = λ event. refl }

abbrev hello : Value
hello = object (
    event_fields outside signer "e1" "chat.message" (object (field "body" (text "hello") closed)) 7
      1_000_000 (field "signature" (text "signature") closed))

hello_signed :
    sign_event outside 9 signer "e1" "chat.message"
      (object (field "body" (text "hello") closed))
      7
      1_000_000
    ≡ ok hello
unfolding program sign_event normalize mine_admission
hello_signed = refl

verify-sign_event_example : verify_room_event outside keys hello 1_000_000 false ≡ none
verify-sign_event_example =
    verify-sign_event outside keys 9 signer "e1" "chat.message"
      (object (field "body" (text "hello") closed)) hello 7 1_000_000 signer-IsSigner hello_signed

-- Nonces from 2 on are proofs of work.
abbrev digest_of : ℤ → List ℕ
digest_of (pos nonce) = if leb 2 nonce then 0 ∷ 0 ∷ 9 ∷ [] else 9 ∷ []
digest_of (negsuc nonce) = []

abbrev miner : Outside
miner = record outside { admission_digest = λ origin epoch nonce. digest_of nonce }

fifth_proves : proves miner "ann" 3 5 ≡ true
unfolding program
fifth_proves = refl

mine_admission-IsFirst_example :
    (a : MinedAdmission) × (mine_admission miner 9 "ann" 1_000_000 ≡ some a)
    × IsFirst miner "ann" 3 0 a
mine_admission-IsFirst_example =
    mine_admission-IsFirst miner 9 "ann" 1_000_000 5 (omega arith) fifth_proves
