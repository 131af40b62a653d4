-- ===== src/Verify/Signed.antt =====
-- What src/network/room-events.ts signs, it verifies; and the proof of work that it mines.
use dsh_carbonclub.Base.{
  ℕ, zero, suc, ◌+◌, ◌/◌, ◌≤◌, ◌<◌, ◌≡◌, refl, sym, ap, ◌∙◌, Bool, true, false, String, Option,
  none, some, same, same_self, arith, Bool-cases, some_injective, inl, inr, subst, ◌==◌,
}
use dsh_carbonclub.Base.Result.{ok, bind-eq-ok, ok_injective}
use dsh_carbonclub.Verify.Values.{Value, object, text, closed, field, property, look_up}
use dsh_carbonclub.Verify.Payloads.{VerifyError, and_then, Outside, has_length, admission_epoch_ms}
use dsh_carbonclub.Verify.Events.{
  Keys, assert_signature, assert_unsigned, canonical, verify_room_event,
}
use dsh_carbonclub.Verify.Signing.{
  MinedAdmission, Signer, proves, mine_from, mine_admission, event_fields, unless_refused,
  normalize, sign_event,
}

beyond : (test : ℕ → Bool) (m n : ℕ) → test m ≡ false → test n ≡ true → m ≤ n → m + 1 ≤ n
beyond test m n is_false is_true low = elim (Bool-cases (m == n)) [
  | inl e ↦
      let moved : test n ≡ false = subst (λ (k : ℕ). test k ≡ false) (ground arith) is_false in
      absurd (cc)
  | inr e ↦ ground arith
]

unless-eq-ok :
    (outside : Outside) (error : Option VerifyError) (signed : Value) {event : Value}
    → unless_refused outside error signed ≡ ok event
    → (error ≡ none) × (signed ≡ event)
unless-eq-ok outside none signed h = (refl, ok_injective h)
unless-eq-ok outside (some error) signed h = absurd (cc)

module _ (outside : Outside) where
  abbrev pub IsFirst : String → ℕ → ℕ → MinedAdmission → Type 0
  IsFirst origin epoch nonce a =
      (a.epoch ≡ epoch)
      × (proves outside origin epoch a.nonce ≡ true)
      × (nonce ≤ a.nonce)
      × ((n : ℕ) → nonce ≤ n → n < a.nonce → proves outside origin epoch n ≡ false)

  mine_from-IsFirst :
      (rounds : ℕ) (origin : String) (epoch nonce : ℕ) (a : MinedAdmission)
      → mine_from outside rounds origin epoch nonce ≡ some a
      → IsFirst origin epoch nonce a
  unfolding mine_from
  mine_from-IsFirst zero origin epoch nonce a h = absurd (cc)
  mine_from-IsFirst (suc rounds) origin epoch nonce a h =
      elim (Bool-cases (proves outside origin epoch nonce)) [
        | inl found ↦
            subst (IsFirst origin epoch nonce) (some_injective (sym (rw found refl) ∙ h))
              (refl, found, omega arith, λ n low high. absurd (omega arith))
        | inr other ↦
            let (its, proved, low, least) =
              mine_from-IsFirst rounds origin epoch (nonce + 1) a (sym (rw other refl) ∙ h) in
            (
              its,
              proved,
              omega arith,
              λ n from to. elim (Bool-cases (nonce == n)) [
                | inl e ↦
                    subst (λ (k : ℕ). proves outside origin epoch k ≡ false) (ground arith) other
                | inr e ↦ least n (ground arith) to
              ],
            )
      ]

  mine_from-found :
      (rounds : ℕ) (origin : String) (epoch nonce n : ℕ)
      → nonce ≤ n
      → n < nonce + rounds
      → proves outside origin epoch n ≡ true
      → (a : MinedAdmission) × (mine_from outside rounds origin epoch nonce ≡ some a)
  unfolding mine_from
  mine_from-found zero origin epoch nonce n low high h = absurd (omega arith)
  mine_from-found (suc rounds) origin epoch nonce n low high h =
      elim (Bool-cases (proves outside origin epoch nonce)) [
        | inl found ↦ (record { epoch = epoch; nonce = nonce }, rw found refl)
        | inr other ↦ rw other (
            mine_from-found rounds origin epoch (nonce + 1) n
              (beyond (proves outside origin epoch) nonce n other h low) (omega arith) h)
      ]

  -- A key whose events verify: it decodes to the signer, and its signatures are short and verify.
  pub record IsSigner (keys : Keys) (signer : Signer) : Type 0 where
    pub decodes : keys.origin_of signer.public_key ≡ some signer.origin
    pub short : (event : Value) → has_length outside 0 512 (signer.sign event) ≡ true
    pub signs : (event : Value) → keys.verify signer.public_key event (signer.sign event) ≡ true

  abbrev unsigned_event : Signer → String → String → Value → ℕ → ℕ → Value
  unsigned_event signer event_id kind payload sequence now =
      object (event_fields outside signer event_id kind payload sequence now closed)

  abbrev signed_event : Signer → String → String → Value → ℕ → ℕ → String → Value
  signed_event signer event_id kind payload sequence now signature = object (
      event_fields outside signer event_id kind payload sequence now
        (field "signature" (text signature) closed))

  -- The checks and the canonical form do not read the signature.
  assert_unsigned-signed :
      (signer : Signer) (event_id kind : String) (payload : Value) (sequence now : ℕ)
      (signature : String)
      → assert_unsigned outside
          (signed_event signer event_id kind payload sequence now signature)
          now
          false
        ≡ assert_unsigned outside
            (unsigned_event signer event_id kind payload sequence now)
            now
            false
  unfolding assert_unsigned property look_up same
  assert_unsigned-signed signer event_id kind payload sequence now signature = refl

  canonical-signed :
      (signer : Signer) (event_id kind : String) (payload : Value) (sequence now : ℕ)
      (signature : String)
      → canonical (signed_event signer event_id kind payload sequence now signature)
        ≡ canonical (unsigned_event signer event_id kind payload sequence now)
  unfolding canonical property look_up same
  canonical-signed signer event_id kind payload sequence now signature = refl

  signature_passes :
      (keys : Keys) (signer : Signer) (event_id kind : String) (payload : Value) (sequence now : ℕ)
      (signature : String) (bytes : Value)
      → IsSigner keys signer
      → signer.sign bytes ≡ signature
      → canonical (signed_event signer event_id kind payload sequence now signature) ≡ bytes
      → assert_signature outside keys
          (signed_event signer event_id kind payload sequence now signature)
          (property "signature" (signed_event signer event_id kind payload sequence now signature))
          (property "publicKey" (signed_event signer event_id kind payload sequence now signature))
          (property "origin" (signed_event signer event_id kind payload sequence now signature))
        ≡ none
  unfolding property look_up same
  signature_passes keys signer event_id kind payload sequence now signature bytes laws is_signature
        same_bytes =
      let short =
        subst (λ (t : String). has_length outside 0 512 t ≡ true) is_signature (laws.short bytes) in
      let signs =
        subst (λ (t : String). keys.verify signer.public_key bytes t ≡ true) is_signature
          (laws.signs bytes) in
      rw (short, laws.decodes, same_self signer.origin, same_bytes, signs) refl

  verified :
      (keys : Keys) (signer : Signer) (event_id kind : String) (payload : Value) (sequence now : ℕ)
      → IsSigner keys signer
      → assert_unsigned outside (unsigned_event signer event_id kind payload sequence now) now false
        ≡ none
      → verify_room_event outside keys
          (signed_event signer event_id kind payload sequence now
            (signer.sign (canonical (unsigned_event signer event_id kind payload sequence now))))
          now
          false
        ≡ none
  unfolding verify_room_event
  verified keys signer event_id kind payload sequence now laws passes =
      let bytes = canonical (unsigned_event signer event_id kind payload sequence now) in
      let signature = signer.sign bytes in
      let event = signed_event signer event_id kind payload sequence now signature in
      let checks =
        assert_unsigned-signed signer event_id kind payload sequence now signature ∙ passes in
      let same_bytes = canonical-signed signer event_id kind payload sequence now signature in
      ap
        (λ (o : Option VerifyError). and_then o (
          assert_signature outside keys event (property "signature" event)
            (property "publicKey" event) (property "origin" event)))
        checks
      ∙ signature_passes keys signer event_id kind payload sequence now signature bytes laws refl
          same_bytes

  -- An event that a node signed at a time verifies at that time, for a key whose signatures verify.
  pub verify-sign_event :
      (keys : Keys) (rounds : ℕ) (signer : Signer) (event_id kind : String) (details event : Value)
      (sequence now : ℕ)
      → IsSigner keys signer
      → sign_event outside rounds signer event_id kind details sequence now ≡ ok event
      → verify_room_event outside keys event now false ≡ none
  unfolding sign_event verify_room_event
  verify-sign_event keys rounds signer event_id kind details event sequence now laws h =
      let (payload, has_payload, e) =
        bind-eq-ok (normalize outside rounds signer.origin now kind details) _ h in
      let signature =
        signer.sign (canonical (unsigned_event signer event_id kind payload sequence now)) in
      let (passes, is_event) =
        unless-eq-ok outside
          (assert_unsigned outside (unsigned_event signer event_id kind payload sequence now) now
            false)
          (signed_event signer event_id kind payload sequence now signature) e in
      subst (λ (v : Value). verify_room_event outside keys v now false ≡ none) is_event
        (verified keys signer event_id kind payload sequence now laws passes)

  -- A node that mines an admission for a time gets the first nonce that is a proof of work for the
  -- epoch of that time; and it gets one, where some nonce below the number of rounds is such a proof.
  pub mine_admission-IsFirst :
      (rounds : ℕ) (origin : String) (issued_at n : ℕ)
      → n < rounds
      → proves outside origin (issued_at / admission_epoch_ms) n ≡ true
      → (a : MinedAdmission) × (mine_admission outside rounds origin issued_at ≡ some a)
        × IsFirst origin (issued_at / admission_epoch_ms) 0 a
  unfolding mine_admission
  mine_admission-IsFirst rounds origin issued_at n few h =
      let epoch = issued_at / admission_epoch_ms in
      let (a, found) = mine_from-found rounds origin epoch 0 n (omega arith) (omega arith) h in
      (a, found, mine_from-IsFirst rounds origin epoch 0 a found)
