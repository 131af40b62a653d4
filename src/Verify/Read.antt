-- ===== src/Verify/Read.antt =====
-- A value that `verifyRoomEvent` (src/network/room-events.ts) lets pass is of the type that it asserts.
use dsh_carbonclub.Base.{
  ℕ, ◌≡◌, refl, true, not, ◌&&◌, ◌||◌, String, Option, none, some, same, Bool-cases, inl, inr,
  arith, if◌then◌else◌,
}
use dsh_carbonclub.Types.{RoomProfile, Admission, HallPresence, join, heartbeat, leave}
use dsh_carbonclub.Verify.Values.{
  pos, negsuc, Value, undefined, null, boolean, integer, fraction, text, array, object, property,
  is_object, is_null, is_text, is_text_with, is_safe_with, is_undefined, is_positive,
}
use dsh_carbonclub.Verify.Payloads.{
  VerifyError, Outside, has_length, throw_if, and_then, bad_profile, bad_name, bad_session,
  bad_content_id, bad_admission, bad_action, bad_join_time, type_error, assert_avatar,
  assert_profile, is_proof, assert_admission, assert_presence, is_up_to,
}
use dsh_carbonclub.Verify.Passed.{and_then-none, passed}
use dsh_carbonclub.Verify.Typed.{
  ◌>>=◌, as_text, as_optional, read_profile, read_admission, read_join, read_heartbeat,
  read_presence,
}
use dsh_carbonclub.Verify.Shapes.{
  is_text_with-text, is_safe_with-natural, is_text-text, third, is_optional-text,
}

module _ (outside : Outside) where
  avatar-text :
      (v cid : Value)
      → assert_avatar outside v cid ≡ none
      → (t : Option String) × (as_optional as_text v ≡ some t)
  avatar-text undefined cid h = (none, refl)
  avatar-text (text t) cid h = (some t, refl)
  avatar-text null cid h = absurd (cc)
  avatar-text (boolean _) cid h = absurd (cc)
  avatar-text (integer _) cid h = absurd (cc)
  avatar-text fraction cid h = absurd (cc)
  avatar-text (array _) cid h = absurd (cc)
  avatar-text (object _) cid h = absurd (cc)

  pub read-assert_profile :
      (v : Value) → assert_profile outside v ≡ none → (p : RoomProfile) × (read_profile v ≡ some p)
  unfolding assert_profile read_profile
  read-assert_profile v h =
      let h1 = and_then-none (throw_if (not (is_object v)) bad_profile) _ h in
      let h2 =
        and_then-none
          (throw_if
            (not (
              is_text_with (λ t. not (outside.is_blank t) && has_length outside 0 48 t)
                (property "name" v)))
            bad_name)
          _ h1.1 in
      let h3 =
        and_then-none
          (throw_if
            (not (
              is_undefined (property "lastCompletedSession" v)
              || is_text_with (has_length outside 0 120) (property "lastCompletedSession" v)))
            bad_session)
          _ h2.1 in
      let h4 =
        and_then-none
          (throw_if
            (not (
              is_undefined (property "avatarCid" v)
              || is_text_with outside.is_content_id (property "avatarCid" v)))
            bad_content_id)
          _ h3.1 in
      let (name, e0) = is_text_with-text _ (property "name" v) (passed _ bad_name h2.0) in
      let (session, e1) =
        is_optional-text _ (property "lastCompletedSession" v) (passed _ bad_session h3.0) in
      let (cid, e2) = is_optional-text _ (property "avatarCid" v) (passed _ bad_content_id h4.0) in
      let (url, e3) = avatar-text (property "avatarUrl" v) (property "avatarCid" v) h4.1 in
      (
        record {
          name = name;
          avatar_url = url;
          avatar_cid = cid;
          last_completed_session = session;
        },
        rw (e0, e1, e2, e3) refl,
      )

  proof-natural :
      (origin : String) (t : ℕ) (epoch nonce : Value)
      → is_proof outside origin (pos t) epoch nonce ≡ true
      → (m n : ℕ) × (epoch ≡ integer (pos m)) × (nonce ≡ integer (pos n))
  proof-natural origin t (integer (pos m)) (integer (pos n)) h = (m, n, refl, refl)
  proof-natural origin t (integer (negsuc m)) (integer n) h = absurd (ground (arith, h))
  proof-natural origin t (integer (pos m)) (integer (negsuc n)) h = absurd (ground (arith, h))
  proof-natural origin t undefined nonce h = absurd (cc)
  proof-natural origin t null nonce h = absurd (cc)
  proof-natural origin t (boolean _) nonce h = absurd (cc)
  proof-natural origin t fraction nonce h = absurd (cc)
  proof-natural origin t (text _) nonce h = absurd (cc)
  proof-natural origin t (array _) nonce h = absurd (cc)
  proof-natural origin t (object _) nonce h = absurd (cc)
  proof-natural origin t (integer _) undefined h = absurd (cc)
  proof-natural origin t (integer _) null h = absurd (cc)
  proof-natural origin t (integer _) (boolean _) h = absurd (cc)
  proof-natural origin t (integer _) fraction h = absurd (cc)
  proof-natural origin t (integer _) (text _) h = absurd (cc)
  proof-natural origin t (integer _) (array _) h = absurd (cc)
  proof-natural origin t (integer _) (object _) h = absurd (cc)

  pub read-assert_admission :
      (origin : String) (t : ℕ) (v : Value)
      → assert_admission outside origin (pos t) v ≡ none
      → (a : Admission) × (read_admission v ≡ some a)
  unfolding assert_admission read_admission
  read-assert_admission origin t v h =
      let h1 = and_then-none (throw_if (is_null v) type_error) _ h in
      let (m, n, e0, e1) =
        proof-natural origin t (property "epoch" v) (property "nonce" v)
          (passed _ bad_admission h1.1) in
      (record { epoch = m; nonce = n }, rw (e0, e1) refl)

  some-profile :
      (v : Value)
      → assert_profile outside v ≡ none
      → (p : Option RoomProfile) × ((read_profile v >>= λ a. some (some a)) ≡ some p)
  some-profile v h = let (p, e) = read-assert_profile v h in (some p, rw e refl)

  optional-profile :
      (v : Value)
      → (if not (is_undefined v) then assert_profile outside v else none) ≡ none
      → (p : Option RoomProfile) × (as_optional read_profile v ≡ some p)
  optional-profile undefined h = (none, refl)
  optional-profile null h = some-profile null h
  optional-profile (boolean b) h = some-profile (boolean b) h
  optional-profile (integer n) h = some-profile (integer n) h
  optional-profile fraction h = some-profile fraction h
  optional-profile (text t) h = some-profile (text t) h
  optional-profile (array vs) h = some-profile (array vs) h
  optional-profile (object fields) h = some-profile (object fields) h

  -- The time of a join or a heartbeat.
  joined-natural :
      (t : ℕ) (v : Value) (e : VerifyError) (next : Option VerifyError)
      → and_then (throw_if (not (is_safe_with (λ j. is_positive j && is_up_to (pos t) j) v)) e) next
        ≡ none
      → (n : ℕ) × (v ≡ integer (pos n)) × ((is_positive (pos n) && is_up_to (pos t) (pos n)) ≡ true)
  joined-natural t v e next h =
      is_safe_with-natural (λ j. is_positive j && is_up_to (pos t) j) v (λ n. refl)
        (passed _ e (and_then-none (throw_if _ e) next h).0)

  read-join :
      (origin : String) (t : ℕ) (v : Value)
      → property "action" v ≡ text "join"
      → assert_presence outside origin (pos t) v ≡ none
      → (p : HallPresence) × (read_presence v ≡ some p)
  unfolding assert_presence read_presence read_join same
  read-join origin t v action h =
      let h1 = rw action at h in
      let h2 = and_then-none (assert_profile outside (property "profile" v)) _ h1 in
      let h3 =
        and_then-none (assert_admission outside origin (pos t) (property "admission" v)) _ h2.1 in
      let (profile, e0) = read-assert_profile (property "profile" v) h2.0 in
      let (admission, e1) = read-assert_admission origin t (property "admission" v) h3.0 in
      let (joined, e2, _) = joined-natural t (property "joinedAt" v) bad_join_time _ h3.1 in
      (join profile joined admission, rw (action, e0, e1, e2) refl)

  read-heartbeat :
      (origin : String) (t : ℕ) (v : Value)
      → property "action" v ≡ text "heartbeat"
      → assert_presence outside origin (pos t) v ≡ none
      → (p : HallPresence) × (read_presence v ≡ some p)
  unfolding assert_presence read_presence read_heartbeat same
  read-heartbeat origin t v action h =
      let h1 = rw action at h in
      let h2 =
        and_then-none
          (if not (is_undefined (property "profile" v))
            then assert_profile outside (property "profile" v)
            else none)
          _ h1 in
      let (profile, e0) = optional-profile (property "profile" v) h2.0 in
      let (joined, e2, _) = joined-natural t (property "joinedAt" v) bad_join_time _ h2.1 in
      (heartbeat profile joined, rw (action, e0, e2) refl)

  pub read-assert_presence :
      (origin : String) (t : ℕ) (v : Value)
      → assert_presence outside origin (pos t) v ≡ none
      → (p : HallPresence) × (read_presence v ≡ some p)
  unfolding assert_presence read_presence same
  read-assert_presence origin t v h =
      let action = property "action" v in
      let h1 =
        and_then-none
          (throw_if
            (not (is_text "join" action || is_text "heartbeat" action || is_text "leave" action))
            bad_action)
          _ h in
      elim (Bool-cases (is_text "join" action)) [
        | inl joins ↦ read-join origin t v (is_text-text "join" action joins) h
        | inr stays ↦ elim (Bool-cases (is_text "heartbeat" action)) [
          | inl beats ↦ read-heartbeat origin t v (is_text-text "heartbeat" action beats) h
          | inr other ↦
              (leave, rw (stays, other, third _ _ _ stays other (passed _ bad_action h1.0)) refl)
        ]
      ]
