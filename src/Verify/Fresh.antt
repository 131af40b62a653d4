-- ===== src/Verify/Fresh.antt =====
-- The times of a join from the wire, src/network/room-events.ts.
use dsh_carbonclub.Base.{
  ℕ, ◌+◌, ◌≤◌, ◌≡◌, refl, true, false, not, ◌&&◌, String, none, same, if◌then◌else◌, arith,
}
use dsh_carbonclub.Verify.Values.{
  ℤ, pos, negsuc, Value, undefined, null, boolean, integer, fraction, text, array, object, property,
  is_null, is_text, is_safe_with, is_positive, is_undefined,
}
use dsh_carbonclub.Verify.Payloads.{
  type_error, throw_if, Outside, assert_profile, assert_admission, bad_join_time, old_join_time,
  assert_presence, assert_payload, is_up_to, is_within,
}
use dsh_carbonclub.Verify.Passed.{and_then-none, throw_if-none, verify_room_event-IsChecked}
use dsh_carbonclub.Verify.Events.{
  assert_content, is_since, is_join_event, max_event_age_ms, max_clock_skew_ms, join_freshness_ms,
  Keys, verify_room_event,
}

-- A join's times, as its checks leave them.
abbrev pub HasTimes : Value → Value → Type 0
HasTimes (integer (pos t)) (integer (pos j)) = (1 ≤ j) × (j ≤ t) × (t ≤ j + 10_000)
HasTimes _ _ = ⊥

times-HasTimes :
    (issued : ℤ) (joined : Value)
    → is_safe_with (λ j. is_positive j && is_up_to issued j) joined ≡ true
    → is_safe_with (is_within 10_000 issued) joined ≡ true
    → HasTimes (integer issued) joined
times-HasTimes (pos t) (integer (pos j)) a b = ground arith
times-HasTimes (negsuc t) (integer (pos j)) a b = ground arith
times-HasTimes issued (integer (negsuc j)) a b = ground arith
times-HasTimes issued undefined a b = absurd (cc)
times-HasTimes issued null a b = absurd (cc)
times-HasTimes issued (boolean _) a b = absurd (cc)
times-HasTimes issued fraction a b = absurd (cc)
times-HasTimes issued (text _) a b = absurd (cc)
times-HasTimes issued (array _) a b = absurd (cc)
times-HasTimes issued (object _) a b = absurd (cc)

module _ (outside : Outside) where
  join-HasTimes :
      (origin : String) (issued : ℤ) (payload : Value)
      → is_text "join" (property "action" payload) ≡ true
      → is_text "leave" (property "action" payload) ≡ false
      → assert_presence outside origin issued payload ≡ none
      → HasTimes (integer issued) (property "joinedAt" payload)
  unfolding assert_presence
  join-HasTimes origin issued payload joins stays h =
      let joined = property "joinedAt" payload in
      let h1 = rw (joins, stays) at h in
      let h2 = and_then-none (assert_profile outside (property "profile" payload)) _ h1 in
      let h3 =
        and_then-none (assert_admission outside origin issued (property "admission" payload)) _
          h2.1 in
      let h4 =
        and_then-none
          (if is_text "heartbeat" (property "action" payload)
              && not (is_undefined (property "profile" payload))
            then assert_profile outside (property "profile" payload)
            else none)
          _ h3.1 in
      let h5 =
        and_then-none
          (throw_if (not (is_safe_with (λ j. is_positive j && is_up_to issued j) joined))
            bad_join_time)
          _ h4.1 in
      times-HasTimes issued joined
        (ground (
          arith,
          throw_if-none (not (is_safe_with (λ (j : ℤ). is_positive j && is_up_to issued j) joined))
              bad_join_time h5.0,
        ))
        (ground (
          arith,
          throw_if-none (not (is_safe_with (is_within 10_000 issued) joined)) old_join_time h5.1,
        ))

  pub content-HasTimes :
      (event origin issued : Value)
      → property "kind" event ≡ text "hall.presence"
      → property "action" (property "payload" event) ≡ text "join"
      → assert_content outside event origin issued ≡ none
      → HasTimes issued (property "joinedAt" (property "payload" event))
  unfolding assert_payload same
  content-HasTimes event (text o) (integer i) kind action h =
      let payload = property "payload" event in
      let h1 = rw kind at h in
      join-HasTimes o i payload (rw action refl) (rw action refl)
        (and_then-none (throw_if (is_null payload) type_error) (assert_presence outside o i payload)
          h1).1
  content-HasTimes event (text o) undefined kind action h = absurd (cc)
  content-HasTimes event (text o) null kind action h = absurd (cc)
  content-HasTimes event (text o) (boolean _) kind action h = absurd (cc)
  content-HasTimes event (text o) fraction kind action h = absurd (cc)
  content-HasTimes event (text o) (text _) kind action h = absurd (cc)
  content-HasTimes event (text o) (array _) kind action h = absurd (cc)
  content-HasTimes event (text o) (object _) kind action h = absurd (cc)
  content-HasTimes event undefined issued kind action h = absurd (cc)
  content-HasTimes event null issued kind action h = absurd (cc)
  content-HasTimes event (boolean _) issued kind action h = absurd (cc)
  content-HasTimes event (integer _) issued kind action h = absurd (cc)
  content-HasTimes event fraction issued kind action h = absurd (cc)
  content-HasTimes event (array _) issued kind action h = absurd (cc)
  content-HasTimes event (object _) issued kind action h = absurd (cc)

-- When a join was issued, and when it says that its peer joined.
abbrev pub IsFresh : ℕ → Value → Value → Type 0
IsFresh now (integer (pos t)) (integer (pos j)) =
    (now ≤ t + join_freshness_ms)
    × (t ≤ now + max_clock_skew_ms)
    × (1 ≤ j)
    × (j ≤ t)
    × (t ≤ j + 10_000)
IsFresh now _ _ = ⊥

times-IsFresh :
    (now : ℕ) (issued joined : Value)
    → HasTimes issued joined
    → is_safe_with
        (λ t. is_up_to (pos (now + max_clock_skew_ms)) t && is_since now max_event_age_ms t)
        issued
      ≡ true
    → is_safe_with (is_since now join_freshness_ms) issued ≡ true
    → IsFresh now issued joined
times-IsFresh now (integer (pos t)) (integer (pos j)) h a b =
    (ground arith, ground arith, h.0, h.1, h.2)
times-IsFresh now undefined joined h a b = elim h [ ]
times-IsFresh now null joined h a b = elim h [ ]
times-IsFresh now (boolean _) joined h a b = elim h [ ]
times-IsFresh now (integer (pos t)) undefined h a b = elim h [ ]
times-IsFresh now (integer (pos t)) null h a b = elim h [ ]
times-IsFresh now (integer (pos t)) (boolean _) h a b = elim h [ ]
times-IsFresh now (integer (pos t)) (integer (negsuc _)) h a b = elim h [ ]
times-IsFresh now (integer (pos t)) fraction h a b = elim h [ ]
times-IsFresh now (integer (pos t)) (text _) h a b = elim h [ ]
times-IsFresh now (integer (pos t)) (array _) h a b = elim h [ ]
times-IsFresh now (integer (pos t)) (object _) h a b = elim h [ ]
times-IsFresh now (integer (negsuc _)) joined h a b = elim h [ ]
times-IsFresh now fraction joined h a b = elim h [ ]
times-IsFresh now (text _) joined h a b = elim h [ ]
times-IsFresh now (array _) joined h a b = elim h [ ]
times-IsFresh now (object _) joined h a b = elim h [ ]

module _ (outside : Outside) (keys : Keys) where
  -- A join that `verifyRoomEvent` takes as no history was issued at most 30 seconds ago and at most
  -- five minutes ahead, and the time at which it says that its peer joined is positive, not after
  -- that and at most ten seconds before it.
  pub verify_room_event-IsFresh :
      (event : Value) (now : ℕ)
      → property "kind" event ≡ text "hall.presence"
      → property "action" (property "payload" event) ≡ text "join"
      → verify_room_event outside keys event now false ≡ none
      → IsFresh now (property "issuedAt" event) (property "joinedAt" (property "payload" event))
  unfolding same
  verify_room_event-IsFresh event now kind action h =
      let issued = property "issuedAt" event in
      let checked = (verify_room_event-IsChecked outside keys event now false h).0 in
      let joins : is_join_event event ≡ true = rw (kind, action) refl in
      let times =
        content-HasTimes outside event (property "origin" event) issued kind action
          checked.has_content in
      times-IsFresh now issued (property "joinedAt" (property "payload" event)) times
        checked.has_time (ground (arith, joins, checked.is_recent))
