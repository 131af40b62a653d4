-- ===== src/Ledger/Admission.antt =====
-- `admissionError` of `RoomEventLedger` against the join that `derive` would make of it
-- (src/network/room-events.ts): the node asks the first before it signs the join.
use dsh_carbonclub.Base.{
  ℕ, ◌≤◌, ◌≡◌, refl, Bool, true, ◌&&◌, ◌↔◌, String, none, some, List, [], ◌∷◌, ◌++◌, keep, any, max,
  same, same_self, leb, arith, Bool-cases, inl, inr,
}
use dsh_carbonclub.Base.Sort.{sort_by, total-sort_by}
use dsh_carbonclub.Base.Total.{total, one_if, total-append}
use dsh_carbonclub.Rules
use dsh_carbonclub.Types.{RoomProfile, Admission, join, hall_presence, RoomEvent}
use dsh_carbonclub.Hall.Defs.{
  Participant, Hall, empty_hall, holds, people, is_present, fill_seats, has_participant, advance,
}
use dsh_carbonclub.Hall.Derive
use dsh_carbonclub.Hall.Count.{hits, hits-fill}
use dsh_carbonclub.Hall.Moves.{total-refresh_seats, total-refresh_queue}
use dsh_carbonclub.Ledger.Defs.{Ledger}
use dsh_carbonclub.Ledger.Accept.{Engine}
use dsh_carbonclub.Ledger.Calls.{admission_error_in, admission_error}

module _ {A : Type 0} (p : A → Bool) where
  total-any : (xs : List A) → 1 ≤ total (one_if p) xs → any p xs ≡ true
  unfolding total any
  total-any [] h = absurd (omega arith)
  total-any (x ∷ xs) h = ground (arith, total-any xs)

  any-total : (xs : List A) → any p xs ≡ true → 1 ≤ total (one_if p) xs
  unfolding total any
  any-total [] h = absurd (cc)
  any-total (x ∷ xs) h = ground (arith, any-total xs)

  -- Keeping the elements that pass another test too.
  total-keep :
      (f : A → Bool) (xs : List A)
      → total (one_if p) (keep f xs) ≡ total (one_if (λ x. p x && f x)) xs
  unfolding total keep
  total-keep f [] = refl
  total-keep f (x ∷ xs) = ground (arith, total-keep f xs)

-- A peer is found where it counts.
hits-has_participant : (h : Hall) (peer : String) → 1 ≤ hits peer h → has_participant h peer ≡ true
unfolding has_participant
hits-has_participant h peer e = ground (
  arith,
  total-any (holds peer) h.seats,
  total-any (λ (p : Participant). same p.peer_id peer) h.queue,
)

has_participant-hits_le :
    (h : Hall) (peer : String) → has_participant h peer ≡ true → 1 ≤ hits peer h
unfolding has_participant
has_participant-hits_le h peer e = ground (
  arith,
  any-total (holds peer) h.seats,
  any-total (λ (p : Participant). same p.peer_id peer) h.queue,
)

refresh-hits :
    (h : Hall) (peer : String) (profile : RoomProfile) (at : ℕ)
    → hits peer (Derive.refresh h peer (some profile) at) ≡ hits peer h
unfolding Derive.refresh Derive.store_profile
refresh-hits h peer profile at = elim (Bool-cases (any (holds peer) h.seats)) [
  | inl seat ↦
      rw (seat, Derive.refresh)
        (omega (arith, total-refresh_seats peer peer (some profile) at h.seats))
  | inr waits ↦
      rw (waits, Derive.refresh)
        (omega (arith, total-refresh_queue peer peer (some profile) at h.queue))
]

module _ (engine : Engine) (h : Hall) (e : RoomEvent) (profile : RoomProfile) (joined_at : ℕ) where
  -- A newcomer whose presence starts now is kept by `fillSeats`.
  admit-hits : 1 ≤ hits e.origin (Derive.admit engine.locale_compare h e profile joined_at)
  unfolding Derive.admit Derive.store_profile fill_seats total
  admit-hits =
      let p : Participant = record {
        peer_id = e.origin;
        profile = profile;
        joined_at = joined_at;
        last_presence_at = e.issued_at;
      } in
      let queue = sort_by (Derive.queue_less engine.locale_compare) (h.queue ++ p ∷ []) in
      let counted : Participant → ℕ =
        one_if (λ q. same q.peer_id e.origin && is_present e.issued_at q) in
      ground (
        arith,
        hits-fill e.origin e.issued_at h.seats (keep (is_present e.issued_at) queue),
        total-keep (λ (q : Participant). same q.peer_id e.origin) (is_present e.issued_at) queue,
        total-sort_by (Derive.queue_less engine.locale_compare) counted (h.queue ++ p ∷ []),
        total-append counted h.queue (p ∷ []),
        same_self e.origin,
      )

  on_join-has_participant : (admission_error_in h e.origin e.issued_at ≡ none) ↔ (
      has_participant (Derive.on_join engine.locale_compare h e profile joined_at) e.origin ≡ true)
  unfolding admission_error_in Derive.on_join
  on_join-has_participant = elim (Bool-cases (has_participant h e.origin)) [
    | inl known ↦
        let there =
          hits-has_participant (Derive.refresh h e.origin (some profile) e.issued_at) e.origin (
            omega (
              arith,
              refresh-hits h e.origin profile e.issued_at,
              has_participant-hits_le h e.origin known,
            )) in
        rw (known, admission_error_in, Derive.on_join) ((λ _. there), (λ _. refl))
    | inr new ↦ elim (Bool-cases (Derive.is_cooling h e.origin e.issued_at)) [
      | inl cools ↦
          rw (new, admission_error_in, Derive.on_join, cools)
            ((λ x. absurd (cc)), (λ x. absurd (cc)))
      | inr free ↦ elim (Bool-cases (leb Rules.capacity (people h))) [
        | inl full ↦
            rw (new, admission_error_in, Derive.on_join, free, full)
              ((λ x. absurd (cc)), (λ x. absurd (cc)))
        | inr room ↦
            rw (new, admission_error_in, Derive.on_join, free, room)
              (
                (λ _.
                    hits-has_participant (Derive.admit engine.locale_compare h e profile joined_at)
                      e.origin admit-hits),
                (λ _. refl),
              )
      ]
    ]
  ]

-- `admissionError` answers nothing for a peer exactly when a join that the peer issues at that time,
-- taken by the loop of `derive` after all the ledger's events, leaves the peer in the hall.
pub admission_error-step :
    (engine : Engine) (l : Ledger) (e : RoomEvent) (profile : RoomProfile) (joined_at : ℕ)
    (admission : Admission)
    → e.payload ≡ hall_presence (join profile joined_at admission)
    → (admission_error engine l e.origin e.issued_at ≡ none) ↔ (
        has_participant
          (Derive.step engine.locale_compare
            (Derive.run engine.locale_compare empty_hall
              (sort_by (Derive.event_less engine.locale_compare) l.events))
            e)
          e.origin
        ≡ true)
unfolding admission_error admission_error_in Derive.derive Derive.step Derive.on_payload
    Derive.on_presence has_participant
admission_error-step engine l e profile joined_at admission joins =
    let sorted = sort_by (Derive.event_less engine.locale_compare) l.events in
    let later = advance (Derive.run engine.locale_compare empty_hall sorted) e.issued_at in
    rw joins (
      on_join-has_participant engine
        (record later { updated_at = max later.updated_at e.issued_at }) e profile joined_at)
