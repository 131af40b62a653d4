-- ===== src/Machine/Kept.antt =====
-- `enterQueue`, `leaveQueue` and `declineOffer` of
-- src/client/hall-machine.ts keep the machine's invariant.
use mathlib.Core.Option.{get_or}
use dsh_carbonclub.Base.{
  ℕ, ◌+◌, ◌≤◌, ◌≡◌, refl, Bool, false, not, String, some, List, [], ◌∷◌, ◌++◌, keep, find, any, ltb,
  same, same_iff, arith, Bool-cases, Option-cases, inl, inr, All,
}
use dsh_carbonclub.Base.Dict
use dsh_carbonclub.Base.Keys.{mem}
use dsh_carbonclub.Base.Total.{total, one_if, total-append, total-keep-le, any-false-total}
use dsh_carbonclub.Machine.Defs.{SeatOffer, HallState, seat_member_ids, reserves}
use dsh_carbonclub.Machine.Calls.{
  is_offer_to, is_waiting, enter_queue, leave_queue, decline_offer, without_first,
}
use dsh_carbonclub.Machine.Places.{
  is_id, id_count, offered, places, mem-id_count, total-without_first, find-passes,
}
use dsh_carbonclub.Machine.Covered.{IsOfEmpty, IsSound, IsMachine}
use dsh_carbonclub.Machine.Fill.{fill_offers-IsMachine}

id_count-snoc :
    (m member : String) (ids : List String)
    → id_count m (ids ++ member ∷ []) ≡ id_count m ids + one_if (is_id m) member
unfolding total
id_count-snoc m member ids = omega (arith, total-append (one_if (is_id m)) ids (member ∷ []))

newcomer-once :
    (s : HallState) (member m : String)
    → mem member (seat_member_ids s.seats) ≡ false
    → is_waiting s member ≡ false
    → places m s ≤ 1
    → id_count m (seat_member_ids s.seats)
        + id_count m (s.queue ++ member ∷ [])
        + offered m s.offers
      ≤ 1
newcomer-once s member m stands free h =
    let absent : places member s ≡ 0 = ground (
      arith,
      mem-id_count member (seat_member_ids s.seats),
      mem-id_count member s.queue,
      any-false-total (is_offer_to member) s.offers,
    ) in
    rw (id_count-snoc m member s.queue) (elim (Bool-cases (same member m)) [
      | inl new ↦
          let itself : places m s ≡ 0 = rw ((same_iff member m).0 new) at absent in
          rw new (omega arith)
      | inr other ↦ rw other (omega arith)
    ])

pub enter_queue-IsMachine :
    (s : HallState) (member : String) (now : ℕ) → IsMachine s → IsMachine (enter_queue s member now)
unfolding enter_queue
enter_queue-IsMachine s member now v = elim (Bool-cases (mem member (seat_member_ids s.seats))) [
  | inl sits ↦ rw (sits, enter_queue) v
  | inr stands ↦ elim (Bool-cases (is_waiting s member)) [
    | inl waits ↦ rw (stands, enter_queue, waits) v
    | inr free ↦ elim (Bool-cases (ltb now (get_or (Dict.get member s.cooldown_until) 0))) [
      | inl cools ↦ rw (stands, enter_queue, free, cools) v
      | inr warm ↦
          rw (stands, enter_queue, free, warm)
            (fill_offers-IsMachine _ now (record {
              seated = v.sound.seated;
              empty = v.sound.empty;
              single = v.sound.single;
              once = λ m. newcomer-once s member m stands free (v.sound.once m);
            }))
    ]
  ]
]

-- Offers that are taken out leave sound ones.
pub All-keep :
    (P : SeatOffer → Type 0) (p : SeatOffer → Bool) (offers : List SeatOffer)
    → All P offers
    → All P (keep p offers)
unfolding keep
All-keep P p [] h = tt
All-keep P p (o ∷ offers) h = elim (Bool-cases (p o)) [
  | inl stays ↦ rw (stays, keep) (h.0, All-keep P p offers h.1)
  | inr goes ↦ rw (goes, keep) (All-keep P p offers h.1)
]

pub All-without_first :
    (P : SeatOffer → Type 0) (p : SeatOffer → Bool) (offers : List SeatOffer)
    → All P offers
    → All P (without_first p offers)
unfolding without_first
All-without_first P p [] h = tt
All-without_first P p (o ∷ offers) h = elim (Bool-cases (p o)) [
  | inl here ↦ rw (here, without_first) h.1
  | inr later ↦ rw (later, without_first) (h.0, All-without_first P p offers h.1)
]

pub keep-all :
    (p : SeatOffer → Bool) (offers : List SeatOffer)
    → any p offers ≡ false
    → keep (λ o. not (p o)) offers ≡ offers
unfolding keep any
keep-all p [] h = refl
keep-all p (o ∷ offers) h = ground (arith, keep-all p offers)

module _ (s : HallState) (member : String) (now : ℕ) (v : IsMachine s) where
  left : HallState
  left = record s {
    now = now;
    queue = keep (λ id. not (same id member)) s.queue;
    offers = keep (λ offer. not (is_offer_to member offer)) s.offers;
  }

  left-IsSound : IsSound left
  unfolding left
  left-IsSound = record {
    seated = v.sound.seated;
    empty = All-keep (IsOfEmpty s.seats) (λ o. not (is_offer_to member o)) s.offers v.sound.empty;
    single = λ index. omega (
      arith,
      v.sound.single index,
      total-keep-le (one_if (reserves index)) (λ (o : SeatOffer). not (is_offer_to member o))
          s.offers,
    );
    once = λ m. omega (
      arith,
      v.sound.once m,
      total-keep-le (one_if (is_id m)) (λ (id : String). not (same id member)) s.queue,
      total-keep-le (one_if (is_offer_to m)) (λ (o : SeatOffer). not (is_offer_to member o))
          s.offers,
    );
  }

  pub leave_queue-IsMachine : IsMachine (leave_queue s member now)
  unfolding leave_queue left keep
  leave_queue-IsMachine = elim (Bool-cases (any (is_offer_to member) s.offers)) [
    | inl had ↦ rw (had, leave_queue) (fill_offers-IsMachine left now left-IsSound)
    | inr had_none ↦
        rw (had_none, leave_queue)
          (record {
            sound = left-IsSound;
            filled = elim v.filled [
              | inl nobody ↦ inl (rw (nobody) refl)
              | inr no_seat ↦ inr (rw (keep-all (is_offer_to member) s.offers had_none) no_seat)
            ];
          })
  ]

-- The member whose offer was found and taken out gets the place that the offer was.
module _ (s : HallState) (member : String) (now : ℕ) (v : IsMachine s) where
  declined : HallState
  declined = record s {
    now = now;
    offers = without_first (is_offer_to member) s.offers;
    queue = s.queue ++ member ∷ [];
  }

  declined-IsSound :
      (offer : SeatOffer) → find (is_offer_to member) s.offers ≡ some offer → IsSound declined
  unfolding declined
  declined-IsSound offer found = record {
    seated = v.sound.seated;
    empty = All-without_first (IsOfEmpty s.seats) (is_offer_to member) s.offers v.sound.empty;
    single = λ index. omega (
      arith,
      v.sound.single index,
      total-without_first (is_offer_to member) (one_if (reserves index)) s.offers offer found,
    );
    once = λ m.
        let named =
          (same_iff offer.member_id member).0
            (find-passes (is_offer_to member) s.offers offer found) in
        let taken =
          total-without_first (is_offer_to member) (one_if (is_offer_to m)) s.offers offer found in
        omega (arith, v.sound.once m, id_count-snoc m member s.queue, rw named at taken);
  }

  pub decline_offer-IsMachine : IsMachine (decline_offer s member now)
  unfolding decline_offer declined
  decline_offer-IsMachine = elim (Option-cases (find (is_offer_to member) s.offers)) [
    | inl nothing ↦ rw (nothing, decline_offer) v
    | inr (offer, found) ↦
        rw (found, decline_offer)
          (fill_offers-IsMachine declined now (declined-IsSound offer found))
  ]
