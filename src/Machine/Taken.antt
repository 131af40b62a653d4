-- ===== src/Machine/Taken.antt =====
-- `acceptOffer` and `postMessage` of
-- src/client/hall-machine.ts keep the machine's invariant.
use dsh_carbonclub.Base.{
  ℕ, zero, suc, ◌≡◌, refl, ap, true, String, Option, none, some, List, [], ◌∷◌, find, length,
  same_iff, arith, Bool-cases, Option-cases, inl, inr, All,
}
use dsh_carbonclub.Base.Total.{total, one_if}
use dsh_carbonclub.Machine.Defs.{
  SeatLease, SeatOffer, HallState, Texts, seat_member_ids, reserves, empty_seats,
}
use dsh_carbonclub.Machine.Calls.{
  is_offer_to, is_open_offer, accept_offer, post_message, post_error, speak, without_first,
  is_empty_at, set_seat,
}
use dsh_carbonclub.Machine.Places.{
  is_id, total-without_first, find-passes, id_count-set_seat, length-set_seat, is_empty_at-set_seat,
}
use dsh_carbonclub.Machine.Covered.{reserved, IsOfEmpty, IsSound, IsMachine}
use dsh_carbonclub.Machine.Fill.{fill_offers-IsMachine}
use dsh_carbonclub.Machine.Kept.{All-without_first}

-- Offers that do not reserve a seat still are of empty seats once it is taken.
others-AreEmpty :
    (index : ℕ) (lease : SeatLease) (seats : List (Option SeatLease)) (offers : List SeatOffer)
    → reserved index offers ≡ 0
    → All (IsOfEmpty seats) offers
    → All (IsOfEmpty (set_seat index lease seats)) offers
unfolding total
others-AreEmpty index lease seats [] h e = tt
others-AreEmpty index lease seats (o ∷ offers) h e = (
  rw (is_empty_at-set_seat index o.seat_index lease seats (ground arith)) e.0,
  others-AreEmpty index lease seats offers (omega (arith, h)) e.1,
)

module _ (texts : Texts) (s : HallState) (member : String) (now : ℕ) (v : IsMachine s) where
  accepted-IsSound :
      (offer : SeatOffer) (lease : SeatLease) (t : HallState)
      → find (is_open_offer member now) s.offers ≡ some offer
      → is_empty_at offer.seat_index s.seats ≡ true
      → lease.member_id ≡ member
      → t.seats ≡ set_seat offer.seat_index lease s.seats
      → t.offers ≡ without_first (is_open_offer member now) s.offers
      → t.queue ≡ s.queue
      → IsSound t
  accepted-IsSound offer lease t found free named seats offers queue =
      let p = is_open_offer member now in
      let its : is_offer_to member offer ≡ true =
        ground (arith, find-passes p s.offers offer found) in
      let owner : offer.member_id ≡ member = (same_iff offer.member_id member).0 its in
      let none_left : reserved offer.seat_index (without_first p s.offers) ≡ 0 = ground (
        arith,
        total-without_first p (one_if (reserves offer.seat_index)) s.offers offer found,
        v.sound.single offer.seat_index,
      ) in
      record {
        seated = rw (seats, length-set_seat offer.seat_index lease s.seats) v.sound.seated;
        empty =
            rw (seats, offers)
              (others-AreEmpty offer.seat_index lease s.seats (without_first p s.offers) none_left
                (All-without_first (IsOfEmpty s.seats) p s.offers v.sound.empty));
        single = λ index. rw offers (
            omega (
              arith,
              v.sound.single index,
              total-without_first p (one_if (reserves index)) s.offers offer found,
            ));
        once = λ m.
            let taken = total-without_first p (one_if (is_offer_to m)) s.offers offer found in
            let sits = id_count-set_seat m offer.seat_index lease s.seats free in
            rw (seats, offers, queue)
              (omega (
                arith,
                v.sound.once m,
                taken,
                sits,
                ap (one_if (is_id m)) owner,
                ap (one_if (is_id m)) named,
              ));
      }

  pub accept_offer-IsMachine : IsMachine (accept_offer texts s member now)
  unfolding accept_offer
  accept_offer-IsMachine = elim (Option-cases (find (is_open_offer member now) s.offers)) [
    | inl nothing ↦ rw (nothing, accept_offer) v
    | inr (offer, found) ↦ elim (Bool-cases (is_empty_at offer.seat_index s.seats)) [
      | inr taken ↦ rw (found, accept_offer, taken) v
      | inl free ↦
          rw (found, accept_offer, free)
            (fill_offers-IsMachine _ now
              (accepted-IsSound offer _ _ found free refl refl refl refl))
    ]
  ]

-- Speaking moves nobody.
module _ (member : String) (now : ℕ) where
  speak-keeps :
      (seats : List (Option SeatLease))
      → (seat_member_ids (speak member now seats) ≡ seat_member_ids seats)
        × (length (speak member now seats) ≡ length seats)
  unfolding speak seat_member_ids
  speak-keeps [] = (refl, refl)
  speak-keeps (none ∷ seats) = ground (arith, speak-keeps seats)
  speak-keeps (some lease ∷ seats) = ground (arith, speak-keeps seats)

  is_empty_at-speak :
      (index : ℕ) (seats : List (Option SeatLease))
      → is_empty_at index (speak member now seats) ≡ is_empty_at index seats
  unfolding speak is_empty_at
  is_empty_at-speak index [] = refl
  is_empty_at-speak zero (none ∷ seats) = refl
  is_empty_at-speak zero (some lease ∷ seats) = ground arith
  is_empty_at-speak (suc index) (none ∷ seats) = is_empty_at-speak index seats
  is_empty_at-speak (suc index) (some lease ∷ seats) = ground (arith, is_empty_at-speak index seats)

  empty_seats-speak :
      (offers : List SeatOffer) (k : ℕ) (seats : List (Option SeatLease))
      → empty_seats offers k (speak member now seats) ≡ empty_seats offers k seats
  unfolding speak empty_seats
  empty_seats-speak offers k [] = refl
  empty_seats-speak offers k (none ∷ seats) = ground (arith, empty_seats-speak offers (suc k) seats)
  empty_seats-speak offers k (some lease ∷ seats) =
      ground (arith, empty_seats-speak offers (suc k) seats)

  AreEmpty-speak :
      (seats : List (Option SeatLease)) (offers : List SeatOffer)
      → All (IsOfEmpty seats) offers
      → All (IsOfEmpty (speak member now seats)) offers
  AreEmpty-speak seats [] h = tt
  AreEmpty-speak seats (o ∷ offers) h =
      (rw (is_empty_at-speak o.seat_index seats) h.0, AreEmpty-speak seats offers h.1)

pub post_message-IsMachine :
    (texts : Texts) (s : HallState) (member body : String) (now : ℕ)
    → IsMachine s
    → IsMachine (post_message texts s member body now).0
unfolding post_message
post_message-IsMachine texts s member body now v =
    elim (Option-cases (post_error texts s member (texts.trim body) now)) [
      | inr (error, refused) ↦ rw (refused, post_message) v
      | inl fine ↦
          let kept = speak-keeps member now s.seats in
          rw (fine, post_message)
            (record {
              sound = record {
                seated = rw kept.1 v.sound.seated;
                empty = AreEmpty-speak member now s.seats s.offers v.sound.empty;
                single = v.sound.single;
                once = λ m. rw kept.0 (v.sound.once m);
              };
              filled = rw (empty_seats-speak member now s.offers 0 s.seats) v.filled;
            })
    ]
