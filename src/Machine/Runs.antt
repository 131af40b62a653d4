-- ===== src/Machine/Runs.antt =====
-- Runs of the machine of src/client/hall-machine.ts: a state that `createHallState` makes, and any
-- calls on it, by any members and at any times.
use dsh_carbonclub.Base.{
  ℕ, zero, suc, ◌+◌, ◌≤◌, ◌≡◌, refl, sym, same_iff, same_self, Bool, true, not, String, none, some,
  List, [], ◌∷◌, keep, find, take, length, same, arith, Bool-cases, inl, inr, All,
}
use dsh_carbonclub.Base.Keys.{mem}
use dsh_carbonclub.Base.Total.{total, one_if, total-keep-le}
use dsh_carbonclub.Ledger.Accept.{unique}
use dsh_carbonclub.Machine.Defs.{
  SeatLease, SeatOffer, HallState, HallInput, Texts, seat_count, seat_member_ids, first_seats,
  fill_offers, create_hall_state,
}
use dsh_carbonclub.Machine.Calls.{
  enter_queue, leave_queue, accept_offer, decline_offer, post_message, is_open_offer, set_seat,
}
use dsh_carbonclub.Machine.Tick.{tick_hall}
use dsh_carbonclub.Machine.Places.{
  is_id, id_count, mem-id_count, id_count-take-drop, id_count-set_seat, id_count-unique_onto,
}
use dsh_carbonclub.Machine.Covered.{IsOfEmpty, IsMachine}
use dsh_carbonclub.Machine.Fill.{fill_offers-IsMachine}
use dsh_carbonclub.Machine.Kept.{
  enter_queue-IsMachine, leave_queue-IsMachine, decline_offer-IsMachine,
}
use dsh_carbonclub.Machine.Taken.{accept_offer-IsMachine, post_message-IsMachine}
use dsh_carbonclub.Machine.Ticked.{tick_hall-IsMachine}

length-first_seats : (n now : ℕ) (seated : List String) → length (first_seats n now seated) ≡ n
unfolding first_seats
length-first_seats zero now seated = refl
length-first_seats (suc n) now [] = omega (arith, length-first_seats n now [])
length-first_seats (suc n) now (id ∷ seated) = omega (arith, length-first_seats n now seated)

id_count-first_seats :
    (n now : ℕ) (member : String) (seated : List String)
    → id_count member (seat_member_ids (first_seats n now seated)) ≤ id_count member seated
unfolding first_seats seat_member_ids total
id_count-first_seats zero now member seated = omega arith
id_count-first_seats (suc n) now member [] = id_count-first_seats n now member []
id_count-first_seats (suc n) now member (id ∷ seated) =
    omega (arith, id_count-first_seats n now member seated)

-- Who is in one list is not in the other one without it.
id_count-others :
    (member : String) (seated ids : List String)
    → mem member seated ≡ true
    → id_count member (keep (λ id. not (mem id seated)) ids) ≡ 0
unfolding keep total
id_count-others member seated [] h = refl
id_count-others member seated (id ∷ ids) h = elim (Bool-cases (same id member)) [
  | inl it ↦
      let e : id ≡ member = (same_iff id member).0 it in
      let sits : mem id seated ≡ true = rw e h in rw sits (id_count-others member seated ids h)
  | inr other ↦ ground (arith, id_count-others member seated ids h)
]

created-once :
    (now : ℕ) (member : String) (seated queue : List String)
    → id_count member seated ≤ 1
    → id_count member queue ≤ 1
    → id_count member (seat_member_ids (first_seats seat_count now seated))
        + id_count member (keep (λ id. not (mem id seated)) queue)
      ≤ 1
created-once now member seated queue a b = elim (Bool-cases (mem member seated)) [
  | inl sits ↦ omega (
    arith,
    id_count-first_seats seat_count now member seated,
    id_count-others member seated queue sits,
  )
  | inr stands ↦ omega (
    arith,
    id_count-first_seats seat_count now member seated,
    mem-id_count member seated stands,
    total-keep-le (one_if (is_id member)) (λ (id : String). not (mem id seated)) queue,
  )
]

id_count-unique-once : (member : String) (ids : List String) → id_count member (unique ids) ≤ 1
unfolding unique total
id_count-unique-once member ids = (id_count-unique_onto member [] ids).0 (omega arith)

create_hall_state-IsMachine : (input : HallInput) → IsMachine (create_hall_state input)
unfolding create_hall_state total
create_hall_state-IsMachine input =
    let seated = take seat_count (unique input.seated) in
    fill_offers-IsMachine _ input.now (record {
      seated = length-first_seats seat_count input.now seated;
      empty = tt;
      single = λ index. omega arith;
      once = λ m. omega (
        arith,
        created-once input.now m seated (unique input.queue)
            (omega (
              arith,
              id_count-take-drop m seat_count (unique input.seated),
              id_count-unique-once m input.seated,
            ))
            (id_count-unique-once m input.queue),
      );
    })

module _ (texts : Texts) where
  -- One call.
  pub data Step (s : HallState) : HallState → Type 0 where
    enter : (member : String) (now : ℕ) → Step s (enter_queue s member now)
    leave : (member : String) (now : ℕ) → Step s (leave_queue s member now)
    accept : (member : String) (now : ℕ) → Step s (accept_offer texts s member now)
    decline : (member : String) (now : ℕ) → Step s (decline_offer s member now)
    tick : (now : ℕ) → Step s (tick_hall texts s now)
    post : (member body : String) (now : ℕ) → Step s (post_message texts s member body now).0

  pub data Reach : HallState → Type 0 where
    start : (input : HallInput) → Reach (create_hall_state input)
    next : {s t : HallState} → Reach s → Step s t → Reach t

  Step-IsMachine : {s t : HallState} → Step s t → IsMachine s → IsMachine t
  Step-IsMachine {s} (enter member now) v = enter_queue-IsMachine s member now v
  Step-IsMachine {s} (leave member now) v = leave_queue-IsMachine s member now v
  Step-IsMachine {s} (accept member now) v = accept_offer-IsMachine texts s member now v
  Step-IsMachine {s} (decline member now) v = decline_offer-IsMachine s member now v
  Step-IsMachine {s} (tick now) v = tick_hall-IsMachine texts s now v
  Step-IsMachine {s} (post member body now) v = post_message-IsMachine texts s member body now v

  -- Whatever calls are made on a created state, there are eight seats, every offer is of an empty
  -- seat and no two are of one, no member has two places (a seat, a place in the queue or an offer),
  -- and nobody is in the queue while a seat is empty and offered to nobody.
  pub Reach-IsMachine : {s : HallState} → Reach s → IsMachine s
  Reach-IsMachine (start input) = create_hall_state-IsMachine input
  Reach-IsMachine (next r step) = Step-IsMachine step (Reach-IsMachine r)

All-find :
    (P : SeatOffer → Type 0) (p : SeatOffer → Bool) (offers : List SeatOffer) (offer : SeatOffer)
    → All P offers
    → find p offers ≡ some offer
    → P offer
unfolding find
All-find P p [] offer h e = absurd (cc)
All-find P p (o ∷ offers) offer h e = elim (Bool-cases (p o)) [
  | inl here ↦ let found : o ≡ offer = ground (arith, e, here) in rw (sym found) h.0
  | inr later ↦ All-find P p offers offer h.1 (ground (arith, e, later))
]

id_count-mem :
    (member : String) (ids : List String) → 1 ≤ id_count member ids → mem member ids ≡ true
unfolding mem total
id_count-mem member [] h = absurd (omega arith)
id_count-mem member (id ∷ ids) h = ground (arith, id_count-mem member ids)

seats-fill_offers : (s : HallState) (now : ℕ) → (fill_offers s now).seats ≡ s.seats
unfolding fill_offers
seats-fill_offers s now = ground arith

-- In a state that calls have led to, a member who accepts an offer before it expires sits down.
pub accept_offer-mem :
    (texts : Texts) (s : HallState) (member : String) (now : ℕ) (offer : SeatOffer)
    → Reach texts s
    → find (is_open_offer member now) s.offers ≡ some offer
    → mem member (seat_member_ids (accept_offer texts s member now).seats) ≡ true
unfolding accept_offer total
accept_offer-mem texts s member now offer r found =
    let free =
      All-find (IsOfEmpty s.seats) (is_open_offer member now) s.offers offer
        (Reach-IsMachine texts r).sound.empty found in
    let lease : SeatLease = record {
      member_id = member;
      seated_at = now;
      last_spoke_at = now;
      warned_at = none;
    } in
    rw (found, accept_offer, free)
      (rw (seats-fill_offers) (
        id_count-mem member (seat_member_ids (set_seat offer.seat_index lease s.seats)) (
          ground (
            arith,
            id_count-set_seat member offer.seat_index lease s.seats free,
            same_self member,
          ))))
