-- ===== src/Hall/Moves.antt =====
-- The invariant of the hall of `derive` (src/network/room-events.ts), and the steps that move nobody
-- in: removals, time, refreshed presences.
use dsh_carbonclub.Base.{
  ℕ, ◌≤◌, ◌≡◌, refl, inl, inr, Bool, String, Option, none, some, List, [], ◌∷◌, length, Bool-cases,
  any, arith,
}
use dsh_carbonclub.Base.Total.{total}
use dsh_carbonclub.Rules
use dsh_carbonclub.Types.{RoomProfile}
use dsh_carbonclub.Hall.Defs.{
  Participant, Seat, Hall, empty_hall, holds, occupied, people, remove_participant, advance,
}
use dsh_carbonclub.Hall.Derive
use dsh_carbonclub.Hall.Count.{
  held, queued, hits, IsFilled, length-remove_participant, IsFilled-remove_participant,
  hits-remove_participant-le, people-remove_participant,
}
use dsh_carbonclub.Hall.Expiry.{advance_ind}

pub record IsHall (h : Hall) : Type 0 where
  pub seated : length h.seats ≡ Rules.seat_count
  pub bounded : people h ≤ Rules.capacity
  pub once : (peer : String) → hits peer h ≤ 1
  pub filled : IsFilled h.seats h.queue

pub empty_hall-IsHall : IsHall empty_hall
unfolding total
empty_hall-IsHall = record {
  seated = refl;
  bounded = omega arith;
  once = λ peer. omega arith;
  filled = inl refl;
}

pub remove_participant-IsHall :
    (h : Hall) (peer : String) (at : ℕ) (cooldown : Bool)
    → IsHall h
    → IsHall (remove_participant h peer at cooldown)
remove_participant-IsHall h peer at cooldown v = record {
  seated = omega (arith, length-remove_participant h peer at cooldown, v.seated);
  bounded = omega (arith, people-remove_participant h peer at cooldown, v.bounded);
  once = λ p. omega (arith, hits-remove_participant-le h peer at cooldown p, v.once p);
  filled = IsFilled-remove_participant h peer at cooldown;
}

pub advance-IsHall : (h : Hall) (t : ℕ) → IsHall h → IsHall (advance h t)
advance-IsHall = advance_ind IsHall remove_participant-IsHall

-- A hall that counts like another.
pub IsHall-like :
    (h k : Hall)
    → length k.seats ≡ length h.seats
    → people k ≡ people h
    → ((peer : String) → hits peer k ≡ hits peer h)
    → IsFilled k.seats k.queue
    → IsHall h
    → IsHall k
IsHall-like h k e q same_hits filled v = record {
  seated = omega (arith, v.seated);
  bounded = omega (arith, v.bounded);
  once = λ peer. omega (arith, same_hits peer, v.once peer);
  filled = filled;
}

length-refresh_seats :
    (peer : String) (f : Participant → Participant) (seats : List (Option Seat))
    → length (Derive.refresh_seats peer f seats) ≡ length seats
unfolding Derive.refresh_seats
length-refresh_seats peer f [] = refl
length-refresh_seats peer f (none ∷ seats) = omega (arith, length-refresh_seats peer f seats)
length-refresh_seats peer f (some s ∷ seats) = ground (arith, length-refresh_seats peer f seats)

occupied-refresh_seats :
    (peer : String) (f : Participant → Participant) (seats : List (Option Seat))
    → occupied (Derive.refresh_seats peer f seats) ≡ occupied seats
unfolding Derive.refresh_seats
occupied-refresh_seats peer f [] = refl
occupied-refresh_seats peer f (none ∷ seats) = occupied-refresh_seats peer f seats
occupied-refresh_seats peer f (some s ∷ seats) = ground (arith, occupied-refresh_seats peer f seats)

length-refresh_queue :
    (peer : String) (f : Participant → Participant) (queue : List Participant)
    → length (Derive.refresh_queue peer f queue) ≡ length queue
unfolding Derive.refresh_queue
length-refresh_queue peer f [] = refl
length-refresh_queue peer f (p ∷ queue) = ground (arith, length-refresh_queue peer f queue)

module _ (p peer : String) (profile : Option RoomProfile) (at : ℕ) where
  pub total-refresh_seats :
      (seats : List (Option Seat))
      → total (held p) (Derive.refresh_seats peer (Derive.refreshed profile at) seats)
        ≡ total (held p) seats
  unfolding Derive.refresh_seats total
  total-refresh_seats [] = refl
  total-refresh_seats (none ∷ seats) = omega (arith, total-refresh_seats seats)
  total-refresh_seats (some s ∷ seats) = ground (arith, total-refresh_seats seats)

  pub total-refresh_queue :
      (queue : List Participant)
      → total (queued p) (Derive.refresh_queue peer (Derive.refreshed profile at) queue)
        ≡ total (queued p) queue
  unfolding Derive.refresh_queue total
  total-refresh_queue [] = refl
  total-refresh_queue (q ∷ queue) = ground (arith, total-refresh_queue queue)

IsFilled-refresh_queue :
    (peer : String) (f : Participant → Participant) (seats : List (Option Seat))
    (queue : List Participant)
    → IsFilled seats queue
    → IsFilled seats (Derive.refresh_queue peer f queue)
unfolding Derive.refresh_queue
IsFilled-refresh_queue peer f seats [] v = v
IsFilled-refresh_queue peer f seats (p ∷ queue) v = ground arith

-- Refreshing a participant moves nobody.
module _ (h k : Hall) (peer : String) (profile : Option RoomProfile) (at : ℕ) (v : IsHall h) where
  refresh_seats-IsHall :
      k.seats ≡ Derive.refresh_seats peer (Derive.refreshed profile at) h.seats
      → k.queue ≡ h.queue
      → IsHall k
  refresh_seats-IsHall e q =
      let f = Derive.refreshed profile at in
      IsHall-like h k (rw e (length-refresh_seats peer f h.seats))
        (rw (e, q) (omega (arith, occupied-refresh_seats peer f h.seats)))
        (λ p. rw (e, q) (omega (arith, total-refresh_seats p peer profile at h.seats)))
        (rw (e, q)
          (ground (
            arith,
            v.filled,
            occupied-refresh_seats peer f h.seats,
            length-refresh_seats peer f h.seats,
          )))
        v

  refresh_queue-IsHall :
      k.seats ≡ h.seats
      → k.queue ≡ Derive.refresh_queue peer (Derive.refreshed profile at) h.queue
      → IsHall k
  refresh_queue-IsHall e q =
      let f = Derive.refreshed profile at in
      IsHall-like h k (rw e) (rw (e, q) (omega (arith, length-refresh_queue peer f h.queue)))
        (λ p. rw (e, q) (omega (arith, total-refresh_queue p peer profile at h.queue)))
        (rw (e, q) (IsFilled-refresh_queue peer f h.seats h.queue v.filled)) v

pub refresh-IsHall :
    (h : Hall) (peer : String) (profile : Option RoomProfile) (at : ℕ)
    → IsHall h
    → IsHall (Derive.refresh h peer profile at)
unfolding Derive.refresh
refresh-IsHall h peer none at v = elim (Bool-cases (any (holds peer) h.seats)) [
  | inl seat ↦ rw (seat, Derive.refresh) (refresh_seats-IsHall h _ peer none at v refl refl)
  | inr waits ↦ rw (waits, Derive.refresh) (refresh_queue-IsHall h _ peer none at v refl refl)
]
refresh-IsHall h peer (some given) at v = elim (Bool-cases (any (holds peer) h.seats)) [
  | inl seat ↦ rw (seat, Derive.refresh) (refresh_seats-IsHall h _ peer (some given) at v refl refl)
  | inr waits ↦
      rw (waits, Derive.refresh) (refresh_queue-IsHall h _ peer (some given) at v refl refl)
]
