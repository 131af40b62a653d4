-- ===== src/Machine/Timely.antt =====
-- Whose time `tickHall` of src/client/hall-machine.ts ends.
use dsh_carbonclub.Base.{
  ◌⊎◌, ℕ, ◌+◌, ◌<◌, ◌≡◌, refl, sym, ◌||◌, String, Option, none, some, List, [], ◌∷◌, keep, take,
  length, min, ltb, ◌==◌, arith, Bool-cases, Option-cases, inl, inr, All,
}
use dsh_carbonclub.Machine.Defs.{
  SeatLease, SeatOffer, HallState, Texts, max_lease_ms, idle_ms, warning_ms, empty_seats,
  make_offers, fill_offers,
}
use dsh_carbonclub.Machine.Calls.{is_empty_at}
use dsh_carbonclub.Machine.Tick.{is_hard_expired, is_idle, unwarned, tick_lease, tick_hall}
use dsh_carbonclub.Machine.Fill.{All-append}
use dsh_carbonclub.Machine.Kept.{All-keep}
use dsh_carbonclub.Machine.Ticked.{ticked, after, after-ticked}

-- A lease is within its five minutes, and its holder spoke within the last two minutes or was warned
-- within the last thirty seconds.
abbrev pub IsTimely : ℕ → Option SeatLease → Type 0
IsTimely now none = Unit
IsTimely now (some lease) =
    (now < lease.seated_at + max_lease_ms)
    × ((now < lease.last_spoke_at + idle_ms)
        ⊎ ((t : ℕ) × (lease.warned_at ≡ some t) × (now < t + warning_ms)))

abbrev pub IsOpen : ℕ → SeatOffer → Type 0
IsOpen now offer = now < offer.expires_at

tick_lease-IsTimely :
    (now : ℕ) (lease kept : SeatLease) → tick_lease now lease ≡ some kept → IsTimely now (some kept)
unfolding tick_lease
tick_lease-IsTimely now lease kept h = elim (Bool-cases (is_hard_expired now lease)) [
  | inl hard ↦ absurd (ground arith)
  | inr soft ↦ elim (Bool-cases (is_idle now lease)) [
    | inr busy ↦
        let e : unwarned lease ≡ kept = ground arith in
        rw (sym e) (ground arith, inl (ground arith))
    | inl idle ↦ elim (Option-cases lease.warned_at) [
      | inl calm ↦
          let e : record lease { warned_at = some now } ≡ kept = ground (arith, calm) in
          rw (sym e) (ground arith, inr (now, refl, omega arith))
      | inr (t, warned) ↦
          let e : lease ≡ kept = ground (arith, warned) in
          rw (sym e) (ground arith, inr (t, warned, ground (arith, warned)))
    ]
  ]
]

ticked-IsTimely :
    (now : ℕ) (seats : List (Option SeatLease)) → All (IsTimely now) (ticked now seats)
unfolding ticked
ticked-IsTimely now [] = tt
ticked-IsTimely now (none ∷ seats) = (tt, ticked-IsTimely now seats)
ticked-IsTimely now (some lease ∷ seats) = elim (Option-cases (tick_lease now lease)) [
  | inl gone ↦ rw gone (tt, ticked-IsTimely now seats)
  | inr (kept, stays) ↦
      rw stays (tick_lease-IsTimely now lease kept stays, ticked-IsTimely now seats)
]

keep-IsOpen :
    (now : ℕ) (offers : List SeatOffer) → All (IsOpen now) (keep (λ o. ltb now o.expires_at) offers)
unfolding keep
keep-IsOpen now [] = tt
keep-IsOpen now (o ∷ offers) = elim (Bool-cases (ltb now o.expires_at)) [
  | inl stays ↦ rw stays (ground arith, keep-IsOpen now offers)
  | inr goes ↦ rw goes (keep-IsOpen now offers)
]

make_offers-IsOpen :
    (now : ℕ) (ids : List String) (indexes : List ℕ)
    → All (IsOpen now) (make_offers now ids indexes)
unfolding make_offers
make_offers-IsOpen now [] indexes = tt
make_offers-IsOpen now (id ∷ ids) [] = tt
make_offers-IsOpen now (id ∷ ids) (i ∷ indexes) = (omega arith, make_offers-IsOpen now ids indexes)

fill_offers-IsOpen :
    (s : HallState) (now : ℕ)
    → All (IsTimely now) s.seats
    → All (IsOpen now) s.offers
    → All (IsTimely now) (fill_offers s now).seats × All (IsOpen now) (fill_offers s now).offers
unfolding fill_offers
fill_offers-IsOpen s now a b =
    let free = empty_seats s.offers 0 s.seats in
    let n = min (length free) (length s.queue) in
    elim (Bool-cases ((length free == 0) || (length s.queue == 0))) [
      | inl nothing ↦ rw (nothing, fill_offers) (a, b)
      | inr some_left ↦
          rw (some_left, fill_offers)
            (
              a,
              All-append (IsOpen now) s.offers (make_offers now (take n s.queue) free) b
                  (make_offers-IsOpen now (take n s.queue) free),
            )
    ]

-- After a tick, in any state, every lease is within its five minutes, its holder spoke within two
-- minutes or was warned within thirty seconds, and no offer has expired.
pub tick_hall-IsTimely :
    (texts : Texts) (s : HallState) (now : ℕ)
    → All (IsTimely now) (tick_hall texts s now).seats
      × All (IsOpen now) (tick_hall texts s now).offers
unfolding tick_hall after
tick_hall-IsTimely texts s now =
    let timely : All (IsTimely now) (after texts s now).seats =
      rw (after-ticked texts s now) (ticked-IsTimely now s.seats) in
    fill_offers-IsOpen _ now timely (
      All-keep (IsOpen now) (λ o. is_empty_at o.seat_index (after texts s now).seats)
        (keep (λ o. ltb now o.expires_at) s.offers) (keep-IsOpen now s.offers))
