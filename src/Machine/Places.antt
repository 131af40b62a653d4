-- ===== src/Machine/Places.antt =====
-- Where a member stands in the machine of src/client/hall-machine.ts, counted, and what the shared
-- steps of its calls do to the counts.
use dsh_carbonclub.Base.{
  ℕ, zero, suc, ◌+◌, ◌≤◌, ◌≡◌, refl, Bool, true, false, String, Option, none, some, List, [], ◌∷◌,
  ◌++◌, find, take, drop, length, ◌==◌, same, same_iff, arith, Bool-cases, inl, inr,
}
use dsh_carbonclub.Base.Keys.{mem}
use dsh_carbonclub.Base.Total.{total, one_if, total-append}
use dsh_carbonclub.Ledger.Accept.{unique_onto}
use dsh_carbonclub.Machine.Defs.{SeatLease, SeatOffer, HallState, seat_member_ids, make_offers}
use dsh_carbonclub.Machine.Calls.{is_offer_to, without_first, is_empty_at, set_seat}

abbrev pub is_id : String → String → Bool
is_id member id = same id member

-- How often a member's id is in a list of ids.
abbrev pub id_count : String → List String → ℕ
id_count member = total (one_if (is_id member))

abbrev pub offered : String → List SeatOffer → ℕ
offered member = total (one_if (is_offer_to member))

-- The places of a member: seats, places in the queue, offers.
abbrev pub places : String → HallState → ℕ
places member s =
    id_count member (seat_member_ids s.seats) + id_count member s.queue + offered member s.offers

pub mem-id_count :
    (member : String) (ids : List String) → mem member ids ≡ false → id_count member ids ≡ 0
unfolding mem total
mem-id_count member [] h = refl
mem-id_count member (id ∷ ids) h = ground (arith, mem-id_count member ids)

pub id_count-take-drop :
    (member : String) (n : ℕ) (ids : List String)
    → id_count member (take n ids) + id_count member (drop n ids) ≡ id_count member ids
unfolding total
id_count-take-drop member zero ids = omega arith
id_count-take-drop member (suc n) [] = omega arith
id_count-take-drop member (suc n) (id ∷ ids) = omega (arith, id_count-take-drop member n ids)

pub offered-make_offers :
    (member : String) (now : ℕ) (ids : List String) (indexes : List ℕ)
    → offered member (make_offers now ids indexes) ≤ id_count member ids
unfolding total make_offers
offered-make_offers member now [] indexes = omega arith
offered-make_offers member now (id ∷ ids) [] = omega arith
offered-make_offers member now (id ∷ ids) (index ∷ indexes) =
    omega (arith, offered-make_offers member now ids indexes)

module _ (p : SeatOffer → Bool) (w : SeatOffer → ℕ) where
  -- Taking the found offer out takes its weight out.
  pub total-without_first :
      (offers : List SeatOffer) (offer : SeatOffer)
      → find p offers ≡ some offer
      → total w (without_first p offers) + w offer ≡ total w offers
  unfolding total without_first find
  total-without_first [] offer h = absurd (cc)
  total-without_first (o ∷ offers) offer h = elim (Bool-cases (p o)) [
    | inl here ↦ rw here (ground arith)
    | inr later ↦ rw later (ground (arith, total-without_first offers offer))
  ]

pub find-passes :
    (p : SeatOffer → Bool) (offers : List SeatOffer) (offer : SeatOffer)
    → find p offers ≡ some offer
    → p offer ≡ true
unfolding find
find-passes p [] offer h = absurd (cc)
find-passes p (o ∷ offers) offer h = ground (arith, find-passes p offers offer)

pub id_count-set_seat :
    (member : String) (index : ℕ) (lease : SeatLease) (seats : List (Option SeatLease))
    → is_empty_at index seats ≡ true
    → id_count member (seat_member_ids (set_seat index lease seats))
      ≡ one_if (is_id member) lease.member_id + id_count member (seat_member_ids seats)
unfolding total seat_member_ids set_seat is_empty_at
id_count-set_seat member index lease [] h = absurd (cc)
id_count-set_seat member zero lease (none ∷ seats) h = refl
id_count-set_seat member zero lease (some l ∷ seats) h = absurd (cc)
id_count-set_seat member (suc index) lease (none ∷ seats) h =
    omega (arith, id_count-set_seat member index lease seats h)
id_count-set_seat member (suc index) lease (some l ∷ seats) h =
    omega (arith, id_count-set_seat member index lease seats h)

pub length-set_seat :
    (index : ℕ) (lease : SeatLease) (seats : List (Option SeatLease))
    → length (set_seat index lease seats) ≡ length seats
unfolding set_seat
length-set_seat index lease [] = refl
length-set_seat zero lease (seat ∷ seats) = refl
length-set_seat (suc index) lease (seat ∷ seats) = omega (arith, length-set_seat index lease seats)

-- Another seat stays as empty as it was.
pub is_empty_at-set_seat :
    (index other : ℕ) (lease : SeatLease) (seats : List (Option SeatLease))
    → (other == index) ≡ false
    → is_empty_at other (set_seat index lease seats) ≡ is_empty_at other seats
unfolding set_seat is_empty_at
is_empty_at-set_seat index other lease [] h = refl
is_empty_at-set_seat zero zero lease (seat ∷ seats) h = absurd (ground arith)
is_empty_at-set_seat zero (suc other) lease (seat ∷ seats) h = refl
is_empty_at-set_seat (suc index) zero lease (none ∷ seats) h = refl
is_empty_at-set_seat (suc index) zero lease (some l ∷ seats) h = refl
is_empty_at-set_seat (suc index) (suc other) lease (seat ∷ seats) h =
    is_empty_at-set_seat index other lease seats (ground arith)

pub id_count-unique_onto :
    (member : String) (done ids : List String)
    → (id_count member done ≤ 1 → id_count member (unique_onto done ids) ≤ 1)
      × (id_count member (unique_onto done ids) ≤ id_count member done + id_count member ids)
unfolding total unique_onto
id_count-unique_onto member done [] = (λ h. h, omega arith)
id_count-unique_onto member done (id ∷ ids) = elim (Bool-cases (mem id done)) [
  | inl old ↦ rw old (ground (arith, id_count-unique_onto member done ids))
  | inr new ↦ rw new (
      ground (
        arith,
        id_count-unique_onto member (done ++ id ∷ []) ids,
        total-append (one_if (is_id member)) done (id ∷ []),
        mem-id_count id done new,
        same_iff id member,
      ))
]
