-- ===== src/Machine/Covered.antt =====
-- The invariant of src/client/hall-machine.ts, and which seats the offers of `fillOffers` reserve.
use dsh_carbonclub.Base.{
  leb, ℕ, suc, ◌-◌, ◌≤◌, ◌≡◌, refl, Bool, true, false, ◌||◌, String, Option, none, some, List, [],
  ◌∷◌, ◌++◌, any, length, ◌==◌, if◌then◌else◌, arith, Bool-cases, inl, inr, ◌⊎◌, All,
}
use dsh_carbonclub.Base.Total.{total, one_if}
use dsh_carbonclub.Machine.Defs.{
  SeatLease, SeatOffer, HallState, seat_count, reserves, empty_seats, make_offers, offer_at,
}
use dsh_carbonclub.Machine.Calls.{is_empty_at}
use dsh_carbonclub.Machine.Places.{places}

-- How many offers reserve a seat.
abbrev pub reserved : ℕ → List SeatOffer → ℕ
reserved index = total (one_if (reserves index))

abbrev pub IsOfEmpty : List (Option SeatLease) → SeatOffer → Type 0
IsOfEmpty seats offer = is_empty_at offer.seat_index seats ≡ true

-- Eight seats, each offer of an empty one and no two of one, and no member in two places.
pub record IsSound (s : HallState) : Type 0 where
  pub seated : length s.seats ≡ seat_count
  pub empty : All (IsOfEmpty s.seats) s.offers
  pub single : (index : ℕ) → reserved index s.offers ≤ 1
  pub once : (member : String) → places member s ≤ 1

-- Nobody waits while a seat is empty and offered to nobody.
abbrev pub IsFilled : HallState → Type 0
IsFilled s = (s.queue ≡ []) ⊎ (empty_seats s.offers 0 s.seats ≡ [])

pub record IsMachine (s : HallState) : Type 0 where
  pub sound : IsSound s
  pub filled : IsFilled s

abbrev pub equals : ℕ → ℕ → Bool
equals index i = i == index

any-append :
    (p : SeatOffer → Bool) (xs ys : List SeatOffer) → any p (xs ++ ys) ≡ (any p xs || any p ys)
unfolding any
any-append p [] ys = refl
any-append p (x ∷ xs) ys = ground (arith, any-append p xs ys)

-- A seat of the rest is a seat further on.
shift :
    (k : ℕ) (seat : Option SeatLease) (seats : List (Option SeatLease)) (indexes : List ℕ)
    → All (λ i. (suc k ≤ i) × (is_empty_at (i - suc k) seats ≡ true)) indexes
    → All (λ i. (k ≤ i) × (is_empty_at (i - k) (seat ∷ seats) ≡ true)) indexes
unfolding is_empty_at
shift k seat seats [] h = tt
shift k seat seats (i ∷ indexes) h =
    let further : i - k ≡ suc (i - suc k) = omega (arith, h.0) in
    ((omega (arith, h.0), rw further (h.0.1)), shift k seat seats indexes h.1)

module _ (offers : List SeatOffer) where
  pub empty_seats-once :
      (k index : ℕ) (seats : List (Option SeatLease))
      → total (one_if (equals index)) (empty_seats offers k seats) ≤ (if leb k index then 1 else 0)
  unfolding total empty_seats
  empty_seats-once k index [] = omega arith
  empty_seats-once k index (some lease ∷ seats) =
      ground (arith, empty_seats-once (suc k) index seats)
  empty_seats-once k index (none ∷ seats) = elim (Bool-cases (any (reserves k) offers)) [
    | inl taken ↦ rw taken (ground (arith, empty_seats-once (suc k) index seats))
    | inr free ↦ rw free (ground (arith, empty_seats-once (suc k) index seats))
  ]

  other_seat :
      (k index : ℕ)
      → any (reserves k) offers ≡ false
      → any (reserves index) offers ≡ true
      → (k == index) ≡ false
  other_seat k index free taken = elim (Bool-cases (k == index)) [
    | inr other ↦ other
    | inl equal ↦
        let e : k ≡ index = ground arith in
        let free' : any (reserves index) offers ≡ false = rw e at free in cc
  ]

  -- An empty seat that is listed is not reserved.
  pub empty_seats-free :
      (k index : ℕ) (seats : List (Option SeatLease))
      → any (reserves index) offers ≡ true
      → total (one_if (equals index)) (empty_seats offers k seats) ≡ 0
  unfolding total empty_seats
  empty_seats-free k index [] h = refl
  empty_seats-free k index (some lease ∷ seats) h = empty_seats-free (suc k) index seats h
  empty_seats-free k index (none ∷ seats) h = elim (Bool-cases (any (reserves k) offers)) [
    | inl taken ↦ rw taken (empty_seats-free (suc k) index seats h)
    | inr free ↦
        rw free (ground (arith, empty_seats-free (suc k) index seats h, other_seat k index free h))
  ]

  pub empty_seats-AreEmpty :
      (k : ℕ) (seats : List (Option SeatLease))
      → All (λ i. (k ≤ i) × (is_empty_at (i - k) seats ≡ true)) (empty_seats offers k seats)
  unfolding empty_seats is_empty_at
  empty_seats-AreEmpty k [] = tt
  empty_seats-AreEmpty k (some lease ∷ seats) =
      shift k (some lease) seats (empty_seats offers (suc k) seats)
        (empty_seats-AreEmpty (suc k) seats)
  empty_seats-AreEmpty k (none ∷ seats) =
      let others =
        shift k none seats (empty_seats offers (suc k) seats)
          (empty_seats-AreEmpty (suc k) seats) in
      let none_left : k - k ≡ 0 = omega arith in
      let here : is_empty_at (k - k) (none ∷ seats) ≡ true = rw none_left refl in
      elim (Bool-cases (any (reserves k) offers)) [
        | inl taken ↦ rw taken others
        | inr free ↦ rw free ((omega arith, here), others)
      ]

-- Reserved by the offers that were made for them, all listed seats are listed no more.
pub empty_seats-covered :
    (offers made : List SeatOffer) (k : ℕ) (seats : List (Option SeatLease))
    → All (λ i. any (reserves i) made ≡ true) (empty_seats offers k seats)
    → empty_seats (offers ++ made) k seats ≡ []
unfolding empty_seats
empty_seats-covered offers made k [] h = refl
empty_seats-covered offers made k (some lease ∷ seats) h =
    empty_seats-covered offers made (suc k) seats h
empty_seats-covered offers made k (none ∷ seats) h = elim (Bool-cases (any (reserves k) offers)) [
  | inl taken ↦
      rw (any-append (reserves k) offers made, taken)
        (empty_seats-covered offers made (suc k) seats (rw taken at h))
  | inr free ↦
      let g = rw free at h in
      rw (any-append (reserves k) offers made, free, g.0)
        (empty_seats-covered offers made (suc k) seats g.1)
]

pub reserved-make_offers :
    (index now : ℕ) (ids : List String) (indexes : List ℕ)
    → reserved index (make_offers now ids indexes) ≤ total (one_if (equals index)) indexes
unfolding total make_offers
reserved-make_offers index now [] indexes = omega arith
reserved-make_offers index now (id ∷ ids) [] = omega arith
reserved-make_offers index now (id ∷ ids) (i ∷ indexes) =
    ground (arith, reserved-make_offers index now ids indexes)

pub make_offers-AreEmpty :
    (now : ℕ) (ids : List String) (indexes : List ℕ) (seats : List (Option SeatLease))
    → All (λ i. (0 ≤ i) × (is_empty_at (i - 0) seats ≡ true)) indexes
    → All (IsOfEmpty seats) (make_offers now ids indexes)
unfolding make_offers
make_offers-AreEmpty now [] indexes seats h = tt
make_offers-AreEmpty now (id ∷ ids) [] seats h = tt
make_offers-AreEmpty now (id ∷ ids) (i ∷ indexes) seats h =
    (ground (arith, h.0), make_offers-AreEmpty now ids indexes seats h.1)

covers-weaken :
    (offer : SeatOffer) (made : List SeatOffer) (indexes : List ℕ)
    → All (λ i. any (reserves i) made ≡ true) indexes
    → All (λ i. any (reserves i) (offer ∷ made) ≡ true) indexes
unfolding any
covers-weaken offer made [] h = tt
covers-weaken offer made (i ∷ indexes) h = (ground arith, covers-weaken offer made indexes h.1)

pub make_offers-covers :
    (now : ℕ) (ids : List String) (indexes : List ℕ)
    → length indexes ≤ length ids
    → All (λ i. any (reserves i) (make_offers now ids indexes) ≡ true) indexes
unfolding any make_offers
make_offers-covers now ids [] h = tt
make_offers-covers now [] (i ∷ indexes) h = absurd (omega arith)
make_offers-covers now (id ∷ ids) (i ∷ indexes) h = (
  ground arith,
  covers-weaken (offer_at now id i) (make_offers now ids indexes) indexes
      (make_offers-covers now ids indexes (omega arith)),
)
