-- ===== src/Machine/Fill.antt =====
-- `fillOffers` of src/client/hall-machine.ts: whom it offers which seats.
use dsh_carbonclub.Base.{
  leb, ℕ, zero, suc, ◌≤◌, ◌≡◌, refl, min, ◌||◌, String, List, [], ◌∷◌, ◌++◌, any, take, drop,
  length, ◌==◌, arith, Bool-cases, inl, inr, All,
}
use dsh_carbonclub.Base.Total.{total, one_if, total-append, any-false-total}
use dsh_carbonclub.Machine.Defs.{
  SeatOffer, HallState, reserves, empty_seats, make_offers, fill_offers,
}
use dsh_carbonclub.Machine.Calls.{is_offer_to}
use dsh_carbonclub.Machine.Places.{places, id_count-take-drop, offered-make_offers}
use dsh_carbonclub.Machine.Covered.{
  reserved, IsOfEmpty, IsSound, IsFilled, IsMachine, equals, empty_seats-covered,
  reserved-make_offers, make_offers-AreEmpty, make_offers-covers, empty_seats-once,
  empty_seats-free, empty_seats-AreEmpty,
}

nil_of_length : {A : Type 0} (xs : List A) → length xs ≡ 0 → xs ≡ []
nil_of_length [] h = refl
nil_of_length (x ∷ xs) h = absurd (omega arith)

drop-beyond : {A : Type 0} (n : ℕ) (xs : List A) → length xs ≤ n → drop n xs ≡ []
drop-beyond zero xs h = nil_of_length xs (omega arith)
drop-beyond (suc n) [] h = refl
drop-beyond (suc n) (x ∷ xs) h = drop-beyond n xs (omega arith)

length-take : {A : Type 0} (n : ℕ) (xs : List A) → n ≤ length xs → length (take n xs) ≡ n
length-take zero xs h = refl
length-take (suc n) [] h = absurd (omega arith)
length-take (suc n) (x ∷ xs) h = omega (arith, length-take n xs)

pub All-append :
    (P : SeatOffer → Type 0) (xs ys : List SeatOffer) → All P xs → All P ys → All P (xs ++ ys)
All-append P [] ys hx hy = hy
All-append P (x ∷ xs) ys hx hy = (hx.0, All-append P xs ys hx.1 hy)

module _ (s : HallState) (now : ℕ) (v : IsSound s) where
  abbrev indexes : List ℕ
  indexes = empty_seats s.offers 0 s.seats

  -- The state that `fillOffers` returns, for a number of promoted members.
  abbrev filled : ℕ → HallState
  filled n = record s {
    queue = drop n s.queue;
    offers = s.offers ++ make_offers now (take n s.queue) indexes;
  }

  filled-single : (n index : ℕ) → reserved index (filled n).offers ≤ 1
  filled-single n index =
      let made = make_offers now (take n s.queue) indexes in
      rw (total-append (one_if (reserves index)) s.offers made)
        (elim (Bool-cases (any (reserves index) s.offers)) [
          | inl taken ↦ omega (
            arith,
            v.single index,
            reserved-make_offers index now (take n s.queue) indexes,
            empty_seats-free s.offers 0 index s.seats taken,
          )
          | inr free ↦ omega (
            arith,
            any-false-total (reserves index) s.offers free,
            reserved-make_offers index now (take n s.queue) indexes,
            once_listed index,
          )
        ])
    where
      once_listed : (index : ℕ) → total (one_if (equals index)) indexes ≤ 1
      once_listed index = ground (arith, empty_seats-once s.offers 0 index s.seats)

  filled-once : (n : ℕ) (member : String) → places member (filled n) ≤ 1
  filled-once n member =
      let made = make_offers now (take n s.queue) indexes in
      rw (total-append (one_if (is_offer_to member)) s.offers made) (
        omega (
          arith,
          v.once member,
          id_count-take-drop member n s.queue,
          offered-make_offers member now (take n s.queue) indexes,
        ))

  filled-IsSound : (n : ℕ) → IsSound (filled n)
  filled-IsSound n =
      let made = make_offers now (take n s.queue) indexes in
      record {
        seated = v.seated;
        empty = All-append (IsOfEmpty s.seats) s.offers made v.empty (
            make_offers-AreEmpty now (take n s.queue) indexes s.seats
              (empty_seats-AreEmpty s.offers 0 s.seats));
        single = filled-single n;
        once = filled-once n;
      }

  filled-IsFilled : (n : ℕ) → n ≡ min (length indexes) (length s.queue) → IsFilled (filled n)
  filled-IsFilled n e = elim (Bool-cases (leb (length s.queue) n)) [
    | inl all ↦ inl (drop-beyond n s.queue (ground arith))
    | inr some_left ↦ inr (
        empty_seats-covered s.offers (make_offers now (take n s.queue) indexes) 0 s.seats
          (make_offers-covers now (take n s.queue) indexes (ground (arith, length-take n s.queue))))
  ]

-- Filling a sound machine leaves nobody waiting beside a seat that is free.
pub fill_offers-IsMachine : (s : HallState) (now : ℕ) → IsSound s → IsMachine (fill_offers s now)
unfolding fill_offers
fill_offers-IsMachine s now v =
    let free = empty_seats s.offers 0 s.seats in
    let n = min (length free) (length s.queue) in
    elim (Bool-cases ((length free == 0) || (length s.queue == 0))) [
      | inl nothing ↦
          rw (nothing, fill_offers)
            (record {
              sound = v;
              filled = elim (Bool-cases (length free == 0)) [
                | inl none_free ↦ inr (nil_of_length free (ground arith))
                | inr some_free ↦ inl (nil_of_length s.queue (ground arith))
              ];
            })
      | inr some_left ↦
          rw (some_left, fill_offers)
            (record { sound = filled-IsSound s now v n; filled = filled-IsFilled s now v n refl })
    ]
