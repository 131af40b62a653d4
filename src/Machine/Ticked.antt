-- ===== src/Machine/Ticked.antt =====
-- `tickHall` of src/client/hall-machine.ts: what it leaves of leases and offers.
use dsh_carbonclub.Base.{
  ℕ, ◌+◌, ◌≤◌, ◌≡◌, refl, sym, ap, ◌∙◌, Bool, true, not, String, Option, none, some, List, [], ◌∷◌,
  ◌++◌, map, keep, length, ltb, leb, arith, Bool-cases, Option-cases, inl, inr, All,
}
use mathlib.Core.List.{append-nil}
use dsh_carbonclub.Base.Dict.{Dict}
use dsh_carbonclub.Base.Keys.{mem}
use dsh_carbonclub.Base.Total.{total, one_if, total-append, total-keep-le}
use dsh_carbonclub.Ledger.Accept.{unique}
use dsh_carbonclub.Machine.Defs.{
  HallMember, SeatLease, SeatOffer, HallState, Texts, seat_member_ids, reserves,
}
use dsh_carbonclub.Machine.Calls.{is_offer_to, is_empty_at}
use dsh_carbonclub.Machine.Tick.{tick_lease, Ticked, tick_seats, is_expired, tick_hall}
use dsh_carbonclub.Machine.Places.{is_id, id_count, offered, id_count-unique_onto}
use dsh_carbonclub.Machine.Covered.{IsSound, IsMachine}
use dsh_carbonclub.Machine.Fill.{fill_offers-IsMachine}

-- A seat after a tick.
abbrev pub tick_seat : ℕ → Option SeatLease → Option SeatLease
tick_seat now none = none
tick_seat now (some lease) = tick_lease now lease

unfoldable pub ticked : ℕ → List (Option SeatLease) → List (Option SeatLease)
ticked now [] = []
ticked now (seat ∷ seats) = tick_seat now seat ∷ ticked now seats

snoc_append :
    (xs : List (Option SeatLease)) (x : Option SeatLease) (ys : List (Option SeatLease))
    → (xs ++ x ∷ []) ++ ys ≡ xs ++ x ∷ ys
snoc_append [] x ys = refl
snoc_append (y ∷ xs) x ys = cc (snoc_append xs x ys)

-- The loop over the seats ticks each seat by itself.
pub tick_seats-ticked :
    (texts : Texts) (members : Dict HallMember) (now : ℕ) (done : Ticked)
    (seats : List (Option SeatLease))
    → (tick_seats texts members now done seats).seats ≡ done.seats ++ ticked now seats
unfolding tick_seats ticked
tick_seats-ticked texts members now done [] = sym (append-nil done.seats)
tick_seats-ticked texts members now done (none ∷ seats) =
    tick_seats-ticked texts members now (record done { seats = done.seats ++ none ∷ [] }) seats
    ∙ snoc_append done.seats none (ticked now seats)
tick_seats-ticked texts members now done (some lease ∷ seats) =
    elim (Option-cases (tick_lease now lease)) [
      | inl gone ↦
          rw (gone, tick_seats)
            (tick_seats-ticked texts members now _ seats
              ∙ snoc_append done.seats none (ticked now seats))
      | inr (kept, stays) ↦
          rw (stays, tick_seats)
            (tick_seats-ticked texts members now _ seats
              ∙ snoc_append done.seats (some kept) (ticked now seats))
    ]

tick_lease-member :
    (now : ℕ) (lease kept : SeatLease)
    → tick_lease now lease ≡ some kept
    → kept.member_id ≡ lease.member_id
unfolding tick_lease
tick_lease-member now lease kept h = ground arith

id_count-ticked :
    (now : ℕ) (member : String) (seats : List (Option SeatLease))
    → id_count member (seat_member_ids (ticked now seats)) ≤ id_count member (seat_member_ids seats)
unfolding ticked seat_member_ids total
id_count-ticked now member [] = omega arith
id_count-ticked now member (none ∷ seats) = id_count-ticked now member seats
id_count-ticked now member (some lease ∷ seats) = elim (Option-cases (tick_lease now lease)) [
  | inl gone ↦ rw (gone, ticked) (omega (arith, id_count-ticked now member seats))
  | inr (kept, stays) ↦
      let same_id = tick_lease-member now lease kept stays in
      rw (stays, ticked)
        (omega (arith, id_count-ticked now member seats, ap (one_if (is_id member)) same_id))
]

length-ticked :
    (now : ℕ) (seats : List (Option SeatLease)) → length (ticked now seats) ≡ length seats
unfolding ticked
length-ticked now [] = refl
length-ticked now (seat ∷ seats) = omega (arith, length-ticked now seats)

All-keep_self :
    (P : SeatOffer → Bool) (offers : List SeatOffer) → All (λ o. P o ≡ true) (keep P offers)
unfolding keep
All-keep_self P [] = tt
All-keep_self P (o ∷ offers) = elim (Bool-cases (P o)) [
  | inl stays ↦ rw (stays, keep) (stays, All-keep_self P offers)
  | inr goes ↦ rw (goes, keep) (All-keep_self P offers)
]

-- An offer expires or stays.
offered-split :
    (now : ℕ) (member : String) (offers : List SeatOffer)
    → id_count member (map (λ o. o.member_id) (keep (is_expired now) offers))
        + offered member (keep (λ o. ltb now o.expires_at) offers)
      ≡ offered member offers
unfolding keep total
offered-split now member [] = refl
offered-split now member (o ∷ offers) = elim (Bool-cases (leb o.expires_at now)) [
  | inl gone ↦ rw gone (ground (arith, offered-split now member offers))
  | inr stays ↦ rw stays (ground (arith, offered-split now member offers))
]

id_count-unique :
    (member : String) (ids : List String) → id_count member (unique ids) ≤ id_count member ids
unfolding unique total
id_count-unique member ids = omega (arith, (id_count-unique_onto member [] ids).1)

module _ (texts : Texts) (s : HallState) (now : ℕ) where
  unfoldable pub after : Ticked
  after =
      tick_seats texts s.members now
        (record {
          seats = [];
          cooldown_until = s.cooldown_until;
          audience = s.audience;
          messages = s.messages;
        })
        s.seats

  pub after-ticked : after.seats ≡ ticked now s.seats
  unfolding after
  after-ticked = tick_seats-ticked texts s.members now _ s.seats

  after-IsSound :
      (t : HallState)
      → IsMachine s
      → t.seats ≡ after.seats
      → t.queue
        ≡ keep
            (λ id. not (mem id (seat_member_ids after.seats)))
            (unique (s.queue ++ map (λ offer. offer.member_id) (keep (is_expired now) s.offers)))
      → t.offers
        ≡ keep
            (λ offer. is_empty_at offer.seat_index after.seats)
            (keep (λ offer. ltb now offer.expires_at) s.offers)
      → IsSound t
  after-IsSound t v seats queue offers =
      let expired = map (λ offer. offer.member_id) (keep (is_expired now) s.offers) in
      let open_still = keep (λ (o : SeatOffer). ltb now o.expires_at) s.offers in
      record {
        seated = rw (seats, after-ticked, length-ticked now s.seats) v.sound.seated;
        empty =
            rw (seats, offers)
              (All-keep_self (λ o. is_empty_at o.seat_index after.seats) open_still);
        single = λ index. rw offers (
            omega (
              arith,
              v.sound.single index,
              total-keep-le (one_if (reserves index))
                  (λ (o : SeatOffer). is_empty_at o.seat_index after.seats) open_still,
              total-keep-le (one_if (reserves index)) (λ (o : SeatOffer). ltb now o.expires_at)
                  s.offers,
            ));
        once = λ m.
            let sits : id_count m (seat_member_ids t.seats) ≤ id_count m (seat_member_ids s.seats) =
              rw (seats, after-ticked) (id_count-ticked now m s.seats) in
            let waits : id_count m t.queue ≤ id_count m s.queue + id_count m expired = rw queue (
              omega (
                arith,
                total-keep-le (one_if (is_id m))
                    (λ (id : String). not (mem id (seat_member_ids after.seats)))
                    (unique (s.queue ++ expired)),
                id_count-unique m (s.queue ++ expired),
                total-append (one_if (is_id m)) s.queue expired,
              )) in
            let offered_still : offered m t.offers ≤ offered m open_still = rw offers (
              total-keep-le (one_if (is_offer_to m))
                (λ (o : SeatOffer). is_empty_at o.seat_index after.seats) open_still) in
            omega (arith, v.sound.once m, offered-split now m s.offers, sits, waits, offered_still);
      }

  pub tick_hall-IsMachine : IsMachine s → IsMachine (tick_hall texts s now)
  unfolding tick_hall after
  tick_hall-IsMachine v = fill_offers-IsMachine _ now (after-IsSound _ v refl refl refl)
