-- ===== src/Machine/Tick.antt =====
-- `tickHall` of src/client/hall-machine.ts. `x - y >= z` on times is written `y + z <= x`.
use Prim.Native.String.{◌++◌ as append}
use dsh_carbonclub.Base.{
  ℕ, ◌+◌, ◌/◌, Bool, not, String, Option, none, some, List, [], ◌∷◌, ◌++◌, map, keep, ltb, leb,
  if◌then◌else◌,
}
use dsh_carbonclub.Base.Dict.{Dict}
use dsh_carbonclub.Base.Dict
use dsh_carbonclub.Base.Keys.{mem}
use dsh_carbonclub.Ledger.Accept.{unique}
use dsh_carbonclub.Machine.Defs.{
  HallMember, SeatLease, SeatOffer, Translations, HallMessage, HallState, Texts, idle_ms,
  warning_ms, max_lease_ms, cooldown_ms, seat_member_ids, fill_offers, system_message,
}
use dsh_carbonclub.Machine.Calls.{is_empty_at}

-- A lease that is spoken for again: the warning is taken back.
abbrev pub unwarned : SeatLease → SeatLease
unwarned lease = record lease { warned_at = none }

abbrev pub is_hard_expired : ℕ → SeatLease → Bool
is_hard_expired now lease = leb (lease.seated_at + max_lease_ms) now

abbrev pub is_idle : ℕ → SeatLease → Bool
is_idle now lease = leb (lease.last_spoke_at + idle_ms) now

-- What a tick does to a lease: it stays, perhaps changed, or its seat is emptied.
unfoldable pub tick_lease : ℕ → SeatLease → Option SeatLease
tick_lease now lease =
    if is_hard_expired now lease
    then none
    else if not (is_idle now lease)
    then some (unwarned lease)
    else elim lease.warned_at [
      | none ↦ some (record lease { warned_at = some now })
      | some t ↦ if ltb now (t + warning_ms) then some lease else none
    ]

-- What the loop over the seats writes beside the seats.
pub record Ticked : Type 0 where
  pub seats : List (Option SeatLease)
  pub cooldown_until : Dict ℕ
  pub audience : List String
  pub messages : List HallMessage

abbrev pub is_expired : ℕ → SeatOffer → Bool
is_expired now offer = leb offer.expires_at now

module _ (texts : Texts) where
  abbrev pub left_seat : HallMember → Bool → Translations
  left_seat member hard =
      let minutes = texts.decimal (max_lease_ms / 60_000) in
      record {
        zh = append member.name (
            append " "
              (append (if hard then append "已满 " (append minutes " 分钟") else "暂时离开话筒") "，空出一席。"));
        en = append member.name (
            append " " (
              append
                (if hard
                  then append "reached the " (append minutes "-minute limit")
                  else "stepped away from the mic")
                "; one seat is now open."));
      }

  abbrev pub missed_seat : Option HallMember → Translations
  missed_seat none = record {
    zh = "候位者 未接席，顺延到队尾。";
    en = "The queued member missed the seat and moved to the back of the queue.";
  }
  missed_seat (some member) = record {
    zh = append member.name " 未接席，顺延到队尾。";
    en = append member.name " missed the seat and moved to the back of the queue.";
  }

  -- The loop over the seats, from what it has written so far.
  unfoldable pub tick_seats : Dict HallMember → ℕ → Ticked → List (Option SeatLease) → Ticked
  unfolding tick_lease system_message
  tick_seats members now done [] = done
  tick_seats members now done (none ∷ seats) =
      tick_seats members now (record done { seats = done.seats ++ none ∷ [] }) seats
  tick_seats members now done (some lease ∷ seats) =
      tick_seats members now
        (elim (tick_lease now lease) [
          | some kept ↦ record done { seats = done.seats ++ some kept ∷ [] }
          | none ↦ record {
            seats = done.seats ++ none ∷ [];
            cooldown_until = Dict.set lease.member_id (now + cooldown_ms) done.cooldown_until;
            audience = done.audience ++ lease.member_id ∷ [];
            messages = elim (Dict.get lease.member_id members) [
              | none ↦ done.messages
              | some member ↦
                  done.messages
                  ++ system_message texts done.messages
                      (left_seat member (is_hard_expired now lease)) now
                    ∷ []
            ];
          }
        ])
        seats

  -- The notices of the offers that expired, each written from the messages before all of them.
  unfoldable pub missed_notices :
      Dict HallMember → List HallMessage → ℕ → List SeatOffer → List HallMessage
  unfolding system_message
  missed_notices members messages now expired =
      map
        (λ offer.
          system_message texts messages (missed_seat (Dict.get offer.member_id members)) now)
        expired

  unfoldable pub tick_hall : HallState → ℕ → HallState
  unfolding tick_seats missed_notices fill_offers
  tick_hall s now =
      let expired = keep (is_expired now) s.offers in
      let done =
        tick_seats s.members now
          (record {
            seats = [];
            cooldown_until = s.cooldown_until;
            audience = s.audience;
            messages = s.messages;
          })
          s.seats in
      let still_seated = seat_member_ids done.seats in
      fill_offers
        (record s {
          now = now;
          seats = done.seats;
          queue =
              keep (λ id. not (mem id still_seated))
                (unique (s.queue ++ map (λ offer. offer.member_id) expired));
          offers =
              keep (λ offer. is_empty_at offer.seat_index done.seats)
                (keep (λ offer. ltb now offer.expires_at) s.offers);
          audience = keep (λ id. not (mem id still_seated)) (unique done.audience);
          cooldown_until = done.cooldown_until;
          messages = done.messages ++ missed_notices s.members done.messages now expired;
        })
        now
