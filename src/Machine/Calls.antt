-- ===== src/Machine/Calls.antt =====
-- The calls of src/client/hall-machine.ts: `enterQueue`, `leaveQueue`, `acceptOffer`,
-- `declineOffer`, `postMessage`. `x - y < z` on times is written `x < y + z`.
use Prim.Native.String.{◌++◌ as append}
use mathlib.Core.Option.{get_or}
use dsh_carbonclub.Base.{
  ℕ, zero, suc, ◌+◌, Bool, true, false, not, ◌&&◌, ◌||◌, String, Option, none, some, List, [], ◌∷◌,
  ◌++◌, keep, find, any, every, last, length, ltb, ◌==◌, same, if◌then◌else◌,
}
use dsh_carbonclub.Base.Dict.{Dict}
use dsh_carbonclub.Base.Dict
use dsh_carbonclub.Base.Keys.{mem}
use dsh_carbonclub.Ledger.Accept.{unique}
use dsh_carbonclub.Machine.Defs.{
  HallMember, SeatLease, SeatOffer, Translations, HallMessage, message, HallState, Texts,
  slow_mode_ms, max_message_length, max_consecutive_messages, is_message, seat_member_ids,
  fill_offers, system_message,
}

pub data PostError : Type 0 where
  not_seated empty too_long slow_mode consecutive_limit : PostError

abbrev pub is_offer_to : String → SeatOffer → Bool
is_offer_to member_id offer = same offer.member_id member_id

abbrev pub is_waiting : HallState → String → Bool
is_waiting s member_id = mem member_id s.queue || any (is_offer_to member_id) s.offers

unfoldable pub enter_queue : HallState → String → ℕ → HallState
unfolding fill_offers
enter_queue s member_id now =
    if mem member_id (seat_member_ids s.seats)
    then s
    else if is_waiting s member_id
    then s
    else if ltb now (get_or (Dict.get member_id s.cooldown_until) 0)
    then s
    else fill_offers
        (record s {
          now = now;
          queue = s.queue ++ member_id ∷ [];
          audience = unique (s.audience ++ member_id ∷ []);
        })
        now

unfoldable pub leave_queue : HallState → String → ℕ → HallState
unfolding fill_offers
leave_queue s member_id now =
    let next = record s {
      now = now;
      queue = keep (λ id. not (same id member_id)) s.queue;
      offers = keep (λ offer. not (is_offer_to member_id offer)) s.offers;
    } in
    if any (is_offer_to member_id) s.offers then fill_offers next now else next

-- `filter(candidate => candidate !== offer)` for the first offer that a test finds.
unfoldable pub without_first : (SeatOffer → Bool) → List SeatOffer → List SeatOffer
without_first p [] = []
without_first p (offer ∷ offers) =
    let others = without_first p offers in if p offer then offers else offer ∷ others

-- `seats[index] === null`; beyond the end it is `undefined`.
unfoldable pub is_empty_at : ℕ → List (Option SeatLease) → Bool
is_empty_at index [] = false
is_empty_at zero (none ∷ seats) = true
is_empty_at zero (some lease ∷ seats) = false
is_empty_at (suc index) (seat ∷ seats) = is_empty_at index seats

-- `seats[index] = lease`, for an index that is there.
unfoldable pub set_seat : ℕ → SeatLease → List (Option SeatLease) → List (Option SeatLease)
set_seat index lease [] = []
set_seat zero lease (seat ∷ seats) = some lease ∷ seats
set_seat (suc index) lease (seat ∷ seats) = seat ∷ set_seat index lease seats

abbrev pub is_open_offer : String → ℕ → SeatOffer → Bool
is_open_offer member_id now offer = is_offer_to member_id offer && ltb now offer.expires_at

unfoldable pub decline_offer : HallState → String → ℕ → HallState
unfolding fill_offers without_first
decline_offer s member_id now = elim (find (is_offer_to member_id) s.offers) [
  | none ↦ s
  | some offer ↦
      fill_offers
        (record s {
          now = now;
          offers = without_first (is_offer_to member_id) s.offers;
          queue = s.queue ++ member_id ∷ [];
        })
        now
]

-- `lease.warnedAt` is left out of the copy.
unfoldable pub speak : String → ℕ → List (Option SeatLease) → List (Option SeatLease)
speak member_id now [] = []
speak member_id now (none ∷ seats) = none ∷ speak member_id now seats
speak member_id now (some lease ∷ seats) =
    if same lease.member_id member_id
    then some (record lease { last_spoke_at = now; warned_at = none }) ∷ seats
    else some lease ∷ speak member_id now seats

abbrev pub is_by_member : String → HallMessage → Bool
is_by_member member_id m = is_message m && same m.member_id member_id

-- `now - previous.sentAt < slowModeMs`, for the member's last message.
abbrev pub is_in_slow_mode : List HallMessage → ℕ → Bool
is_in_slow_mode [] now = false
is_in_slow_mode (m ∷ own) now = ltb now (m.sent_at + slow_mode_ms)

module _ (texts : Texts) where
  abbrev pub took_seat : HallMember → ℕ → Translations
  took_seat member index = record {
    zh = append member.name (append " 接过了第 " (append (texts.decimal (index + 1)) " 席。"));
    en = append member.name (append " took seat " (append (texts.decimal (index + 1)) "."));
  }

  abbrev pub seat_notice : HallState → SeatOffer → String → ℕ → List HallMessage
  seat_notice s offer member_id now = elim (Dict.get member_id s.members) [
    | none ↦ s.messages
    | some member ↦
        s.messages ++ system_message texts s.messages (took_seat member offer.seat_index) now ∷ []
  ]

  unfoldable pub accept_offer : HallState → String → ℕ → HallState
  unfolding fill_offers without_first is_empty_at set_seat system_message
  accept_offer s member_id now = elim (find (is_open_offer member_id now) s.offers) [
    | none ↦ s
    | some offer ↦
        if not (is_empty_at offer.seat_index s.seats)
        then s
        else fill_offers
            (record s {
              now = now;
              seats =
                  set_seat offer.seat_index
                    (record {
                      member_id = member_id;
                      seated_at = now;
                      last_spoke_at = now;
                      warned_at = none;
                    })
                    s.seats;
              offers = without_first (is_open_offer member_id now) s.offers;
              audience = keep (λ id. not (same id member_id)) s.audience;
              messages = seat_notice s offer member_id now;
            })
            now
  ]

  unfoldable pub post_error : HallState → String → String → ℕ → Option PostError
  post_error s member_id body now =
      let recent = last max_consecutive_messages (keep is_message s.messages) in
      if not (mem member_id (seat_member_ids s.seats))
      then some not_seated
      else if texts.text_length body == 0
      then some empty
      else if ltb max_message_length (texts.text_length body)
      then some too_long
      else if is_in_slow_mode (last 1 (keep (is_by_member member_id) s.messages)) now
      then some slow_mode
      else if (length recent == max_consecutive_messages)
          && every (λ m. same m.member_id member_id) recent
      then some consecutive_limit
      else none

  unfoldable pub post_message : HallState → String → String → ℕ → HallState × Option PostError
  unfolding post_error speak
  post_message s member_id raw_body now =
      let body = texts.trim raw_body in
      elim (post_error s member_id body now) [
        | some error ↦ (s, some error)
        | none ↦ (
          record s {
            now = now;
            seats = speak member_id now s.seats;
            messages =
                s.messages
                ++ record {
                  id = append "message-" (append member_id (append "-" (texts.decimal now)));
                  member_id = member_id;
                  body = body;
                  sent_at = now;
                  kind = message;
                  translations = none;
                }
                  ∷ [];
          },
          none,
        )
      ]
