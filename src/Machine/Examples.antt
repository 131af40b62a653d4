-- ===== src/Machine/Examples.antt =====
-- Runs of the machine, and the theorems at small states.
use dsh_carbonclub.Base.{◌≡◌, refl, true, String, none, some, [], ◌∷◌, keep, find, any, same, All}
use dsh_carbonclub.Base.Dict
use dsh_carbonclub.Base.Keys.{mem}
use dsh_carbonclub.Ledger.Accept.{unique}
use dsh_carbonclub.Machine.Defs.{
  HallMember, HallInput, Texts, SeatOffer, seat_member_ids, offer_at, create_hall_state,
}
use dsh_carbonclub.Machine.Calls.{is_open_offer, accept_offer, enter_queue}
use dsh_carbonclub.Machine.Tick.{tick_lease, tick_hall}
use dsh_carbonclub.Machine.Covered.{IsMachine}
use dsh_carbonclub.Machine.Timely.{IsTimely, IsOpen, tick_hall-IsTimely}
use dsh_carbonclub.Machine.Runs.{
  Reach, start, next, accept, tick, Reach-IsMachine, accept_offer-mem,
}

abbrev texts : Texts
texts = record { decimal = λ n. "0"; trim = λ t. t; text_length = λ t. 5 }

abbrev member : String → HallMember
member id = record {
  id = id;
  name = id;
  color = "#999";
  avatar_url = none;
  last_completed_session = none;
}

-- One member is seated, one waits.
abbrev input : HallInput
input = record {
  now = 1_000;
  members = member "m0" ∷ member "m8" ∷ [];
  seated = "m0" ∷ [];
  queue = "m8" ∷ [];
  audience = [];
  messages = [];
}

program : Unit {0}
unfolding same mem any find keep unique create_hall_state accept_offer enter_queue tick_hall
    tick_lease Dict.get Dict.set seat_member_ids
program = tt

abbrev first_offer : SeatOffer
first_offer = offer_at 1_000 "m8" 1

created_offers : (create_hall_state input).offers ≡ first_offer ∷ []
unfolding program
created_offers = refl

-- After two minutes and thirty seconds of silence the first member's seat is free again.
ticked_seats :
    seat_member_ids
      (tick_hall texts
        (tick_hall texts (accept_offer texts (create_hall_state input) "m8" 20_000) 121_000)
        151_000).seats
    ≡ "m8" ∷ []
unfolding program
ticked_seats = refl

abbrev reached :
    Reach texts (tick_hall texts (accept_offer texts (create_hall_state input) "m8" 20_000) 400_000)
reached = next (next (start input) (accept "m8" 20_000)) (tick 400_000)

Reach-IsMachine_example :
    IsMachine (tick_hall texts (accept_offer texts (create_hall_state input) "m8" 20_000) 400_000)
Reach-IsMachine_example = Reach-IsMachine texts reached

found_offer : find (is_open_offer "m8" 2_000) (create_hall_state input).offers ≡ some first_offer
unfolding program
found_offer = refl

accept_offer-mem_example :
    mem "m8" (seat_member_ids (accept_offer texts (create_hall_state input) "m8" 2_000).seats)
    ≡ true
accept_offer-mem_example =
    accept_offer-mem texts (create_hall_state input) "m8" 2_000 first_offer (start input)
      found_offer

tick_hall-IsTimely_example :
    All (IsTimely 121_000) (tick_hall texts (create_hall_state input) 121_000).seats
    × All (IsOpen 121_000) (tick_hall texts (create_hall_state input) 121_000).offers
tick_hall-IsTimely_example = tick_hall-IsTimely texts (create_hall_state input) 121_000
