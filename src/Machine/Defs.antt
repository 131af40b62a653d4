-- ===== src/Machine/Defs.antt =====
-- The state of src/client/hall-machine.ts, and what its calls share: `systemMessage`,
-- `seatMemberIds`, `fillOffers`, `createHallState`. A state is never mutated in the source either.
-- The decimal text of a number, `trim` and the length of a text are the parameter `texts`.
use Prim.Native.String.{◌++◌ as append}
use dsh_carbonclub.Base.{
  ℕ, zero, suc, ◌+◌, ◌*◌, min, Bool, true, false, not, ◌||◌, String, Option, none, some, List, [],
  ◌∷◌, ◌++◌, keep, any, take, drop, length, ◌==◌, if◌then◌else◌,
}
use dsh_carbonclub.Base.Dict.{Dict}
use dsh_carbonclub.Base.Dict
use dsh_carbonclub.Base.Keys.{mem}
use dsh_carbonclub.Ledger.Accept.{unique}

abbrev pub seat_count : ℕ
seat_count = 8

abbrev pub idle_ms : ℕ
idle_ms = 2 * 60_000

abbrev pub warning_ms : ℕ
warning_ms = 30_000

abbrev pub offer_ms : ℕ
offer_ms = 30_000

abbrev pub max_lease_ms : ℕ
max_lease_ms = 5 * 60_000

abbrev pub cooldown_ms : ℕ
cooldown_ms = 10 * 60_000

abbrev pub slow_mode_ms : ℕ
slow_mode_ms = 8_000

abbrev pub max_message_length : ℕ
max_message_length = 400

abbrev pub max_consecutive_messages : ℕ
max_consecutive_messages = 2

pub record HallMember : Type 0 where
  pub id : String
  pub name : String
  pub color : String
  pub avatar_url : Option String
  pub last_completed_session : Option String

pub record SeatLease : Type 0 where
  pub member_id : String
  pub seated_at : ℕ
  pub last_spoke_at : ℕ
  pub warned_at : Option ℕ

pub record SeatOffer : Type 0 where
  pub member_id : String
  pub seat_index : ℕ
  pub offered_at : ℕ
  pub expires_at : ℕ

pub data MessageKind : Type 0 where
  message system : MessageKind

pub record Translations : Type 0 where
  pub zh : String
  pub en : String

pub record HallMessage : Type 0 where
  pub id : String
  pub member_id : String
  pub body : String
  pub sent_at : ℕ
  pub kind : MessageKind
  pub translations : Option Translations

pub record HallState : Type 0 where
  pub now : ℕ
  pub members : Dict HallMember
  pub seats : List (Option SeatLease)
  pub queue : List String
  pub offers : List SeatOffer
  pub audience : List String
  pub cooldown_until : Dict ℕ
  pub messages : List HallMessage

pub record Texts : Type 0 where
  pub decimal : ℕ → String
  pub trim : String → String
  pub text_length : String → ℕ

abbrev pub is_message : HallMessage → Bool
is_message m = elim m.kind [ message ↦ true | system ↦ false ]

unfoldable pub public_hall_messages : List HallMessage → List HallMessage
public_hall_messages messages = keep is_message messages

-- `findLast`
unfoldable pub latest_hall_notice : List HallMessage → Option HallMessage
latest_hall_notice [] = none
latest_hall_notice (m ∷ messages) =
    let later = latest_hall_notice messages in
    elim later [ some n ↦ some n | none ↦ if is_message m then none else some m ]

-- The members in the seats.
unfoldable pub seat_member_ids : List (Option SeatLease) → List String
seat_member_ids [] = []
seat_member_ids (none ∷ seats) = seat_member_ids seats
seat_member_ids (some lease ∷ seats) = lease.member_id ∷ seat_member_ids seats

abbrev pub reserves : ℕ → SeatOffer → Bool
reserves index offer = offer.seat_index == index

-- The indexes of the empty seats that no offer reserves, from a first index on.
unfoldable pub empty_seats : List SeatOffer → ℕ → List (Option SeatLease) → List ℕ
empty_seats offers index [] = []
empty_seats offers index (some lease ∷ seats) = empty_seats offers (suc index) seats
empty_seats offers index (none ∷ seats) =
    let others = empty_seats offers (suc index) seats in
    if any (reserves index) offers then others else index ∷ others

abbrev pub offer_at : ℕ → String → ℕ → SeatOffer
offer_at now member_id index = record {
  member_id = member_id;
  seat_index = index;
  offered_at = now;
  expires_at = now + offer_ms;
}

-- `promoted.map((memberId, index) => ...)`, each with the empty seat of its index.
unfoldable pub make_offers : ℕ → List String → List ℕ → List SeatOffer
make_offers now [] indexes = []
make_offers now (member_id ∷ promoted) [] = []
make_offers now (member_id ∷ promoted) (index ∷ indexes) =
    offer_at now member_id index ∷ make_offers now promoted indexes

unfoldable pub fill_offers : HallState → ℕ → HallState
unfolding empty_seats make_offers
fill_offers s now =
    let indexes = empty_seats s.offers 0 s.seats in
    let taken = min (length indexes) (length s.queue) in
    if (length indexes == 0) || (length s.queue == 0) then s else record s {
      queue = drop taken s.queue;
      offers = s.offers ++ make_offers now (take taken s.queue) indexes;
    }

-- `Array.from({ length: seatCount }, ...)`
unfoldable pub first_seats : ℕ → ℕ → List String → List (Option SeatLease)
first_seats zero now seated = []
first_seats (suc n) now [] = none ∷ first_seats n now []
first_seats (suc n) now (member_id ∷ seated) =
    some (record { member_id = member_id; seated_at = now; last_spoke_at = now; warned_at = none })
    ∷ first_seats n now seated

unfoldable pub member_map : Dict HallMember → List HallMember → Dict HallMember
member_map members [] = members
member_map members (m ∷ rest) = member_map (Dict.set m.id m members) rest

-- The arguments of `createHallState`; a list that is left out is empty.
pub record HallInput : Type 0 where
  pub now : ℕ
  pub members : List HallMember
  pub seated : List String
  pub queue : List String
  pub audience : List String
  pub messages : List HallMessage

unfoldable pub create_hall_state : HallInput → HallState
unfolding first_seats member_map fill_offers
create_hall_state input =
    let seated = take seat_count (unique input.seated) in
    fill_offers
      (record {
        now = input.now;
        members = member_map [] input.members;
        seats = first_seats seat_count input.now seated;
        queue = keep (λ id. not (mem id seated)) (unique input.queue);
        offers = [];
        audience = keep (λ id. not (mem id seated)) (unique (input.audience ++ input.queue));
        cooldown_until = [];
        messages = input.messages;
      })
      input.now

module _ (texts : Texts) where
  -- A system message's id holds the time and the number of messages before it.
  unfoldable pub system_message : List HallMessage → Translations → ℕ → HallMessage
  system_message messages translations at = record {
    id =
        append "system-" (append (texts.decimal at) (append "-" (texts.decimal (length messages))));
    member_id = "system";
    body = translations.zh;
    sent_at = at;
    kind = system;
    translations = some translations;
  }
