-- ===== src/Hall/Defs.antt =====
-- The derived hall of src/network/room-events.ts, and what it does with time: `fillSeats`,
-- `removeParticipant`, `nextExpiry`, `advance`. The source mutates the state; a function here
-- returns the new one. `x - y < z` on times is written `x < y + z`.
use dsh_carbonclub.Base.{
  ℕ, zero, suc, ◌+◌, min, Bool, true, false, not, ◌&&◌, ◌||◌, String, Option, none, some, List, [],
  ◌∷◌, keep, any, length, replicate, ltb, same, if◌then◌else◌,
}
use dsh_carbonclub.Base.Dict.{Dict}
use dsh_carbonclub.Base.Dict
use dsh_carbonclub.Rules
use dsh_carbonclub.Types.{RoomProfile, RoomMessage}

pub record Participant : Type 0 where
  pub peer_id : String
  pub profile : RoomProfile
  pub joined_at : ℕ
  pub last_presence_at : ℕ

pub record Seat : Type 0 where
  pub participant : Participant
  pub seated_at : ℕ
  pub last_spoke_at : Option ℕ

pub record Hall : Type 0 where
  pub seats : List (Option Seat)
  pub queue : List Participant
  pub cooldown_until : Dict ℕ
  pub messages : List RoomMessage
  pub profiles : Dict RoomProfile
  pub avatars : Dict String
  pub updated_at : ℕ

abbrev pub empty_hall : Hall
empty_hall = record {
  seats = replicate Rules.seat_count none;
  queue = [];
  cooldown_until = [];
  messages = [];
  profiles = [];
  avatars = [];
  updated_at = 0;
}

-- Whether a seat is held by a peer.
abbrev pub holds : String → Option Seat → Bool
holds peer none = false
holds peer (some s) = same s.participant.peer_id peer

abbrev pub occupied : List (Option Seat) → ℕ
occupied [] = 0
occupied (none ∷ seats) = occupied seats
occupied (some s ∷ seats) = suc (occupied seats)

-- The number of participants.
abbrev pub people : Hall → ℕ
people h = length h.queue + occupied h.seats

-- The loop of `fillSeats`: the head of the queue takes each empty seat, from the left.
unfoldable pub fill :
    ℕ → List (Option Seat) → List Participant → List (Option Seat) × List Participant
fill at [] queue = ([], queue)
fill at (seat ∷ seats) [] = (seat ∷ seats, [])
fill at (some s ∷ seats) (p ∷ queue) =
    let rest = fill at seats (p ∷ queue) in (some s ∷ rest.0, rest.1)
fill at (none ∷ seats) (p ∷ queue) =
    let rest = fill at seats queue in
    (some (record { participant = p; seated_at = at; last_spoke_at = none }) ∷ rest.0, rest.1)

abbrev pub is_present : ℕ → Participant → Bool
is_present at p = ltb at (p.last_presence_at + Rules.presence_ttl_ms)

unfoldable pub fill_seats : Hall → ℕ → Hall
unfolding fill
fill_seats h at =
    let filled = fill at h.seats (keep (is_present at) h.queue) in
    record h { seats = filled.0; queue = filled.1 }

unfoldable pub vacate : String → List (Option Seat) → List (Option Seat)
vacate peer [] = []
vacate peer (seat ∷ seats) = (if holds peer seat then none else seat) ∷ vacate peer seats

unfoldable pub remove_participant : Hall → String → ℕ → Bool → Hall
unfolding fill_seats vacate
remove_participant h peer at cooldown =
    let removed_seat = any (holds peer) h.seats in
    fill_seats
      (record h {
        seats = vacate peer h.seats;
        queue = keep (λ p. not (same p.peer_id peer)) h.queue;
        cooldown_until =
            if removed_seat && cooldown
            then Dict.set peer (at + Rules.cooldown_ms) h.cooldown_until
            else h.cooldown_until;
      })
      at

pub record Expiry : Type 0 where
  pub at : ℕ
  pub peer_id : String
  pub cooldown : Bool

-- `lastSpokeAt ?? seatedAt`
abbrev pub last_active : Seat → ℕ
last_active s = elim s.last_spoke_at [ none ↦ s.seated_at | some t ↦ t ]

unfoldable pub seat_expires_at : Seat → ℕ
seat_expires_at s =
    min (min (s.seated_at + Rules.max_lease_ms) (last_active s + Rules.idle_ms))
      (s.participant.last_presence_at + Rules.presence_ttl_ms)

abbrev pub queued_expires_at : Participant → ℕ
queued_expires_at p = p.last_presence_at + Rules.presence_ttl_ms

-- The earlier of the one found so far and a new one; the first found wins a tie.
unfoldable pub earlier : Option Expiry → Expiry → Option Expiry
earlier none e = some e
earlier (some next) e = if ltb e.at next.at then some e else some next

unfoldable pub next_seat : Option Expiry → List (Option Seat) → Option Expiry
next_seat next [] = next
next_seat next (none ∷ seats) = next_seat next seats
next_seat next (some s ∷ seats) =
    next_seat
      (earlier next
        (record { at = seat_expires_at s; peer_id = s.participant.peer_id; cooldown = true }))
      seats

unfoldable pub next_queued : Option Expiry → List Participant → Option Expiry
next_queued next [] = next
next_queued next (p ∷ queue) =
    next_queued
      (earlier next (record { at = queued_expires_at p; peer_id = p.peer_id; cooldown = false }))
      queue

unfoldable pub next_expiry : Hall → Option Expiry
unfolding next_seat next_queued earlier seat_expires_at
next_expiry h = next_queued (next_seat none h.seats) h.queue

-- The endless loop of `advance`, on fuel.
unfoldable pub advance_loop : ℕ → Hall → ℕ → Hall
unfolding next_expiry remove_participant
advance_loop zero h target = h
advance_loop (suc fuel) h target = elim (next_expiry h) [
  | none ↦ h
  | some e ↦ elim (ltb target e.at) [
    | true ↦ h
    | false ↦ advance_loop fuel (remove_participant h e.peer_id e.at e.cooldown) target
  ]
]

-- Each round removes a participant, so their number is fuel enough.
unfoldable pub advance : Hall → ℕ → Hall
unfolding advance_loop
advance h target = advance_loop (people h) h target

-- Whether `participantFor` finds someone.
unfoldable pub has_participant : Hall → String → Bool
has_participant h peer = any (holds peer) h.seats || any (λ p. same p.peer_id peer) h.queue
