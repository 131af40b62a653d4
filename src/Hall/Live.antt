-- ===== src/Hall/Live.antt =====
-- Whose time has run out in the hall of `derive` (src/network/room-events.ts).
use Prim.Native.Nat.{Ordering}
use dsh_carbonclub.Base.{ℕ, ◌+◌, ◌<◌, String, Option, none, some, List, [], ◌∷◌, All, arith}
use dsh_carbonclub.Base.Sort.{sort_by}
use dsh_carbonclub.Rules
use dsh_carbonclub.Types.{RoomEvent}
use dsh_carbonclub.Hall.Defs.{Participant, Seat, empty_hall, last_active, seat_expires_at}
use dsh_carbonclub.Hall.Derive
use dsh_carbonclub.Hall.Expiry.{SeatLasts, advance-IsLater}

-- The lease, the idle time and the presence of a seat's holder have not run out.
abbrev pub IsLive : ℕ → Option Seat → Type 0
IsLive now none = Unit
IsLive now (some s) =
    (now < s.seated_at + Rules.max_lease_ms)
    × (now < last_active s + Rules.idle_ms)
    × (now < s.participant.last_presence_at + Rules.presence_ttl_ms)

abbrev pub IsPresent : ℕ → Participant → Type 0
IsPresent now p = now < p.last_presence_at + Rules.presence_ttl_ms

SeatLasts-IsLive :
    (now : ℕ) (seats : List (Option Seat)) → All (SeatLasts now) seats → All (IsLive now) seats
unfolding seat_expires_at
SeatLasts-IsLive now [] h = tt
SeatLasts-IsLive now (none ∷ seats) h = (tt, SeatLasts-IsLive now seats h.1)
SeatLasts-IsLive now (some s ∷ seats) h =
    ((omega (arith, h.0), omega (arith, h.0), omega (arith, h.0)), SeatLasts-IsLive now seats h.1)

module _ (locale_compare : String → String → Ordering) where
  -- In the hall derived for a time `now`, every seat's lease (five minutes), idle limit (two
  -- minutes since the holder last spoke or sat down) and presence (two minutes) end after `now`,
  -- and so does the presence of everybody in the queue.
  pub derive-IsLive :
      (events : List RoomEvent) (now : ℕ)
      → All (IsLive now) (Derive.derive locale_compare events now).seats
        × All (IsPresent now) (Derive.derive locale_compare events now).queue
  unfolding Derive.derive
  derive-IsLive events now =
      let sorted = sort_by (Derive.event_less locale_compare) events in
      let lasts = advance-IsLater (Derive.run locale_compare empty_hall sorted) now in
      (SeatLasts-IsLive now _ lasts.0, lasts.1)
