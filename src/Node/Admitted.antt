-- ===== src/Node/Admitted.antt =====
-- Whether a node finds itself in the hall: the tests of `joinHall` and `publishHallMessage`
-- (src/network/node.ts) on the snapshot.
use Prim.Native.Nat.{Ordering}
use dsh_carbonclub.Base.{
  ℕ, ◌≡◌, refl, Bool, true, false, ◌||◌, String, Option, none, some, List, [], ◌∷◌, map, any, same,
  arith, Bool-cases, Option-cases, inl, inr,
}
use dsh_carbonclub.Hall.Defs.{Participant, Seat, holds, has_participant}
use dsh_carbonclub.Hall.Derive.{derive}
use dsh_carbonclub.Ledger.Defs.{Ledger, expire_presence_indexes}
use dsh_carbonclub.Ledger.Indexes.{expire_ind}
use dsh_carbonclub.Ledger.Snapshot.{
  HallSeat, RoomSnapshot, show_seat, queue_position, show_hall, snapshot,
}

-- `seat?.participant.peerId === localPeerId`
abbrev pub is_own : String → Option HallSeat → Bool
is_own peer none = false
is_own peer (some s) = same s.participant.peer_id peer

-- `value !== undefined`
abbrev pub is_defined : Option ℕ → Bool
is_defined none = false
is_defined (some n) = true

unfoldable pub is_admitted : RoomSnapshot → String → Bool
is_admitted s peer = any (is_own peer) s.seats || is_defined s.local_queue_position

any-show_seat :
    (peer : String) (seats : List (Option Seat))
    → any (is_own peer) (map show_seat seats) ≡ any (holds peer) seats
unfolding any
any-show_seat peer [] = refl
any-show_seat peer (none ∷ seats) = ground (arith, any-show_seat peer seats)
any-show_seat peer (some s ∷ seats) = ground (arith, any-show_seat peer seats)

is_defined-queue_position :
    (peer : String) (queue : List Participant)
    → is_defined (queue_position peer queue) ≡ any (λ p. same p.peer_id peer) queue
unfolding queue_position any
is_defined-queue_position peer [] = refl
is_defined-queue_position peer (p ∷ queue) =
    let rest = is_defined-queue_position peer queue in
    elim (Bool-cases (same p.peer_id peer)) [
      | inl here ↦ rw (here, queue_position, any) refl
      | inr there ↦ elim (Option-cases (queue_position peer queue)) [
        | inl nowhere ↦ rw (there, queue_position, any, nowhere) (rw nowhere at rest)
        | inr (n, found) ↦ rw (there, queue_position, any, found) (rw found at rest)
      ]
    ]

pub events-expire : (l : Ledger) (now : ℕ) → (expire_presence_indexes l now).events ≡ l.events
events-expire l now =
    expire_ind (λ k. k.events ≡ l.events) (λ k o same_events. same_events) now l refl

-- A node finds itself in its own snapshot exactly when it is a participant of the hall derived from
-- its events, also where the queue is longer than the part that the snapshot shows.
pub is_admitted-snapshot :
    (locale_compare : String → String → Ordering) (l : Ledger) (now : ℕ) (peer : String)
    → is_admitted (snapshot locale_compare l now (some peer)).1 peer
      ≡ has_participant (derive locale_compare l.events now) peer
unfolding is_admitted snapshot show_hall has_participant
is_admitted-snapshot locale_compare l now peer =
    let h = derive locale_compare l.events now in
    rw (events-expire l now)
      (rw (any-show_seat peer h.seats, is_defined-queue_position peer h.queue) refl)
