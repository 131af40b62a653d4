-- ===== src/Hall/Count.antt =====
-- How the parts of the derived hall count their participants: all of them (`people`), and one
-- peer's seats and places in the queue (`hits`).
use dsh_carbonclub.Base.{
  ℕ, ◌+◌, ◌≤◌, ◌≡◌, refl, ◌⊎◌, inl, inr, Bool, false, not, String, Option, none, some, List, [],
  ◌∷◌, keep, length, length-keep-le, same, arith,
}
use dsh_carbonclub.Base.Total.{total, one_if, total-keep-le, any-false-total}
use dsh_carbonclub.Hall.Defs.{
  Participant, Seat, Hall, holds, occupied, people, fill, is_present, fill_seats, vacate,
  remove_participant, has_participant,
}

abbrev pub held : String → Option Seat → ℕ
held peer = one_if (holds peer)

abbrev pub queued : String → Participant → ℕ
queued peer = one_if (λ p. same p.peer_id peer)

-- How often a peer stands in the hall.
abbrev pub hits : String → Hall → ℕ
hits peer h = total (held peer) h.seats + total (queued peer) h.queue

pub length-fill :
    (at : ℕ) (seats : List (Option Seat)) (queue : List Participant)
    → length (fill at seats queue).0 ≡ length seats
unfolding fill
length-fill at [] queue = refl
length-fill at (seat ∷ seats) [] = refl
length-fill at (some s ∷ seats) (p ∷ queue) = omega (arith, length-fill at seats (p ∷ queue))
length-fill at (none ∷ seats) (p ∷ queue) = omega (arith, length-fill at seats queue)

pub people-fill :
    (at : ℕ) (seats : List (Option Seat)) (queue : List Participant)
    → occupied (fill at seats queue).0 + length (fill at seats queue).1
      ≡ occupied seats + length queue
unfolding fill
people-fill at [] queue = refl
people-fill at (seat ∷ seats) [] = refl
people-fill at (some s ∷ seats) (p ∷ queue) = omega (arith, people-fill at seats (p ∷ queue))
people-fill at (none ∷ seats) (p ∷ queue) = omega (arith, people-fill at seats queue)

pub hits-fill :
    (peer : String) (at : ℕ) (seats : List (Option Seat)) (queue : List Participant)
    → total (held peer) (fill at seats queue).0 + total (queued peer) (fill at seats queue).1
      ≡ total (held peer) seats + total (queued peer) queue
unfolding fill total
hits-fill peer at [] queue = refl
hits-fill peer at (seat ∷ seats) [] = refl
hits-fill peer at (some s ∷ seats) (p ∷ queue) = omega (arith, hits-fill peer at seats (p ∷ queue))
hits-fill peer at (none ∷ seats) (p ∷ queue) = omega (arith, hits-fill peer at seats queue)

-- Nobody waits beside an empty seat.
abbrev pub IsFilled : List (Option Seat) → List Participant → Type 0
IsFilled seats queue = (queue ≡ []) ⊎ (occupied seats ≡ length seats)

pub fill-IsFilled :
    (at : ℕ) (seats : List (Option Seat)) (queue : List Participant)
    → IsFilled (fill at seats queue).0 (fill at seats queue).1
unfolding fill
fill-IsFilled at [] queue = inr refl
fill-IsFilled at (seat ∷ seats) [] = inl refl
fill-IsFilled at (some s ∷ seats) (p ∷ queue) = ground (arith, fill-IsFilled at seats (p ∷ queue))
fill-IsFilled at (none ∷ seats) (p ∷ queue) = ground (arith, fill-IsFilled at seats queue)

pub hits-fill_seats :
    (peer : String) (h : Hall) (at : ℕ) → hits peer (fill_seats h at) ≤ hits peer h
unfolding fill_seats
hits-fill_seats peer h at = omega (
  arith,
  hits-fill peer at h.seats (keep (is_present at) h.queue),
  total-keep-le (queued peer) (is_present at) h.queue,
)

pub people-fill_seats : (h : Hall) (at : ℕ) → people (fill_seats h at) ≤ people h
unfolding fill_seats
people-fill_seats h at = omega (
  arith,
  people-fill at h.seats (keep (is_present at) h.queue),
  length-keep-le (is_present at) h.queue,
)

length-vacate :
    (peer : String) (seats : List (Option Seat)) → length (vacate peer seats) ≡ length seats
unfolding vacate
length-vacate peer [] = refl
length-vacate peer (seat ∷ seats) = omega (arith, length-vacate peer seats)

hits-vacate_self :
    (peer : String) (seats : List (Option Seat)) → total (held peer) (vacate peer seats) ≡ 0
unfolding vacate total
hits-vacate_self peer [] = refl
hits-vacate_self peer (none ∷ seats) = omega (arith, hits-vacate_self peer seats)
hits-vacate_self peer (some s ∷ seats) = ground (arith, hits-vacate_self peer seats)

hits-vacate-le :
    (p peer : String) (seats : List (Option Seat))
    → total (held p) (vacate peer seats) ≤ total (held p) seats
unfolding vacate total
hits-vacate-le p peer [] = omega arith
hits-vacate-le p peer (none ∷ seats) = omega (arith, hits-vacate-le p peer seats)
hits-vacate-le p peer (some s ∷ seats) = ground (arith, hits-vacate-le p peer seats)

-- Vacating loses exactly the peer's seats.
occupied-vacate :
    (peer : String) (seats : List (Option Seat))
    → occupied (vacate peer seats) + total (held peer) seats ≡ occupied seats
unfolding vacate total
occupied-vacate peer [] = refl
occupied-vacate peer (none ∷ seats) = omega (arith, occupied-vacate peer seats)
occupied-vacate peer (some s ∷ seats) = ground (arith, occupied-vacate peer seats)

length-keep_others :
    (peer : String) (queue : List Participant)
    → length (keep (λ p. not (same p.peer_id peer)) queue) + total (queued peer) queue
      ≡ length queue
unfolding keep total
length-keep_others peer [] = refl
length-keep_others peer (p ∷ queue) = ground (arith, length-keep_others peer queue)

hits-keep_others :
    (peer : String) (queue : List Participant)
    → total (queued peer) (keep (λ p. not (same p.peer_id peer)) queue) ≡ 0
unfolding keep total
hits-keep_others peer [] = refl
hits-keep_others peer (p ∷ queue) = ground (arith, hits-keep_others peer queue)

-- Who is found nowhere counts nowhere.
pub has_participant-hits :
    (h : Hall) (peer : String) → has_participant h peer ≡ false → hits peer h ≡ 0
unfolding has_participant
has_participant-hits h peer e = ground (
  arith,
  any-false-total (holds peer) h.seats,
  any-false-total (λ (p : Participant). same p.peer_id peer) h.queue,
)

module _ (h : Hall) (peer : String) (at : ℕ) (cooldown : Bool) where
  pub length-remove_participant :
      length (remove_participant h peer at cooldown).seats ≡ length h.seats
  unfolding remove_participant
  length-remove_participant = omega (
    arith,
    length-vacate peer h.seats,
    length-fill at (vacate peer h.seats)
        (keep (is_present at) (keep (λ p. not (same p.peer_id peer)) h.queue)),
  )

  pub IsFilled-remove_participant :
      IsFilled
        (remove_participant h peer at cooldown).seats
        (remove_participant h peer at cooldown).queue
  unfolding remove_participant
  IsFilled-remove_participant = fill-IsFilled at _ _

  -- The removed peer is gone, from the seats and from the queue.
  pub hits-remove_participant_self : hits peer (remove_participant h peer at cooldown) ≡ 0
  unfolding remove_participant
  hits-remove_participant_self = omega (
    arith,
    hits-vacate_self peer h.seats,
    hits-keep_others peer h.queue,
    hits-fill peer at (vacate peer h.seats)
        (keep (is_present at) (keep (λ p. not (same p.peer_id peer)) h.queue)),
    total-keep-le (queued peer) (is_present at)
        (keep (λ (p : Participant). not (same p.peer_id peer)) h.queue),
  )

  pub hits-remove_participant-le :
      (p : String) → hits p (remove_participant h peer at cooldown) ≤ hits p h
  unfolding remove_participant
  hits-remove_participant-le p = omega (
    arith,
    hits-vacate-le p peer h.seats,
    hits-fill p at (vacate peer h.seats)
        (keep (is_present at) (keep (λ p. not (same p.peer_id peer)) h.queue)),
    total-keep-le (queued p) (is_present at)
        (keep (λ (p : Participant). not (same p.peer_id peer)) h.queue),
    total-keep-le (queued p) (λ (p : Participant). not (same p.peer_id peer)) h.queue,
  )

  -- Each place of the removed peer is one participant less.
  pub people-remove_participant :
      people (remove_participant h peer at cooldown) + hits peer h ≤ people h
  unfolding remove_participant
  people-remove_participant = omega (
    arith,
    occupied-vacate peer h.seats,
    length-keep_others peer h.queue,
    people-fill at (vacate peer h.seats)
        (keep (is_present at) (keep (λ p. not (same p.peer_id peer)) h.queue)),
    length-keep-le (is_present at) (keep (λ (p : Participant). not (same p.peer_id peer)) h.queue),
  )
