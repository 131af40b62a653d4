-- ===== src/Hall/Expiry.antt =====
-- `nextExpiry` and the loop of `advance` (src/network/room-events.ts).
use dsh_carbonclub.Base.{
  ℕ, zero, suc, ◌≤◌, ◌<◌, ◌≡◌, ◌⊎◌, inl, inr, Bool, String, Option, none, some, List, [], ◌∷◌,
  same_self, Bool-cases, Option-cases, ltb, arith, All,
}
use dsh_carbonclub.Base.Total.{total}
use dsh_carbonclub.Hall.Defs.{
  Participant, Seat, Hall, Expiry, people, remove_participant, seat_expires_at, queued_expires_at,
  earlier, next_seat, next_queued, next_expiry, advance_loop, advance,
}
use dsh_carbonclub.Hall.Count.{held, queued, hits, people-remove_participant}

-- No expiry, or one after `t`.
abbrev pub IsLater : ℕ → Option Expiry → Type 0
IsLater t none = Unit
IsLater t (some e) = t < e.at

-- A seat is empty, or expires after `t`.
abbrev pub SeatLasts : ℕ → Option Seat → Type 0
SeatLasts t none = Unit
SeatLasts t (some s) = t < seat_expires_at s

abbrev pub QueuedLasts : ℕ → Participant → Type 0
QueuedLasts t p = t < queued_expires_at p

earlier-IsLater :
    (t : ℕ) (next : Option Expiry) (e : Expiry)
    → IsLater t (earlier next e)
    → IsLater t next × (t < e.at)
unfolding earlier
earlier-IsLater t none e h = (tt, h)
earlier-IsLater t (some n) e h = ground arith

next_seat-IsLater :
    (t : ℕ) (next : Option Expiry) (seats : List (Option Seat))
    → IsLater t (next_seat next seats)
    → IsLater t next × All (SeatLasts t) seats
unfolding next_seat
next_seat-IsLater t next [] h = (h, tt)
next_seat-IsLater t next (none ∷ seats) h =
    let r = next_seat-IsLater t next seats h in (r.0, (tt, r.1))
next_seat-IsLater t next (some s ∷ seats) h =
    let r = next_seat-IsLater t (earlier next _) seats h in
    let q = earlier-IsLater t next _ r.0 in (q.0, (q.1, r.1))

next_queued-IsLater :
    (t : ℕ) (next : Option Expiry) (queue : List Participant)
    → IsLater t (next_queued next queue)
    → IsLater t next × All (QueuedLasts t) queue
unfolding next_queued
next_queued-IsLater t next [] h = (h, tt)
next_queued-IsLater t next (p ∷ queue) h =
    let r = next_queued-IsLater t (earlier next _) queue h in
    let q = earlier-IsLater t next _ r.0 in (q.0, (q.1, r.1))

-- The expiry found is the earliest: what comes before it comes before all.
pub next_expiry-IsLater :
    (t : ℕ) (h : Hall)
    → IsLater t (next_expiry h)
    → All (SeatLasts t) h.seats × All (QueuedLasts t) h.queue
unfolding next_expiry
next_expiry-IsLater t h later =
    let r = next_queued-IsLater t _ h.queue later in ((next_seat-IsLater t none h.seats r.0).1, r.1)

next_seat-found :
    (next : Option Expiry) (seats : List (Option Seat)) {e : Expiry}
    → next_seat next seats ≡ some e
    → (next ≡ some e) ⊎ (1 ≤ total (held e.peer_id) seats)
unfolding next_seat earlier total
next_seat-found next [] h = inl h
next_seat-found next (none ∷ seats) h = ground (arith, next_seat-found next seats h)
next_seat-found none (some s ∷ seats) h =
    ground (arith, next_seat-found (some _) seats h, same_self s.participant.peer_id)
next_seat-found (some n) (some s ∷ seats) {e} h =
    ground (arith, next_seat-found (earlier (some n) _) seats h, same_self s.participant.peer_id)

next_queued-found :
    (next : Option Expiry) (queue : List Participant) {e : Expiry}
    → next_queued next queue ≡ some e
    → (next ≡ some e) ⊎ (1 ≤ total (queued e.peer_id) queue)
unfolding next_queued earlier total
next_queued-found next [] h = inl h
next_queued-found none (p ∷ queue) h =
    ground (arith, next_queued-found (some _) queue h, same_self p.peer_id)
next_queued-found (some n) (p ∷ queue) h =
    ground (arith, next_queued-found (earlier (some n) _) queue h, same_self p.peer_id)

-- The expiry found is somebody's.
pub next_expiry-hits : (h : Hall) {e : Expiry} → next_expiry h ≡ some e → 1 ≤ hits e.peer_id h
unfolding next_expiry
next_expiry-hits h {e} found = ground (
  arith,
  next_queued-found (next_seat none h.seats) h.queue found,
  next_seat-found none h.seats {e = e},
)

-- Fuel for each participant is enough: the loop ends because nothing is due.
advance_loop-IsLater :
    (fuel : ℕ) (h : Hall) (t : ℕ)
    → people h ≤ fuel
    → IsLater t (next_expiry (advance_loop fuel h t))
unfolding advance_loop
advance_loop-IsLater zero h t enough = elim (Option-cases (next_expiry h)) [
  | inl e ↦ rw e tt
  | inr (e, found) ↦ absurd (
      omega
        (arith, next_expiry-hits h found, people-remove_participant h e.peer_id e.at e.cooldown))
]
advance_loop-IsLater (suc fuel) h t enough = elim (Option-cases (next_expiry h)) [
  | inl e ↦ rw (e, advance_loop) (rw e tt)
  | inr (e, found) ↦ elim (Bool-cases (ltb t e.at)) [
    | inl late ↦ rw (found, advance_loop, late) (rw found (ground arith))
    | inr due ↦
        rw (found, advance_loop, due)
          (advance_loop-IsLater fuel (remove_participant h e.peer_id e.at e.cooldown) t (
            omega (
              arith,
              next_expiry-hits h found,
              people-remove_participant h e.peer_id e.at e.cooldown,
            )))
  ]
]

-- The loop of `advance` ends with nothing that is due: every lease, idle limit and presence that is
-- left ends after `t`.
pub advance-IsLater :
    (h : Hall) (t : ℕ)
    → All (SeatLasts t) (advance h t).seats × All (QueuedLasts t) (advance h t).queue
unfolding advance
advance-IsLater h t =
    next_expiry-IsLater t (advance_loop (people h) h t)
      (advance_loop-IsLater (people h) h t (omega arith))

module _ {ℓ} (P : Hall → Type ℓ)
    (keep : (h : Hall) (peer : String) (at : ℕ) (cooldown : Bool)
      → P h
      → P (remove_participant h peer at cooldown)) where
  advance_loop_ind : (fuel : ℕ) (h : Hall) (t : ℕ) → P h → P (advance_loop fuel h t)
  unfolding advance_loop
  advance_loop_ind zero h t p = p
  advance_loop_ind (suc fuel) h t p = elim (Option-cases (next_expiry h)) [
    | inl e ↦ rw (e, advance_loop) p
    | inr (e, found) ↦ elim (Bool-cases (ltb t e.at)) [
      | inl late ↦ rw (found, advance_loop, late) p
      | inr due ↦
          rw (found, advance_loop, due)
            (advance_loop_ind fuel (remove_participant h e.peer_id e.at e.cooldown) t
              (keep h e.peer_id e.at e.cooldown p))
    ]
  ]

  -- What each removal keeps, `advance` keeps.
  pub advance_ind : (h : Hall) (t : ℕ) → P h → P (advance h t)
  unfolding advance
  advance_ind h t p = advance_loop_ind (people h) h t p

-- The endless loop of the source, which returns where nobody expires up to `t`: what a hall is when the
-- loop returns, if it does.
pub data Ends (t : ℕ) : Hall → Hall → Type 0 where
  returns : (h : Hall) → IsLater t (next_expiry h) → Ends t h h
  removes :
      (h : Hall) (e : Expiry) {last : Hall}
      → next_expiry h ≡ some e
      → e.at ≤ t
      → Ends t (remove_participant h e.peer_id e.at e.cooldown) last
      → Ends t h last

advance_loop-Ends :
    (fuel : ℕ) (h : Hall) (t : ℕ) → people h ≤ fuel → Ends t h (advance_loop fuel h t)
unfolding advance_loop
advance_loop-Ends zero h t enough =
    returns h (unfold advance_loop in advance_loop-IsLater zero h t enough)
advance_loop-Ends (suc fuel) h t enough = elim (Option-cases (next_expiry h)) [
  | inl e ↦ rw (e, advance_loop) (returns h (rw e tt))
  | inr (e, found) ↦ elim (Bool-cases (ltb t e.at)) [
    | inl late ↦ rw (found, advance_loop, late) (returns h (rw found (ground arith)))
    | inr due ↦
        rw (found, advance_loop, due)
          (removes h e found (ground arith) (
            advance_loop-Ends fuel (remove_participant h e.peer_id e.at e.cooldown) t (
              omega (
                arith,
                next_expiry-hits h found,
                people-remove_participant h e.peer_id e.at e.cooldown,
              ))))
  ]
]

-- From every hall and for every time the loop of the source returns, after finitely many removals, and
-- what it returns is what `advance` is defined to be.
pub advance-Ends : (h : Hall) (t : ℕ) → Ends t h (advance h t)
unfolding advance
advance-Ends h t = advance_loop-Ends (people h) h t (omega arith)
