-- ===== src/Ledger/Views.antt =====
-- How much a panel is shown: the snapshot of `RoomEventLedger` (src/network/room-events.ts) for a
-- viewer.
use Prim.Native.Nat.{Ordering}
use dsh_carbonclub.Base.{
  ℕ, zero, suc, ◌-◌, ◌≤◌, ◌≡◌, refl, String, Option, none, some, List, [], ◌∷◌, map, take, length,
  length-drop, same, arith, Bool-cases, Option-cases, inl, inr,
}
use dsh_carbonclub.Rules
use dsh_carbonclub.Hall.Defs.{Participant}
use dsh_carbonclub.Hall.Derive.{derive}
use dsh_carbonclub.Hall.Invariant.{derive-IsHall}
use dsh_carbonclub.Ledger.Defs.{Ledger, expire_presence_indexes}
use dsh_carbonclub.Ledger.Snapshot.{
  RoomSnapshot, show_seat, show_participant, queue_position, show_hall, snapshot,
}

module _ {A : Type 0} {B : Type 0} where
  length-map : (f : A → B) (xs : List A) → length (map f xs) ≡ length xs
  length-map f [] = refl
  length-map f (x ∷ xs) = omega (arith, length-map f xs)

module _ {A : Type 0} where
  length-take-le : (n : ℕ) (xs : List A) → length (take n xs) ≤ n
  length-take-le zero xs = omega arith
  length-take-le (suc n) [] = omega arith
  length-take-le (suc n) (x ∷ xs) = omega (arith, length-take-le n xs)

  length-take-bounded : (n : ℕ) (xs : List A) → length (take n xs) ≤ length xs
  length-take-bounded zero xs = omega arith
  length-take-bounded (suc n) [] = omega arith
  length-take-bounded (suc n) (x ∷ xs) = omega (arith, length-take-bounded n xs)

-- A position lies in the queue.
abbrev IsIn : ℕ → Option ℕ → Type 0
IsIn bound none = Unit
IsIn bound (some n) = (1 ≤ n) × (n ≤ bound)

queue_position-IsIn :
    (peer : String) (queue : List Participant) → IsIn (length queue) (queue_position peer queue)
unfolding queue_position
queue_position-IsIn peer [] = tt
queue_position-IsIn peer (p ∷ queue) =
    let rest = queue_position-IsIn peer queue in
    elim (Bool-cases (same p.peer_id peer)) [
      | inl here ↦ rw (here, queue_position) (omega arith, omega arith)
      | inr there ↦ elim (Option-cases (queue_position peer queue)) [
        | inl nowhere ↦ rw (there, queue_position, nowhere) tt
        | inr (n, found) ↦
            let deeper : IsIn (length queue) (some n) = rw found at rest in
            rw (there, queue_position, found) (omega arith, omega (arith, deeper))
      ]
    ]

-- What one viewer is shown of a hall.
pub record IsView (s : RoomSnapshot) : Type 0 where
  pub seats : length s.seats ≡ Rules.seat_count
  pub queue : length s.queue ≤ Rules.client_queue_preview
  pub messages : length s.messages ≤ Rules.client_message_window
  pub counted : s.participant_count ≤ s.capacity
  pub previewed : length s.queue ≤ s.queue_count
  pub placed : IsIn s.queue_count s.local_queue_position

module _ (locale_compare : String → String → Ordering) where
  -- The snapshot for a viewer shows eight seats, at most 24 of the queue, no more than the queue
  -- has, and at most 50 messages; it counts no more participants than the capacity; and the
  -- viewer's position, where there is one, is between 1 and the number of those who wait.
  pub snapshot-IsView :
      (l : Ledger) (now : ℕ) (viewer : String)
      → IsView (snapshot locale_compare l now (some viewer)).1
  unfolding snapshot show_hall
  snapshot-IsView l now viewer =
      let events = (expire_presence_indexes l now).events in
      let h = derive locale_compare events now in
      let v = derive-IsHall locale_compare events now in
      record {
        seats = omega (arith, length-map show_seat h.seats, v.seated);
        queue = length-take-le Rules.client_queue_preview (map show_participant h.queue);
        messages =
            omega (arith, length-drop (length h.messages - Rules.client_message_window) h.messages);
        counted = v.bounded;
        previewed = omega (
          arith,
          length-take-bounded Rules.client_queue_preview (map show_participant h.queue),
          length-map show_participant h.queue,
        );
        placed = queue_position-IsIn viewer h.queue;
      }
