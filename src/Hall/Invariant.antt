-- ===== src/Hall/Invariant.antt =====
-- The invariant of the hall of `derive` (src/network/room-events.ts): joins, messages and whole runs.
use Prim.Native.Nat.{Ordering}
use dsh_carbonclub.Base.{
  ℕ, suc, ◌+◌, ◌≤◌, ◌<◌, ◌≡◌, refl, inl, inr, Bool, false, String, Option, none, some, List, [],
  ◌∷◌, ◌++◌, length, length-append, same_iff, Bool-cases, Option-cases, leb, ◌||◌, sym, ap, ◌∙◌,
  arith, max, keep, same,
}
use dsh_carbonclub.Base.Sort.{sort_by, total-sort_by, length-sort_by}
use dsh_carbonclub.Base.Total.{total, total-append}
use dsh_carbonclub.Rules
use dsh_carbonclub.Types.{
  RoomProfile, join, heartbeat, leave, Payload, chat_message, hall_presence, hall_checkpoint,
  room_sync_request, RoomEvent,
}
use dsh_carbonclub.Hall.Defs.{
  Participant, Seat, Hall, empty_hall, occupied, people, is_present, fill_seats, advance,
  has_participant,
}
use dsh_carbonclub.Hall.Derive
use dsh_carbonclub.Hall.Count.{
  held, queued, hits, length-fill, fill-IsFilled, hits-fill_seats, people-fill_seats,
  has_participant-hits,
}
use dsh_carbonclub.Hall.Moves.{
  IsHall, empty_hall-IsHall, remove_participant-IsHall, advance-IsHall, IsHall-like, refresh-IsHall,
}

module _ (peer : String) (at : ℕ) where
  length-mark_spoken :
      (seats : List (Option Seat)) → length (Derive.mark_spoken peer at seats) ≡ length seats
  unfolding Derive.mark_spoken
  length-mark_spoken [] = refl
  length-mark_spoken (none ∷ seats) = omega (arith, length-mark_spoken seats)
  length-mark_spoken (some s ∷ seats) = ground (arith, length-mark_spoken seats)

  occupied-mark_spoken :
      (seats : List (Option Seat)) → occupied (Derive.mark_spoken peer at seats) ≡ occupied seats
  unfolding Derive.mark_spoken
  occupied-mark_spoken [] = refl
  occupied-mark_spoken (none ∷ seats) = occupied-mark_spoken seats
  occupied-mark_spoken (some s ∷ seats) = ground (arith, occupied-mark_spoken seats)

  total-mark_spoken :
      (p : String) (seats : List (Option Seat))
      → total (held p) (Derive.mark_spoken peer at seats) ≡ total (held p) seats
  unfolding Derive.mark_spoken total
  total-mark_spoken p [] = refl
  total-mark_spoken p (none ∷ seats) = omega (arith, total-mark_spoken p seats)
  total-mark_spoken p (some s ∷ seats) = ground (arith, total-mark_spoken p seats)

module _ (h : Hall) (e : RoomEvent) where
  spoken-IsHall :
      (k : Hall)
      → k.seats ≡ Derive.mark_spoken e.origin e.issued_at h.seats
      → k.queue ≡ h.queue
      → IsHall h
      → IsHall k
  spoken-IsHall k s q v =
      IsHall-like h k (rw s (length-mark_spoken e.origin e.issued_at h.seats))
        (rw (s, q) (omega (arith, occupied-mark_spoken e.origin e.issued_at h.seats)))
        (λ p. rw (s, q) (omega (arith, total-mark_spoken e.origin e.issued_at p h.seats)))
        (rw (s, q)
          (ground (
            arith,
            v.filled,
            occupied-mark_spoken e.origin e.issued_at h.seats,
            length-mark_spoken e.origin e.issued_at h.seats,
          )))
        v

  pub on_chat-IsHall : (body : String) → IsHall h → IsHall (Derive.on_chat h e body)
  unfolding Derive.on_chat
  on_chat-IsHall body v = elim (Option-cases (Derive.seat_of e.origin h.seats)) [
    | inl unseated ↦ rw (unseated, Derive.on_chat) v
    | inr (s, found) ↦
        elim (Bool-cases
          (Derive.is_too_soon s e.issued_at || Derive.talks_alone h.messages e.origin)) [
            | inl refused ↦ rw (found, Derive.on_chat, refused) v
            | inr heard ↦ rw (found, Derive.on_chat, heard) (spoken-IsHall _ refl refl v)
          ]
  ]

  -- The queue with a newcomer, in any order.
  module _ (p : Participant) (fresh : p.peer_id ≡ e.origin) (absent : hits e.origin h ≡ 0) where
    once-newcomer :
        (q : String)
        → hits q h ≤ 1
        → total (held q) h.seats + total (queued q) (h.queue ++ p ∷ []) ≤ 1
    unfolding total
    once-newcomer q once = elim (Bool-cases (same p.peer_id q)) [
      | inl new ↦
          let itself : hits q h ≡ 0 = rw (sym fresh ∙ (same_iff p.peer_id q).0 new) at absent in
          rw (total-append (queued q) h.queue (p ∷ []), total, new) (omega (arith, itself))
      | inr old ↦ rw (total-append (queued q) h.queue (p ∷ []), total, old) (omega (arith, once))
    ]

    newcomer-IsHall :
        (k : Hall) (less : Participant → Participant → Bool) (at : ℕ)
        → k.seats ≡ h.seats
        → k.queue ≡ sort_by less (h.queue ++ p ∷ [])
        → people h < Rules.capacity
        → IsHall h
        → IsHall (fill_seats k at)
    unfolding fill_seats
    newcomer-IsHall k less at s q room v = record {
      seated = rw (length-fill at k.seats (keep (is_present at) k.queue), s) v.seated;
      bounded =
          let sorted : length k.queue ≡ suc (length h.queue) = rw q (
            omega
              (arith, length-sort_by less (h.queue ++ p ∷ []), length-append h.queue (p ∷ []))) in
          omega (arith, people-fill_seats k at, ap occupied s);
      once = λ r.
          let sorted : total (queued r) k.queue ≡ total (queued r) (h.queue ++ p ∷ []) =
            rw q (total-sort_by less (queued r) (h.queue ++ p ∷ [])) in
          omega (arith, hits-fill_seats r k at, ap (total (held r)) s, once-newcomer r (v.once r));
      filled = fill-IsFilled at k.seats (keep (is_present at) k.queue);
    }

  module _ (locale_compare : String → String → Ordering) where
    admit-IsHall :
        (profile : RoomProfile) (joined_at : ℕ)
        → hits e.origin h ≡ 0
        → people h < Rules.capacity
        → IsHall h
        → IsHall (Derive.admit locale_compare h e profile joined_at)
    unfolding Derive.admit
    admit-IsHall profile joined_at absent room v =
        newcomer-IsHall _ refl absent _ (Derive.queue_less locale_compare) e.issued_at refl refl
          room v

    on_join-IsHall :
        (profile : RoomProfile) (joined_at : ℕ)
        → IsHall h
        → IsHall (Derive.on_join locale_compare h e profile joined_at)
    unfolding Derive.on_join
    on_join-IsHall profile joined_at v = elim (Bool-cases (has_participant h e.origin)) [
      | inl known ↦
          rw (known, Derive.on_join) (refresh-IsHall h e.origin (some profile) e.issued_at v)
      | inr new ↦ elim (Bool-cases (Derive.is_cooling h e.origin e.issued_at)) [
        | inl cools ↦ rw (new, Derive.on_join, cools) v
        | inr free ↦ elim (Bool-cases (leb Rules.capacity (people h))) [
          | inl full ↦ rw (new, Derive.on_join, free, full) v
          | inr room ↦
              rw (new, Derive.on_join, free, room)
                (admit-IsHall profile joined_at (has_participant-hits h e.origin new) (ground arith)
                  v)
        ]
      ]
    ]

    on_payload-IsHall :
        (payload : Payload) → IsHall h → IsHall (Derive.on_payload locale_compare h e payload)
    unfolding Derive.on_payload Derive.on_presence
    on_payload-IsHall (chat_message body) v = on_chat-IsHall body v
    on_payload-IsHall (hall_presence (join profile joined_at _)) v =
        on_join-IsHall profile joined_at v
    on_payload-IsHall (hall_presence (heartbeat profile joined_at)) v =
        elim (Bool-cases (has_participant h e.origin)) [
          | inl known ↦
              rw (known, Derive.on_payload) (refresh-IsHall h e.origin profile e.issued_at v)
          | inr new ↦ rw (new, Derive.on_payload) v
        ]
    on_payload-IsHall (hall_presence leave) v =
        remove_participant-IsHall h e.origin e.issued_at false v
    on_payload-IsHall (hall_checkpoint _) v = v
    on_payload-IsHall (room_sync_request _) v = v

module _ (locale_compare : String → String → Ordering) where
  pub step-IsHall : (h : Hall) (e : RoomEvent) → IsHall h → IsHall (Derive.step locale_compare h e)
  unfolding Derive.step
  step-IsHall h e v =
      let later = advance h e.issued_at in
      let w = advance-IsHall h e.issued_at v in
      let h' = record later { updated_at = max later.updated_at e.issued_at } in
      on_payload-IsHall h' e locale_compare e.payload
        (IsHall-like later h' refl refl (λ _. refl) w.filled w)

  run-IsHall :
      (h : Hall) (events : List RoomEvent) → IsHall h → IsHall (Derive.run locale_compare h events)
  unfolding Derive.run
  run-IsHall h [] v = v
  run-IsHall h (e ∷ events) v =
      run-IsHall (Derive.step locale_compare h e) events (step-IsHall h e v)

  -- Whatever the events and the time, the derived hall has eight seats and at most 500
  -- participants, no peer stands in it twice (in two seats, twice in the queue, or in both), and
  -- nobody waits in the queue while a seat is empty.
  pub derive-IsHall :
      (events : List RoomEvent) (now : ℕ) → IsHall (Derive.derive locale_compare events now)
  unfolding Derive.derive
  derive-IsHall events now =
      let sorted = sort_by (Derive.event_less locale_compare) events in
      advance-IsHall (Derive.run locale_compare empty_hall sorted) now
        (run-IsHall empty_hall sorted empty_hall-IsHall)
