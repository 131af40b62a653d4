-- ===== src/Ledger/Sources.antt =====
-- What holds of every event that a ledger keeps, and what its calls keep in general:
-- `RoomEventLedger` of src/network/room-events.ts.
use dsh_carbonclub.Base.{
  ℕ, zero, suc, ◌||◌, Option, none, some, List, [], ◌∷◌, Bool-cases, Option-cases, inl, inr, length,
  All, ltb, Bool, not, subst,
}
use dsh_carbonclub.Base.Sort.{All-append}
use dsh_carbonclub.Base.Dict
use dsh_carbonclub.Base.Keys.{mem}
use dsh_carbonclub.Rules
use dsh_carbonclub.Types.{
  join, heartbeat, leave, Payload, chat_message, hall_presence, hall_checkpoint, room_sync_request,
  RoomEvent,
}
use dsh_carbonclub.Ledger.Defs.{
  Ledger, is_chat, is_sync_request, take_first, take_head, choose_removed, protected_ids,
  drop_event, prune_loop, prune, expire_presence_indexes, prune_sequence_loop,
  prune_sequence_origins, idle_origin,
}
use dsh_carbonclub.Ledger.Snapshot.{snapshot}
use dsh_carbonclub.Ledger.Calls.{answer, accept}
use dsh_carbonclub.Ledger.Accept.{Engine, index_event, append_event, store_event, is_admissible}
use dsh_carbonclub.Ledger.Indexes.{expire_ind}
use dsh_carbonclub.Ledger.Invariant.{IsLedger, expire-IsLedger, accept-IsLedger}

-- A property of ledgers that expiring presences keeps, and accepting an event of some kind.
pub record IsClosed (engine : Engine) (P : RoomEvent → Type 0) (Q : Ledger → Type 0) : Type 0 where
  pub expires : (l : Ledger) (now : ℕ) → Q l → Q (expire_presence_indexes l now)
  pub accepts : (l : Ledger) (e : RoomEvent) → P e → Q l → Q (accept engine l e).0

module _ (P : RoomEvent → Type 0) where
  abbrev pub Keeps : Ledger → Type 0
  Keeps l = All P l.events

  -- What is left of the events when one was taken out.
  abbrev Left : Option (RoomEvent × List RoomEvent) → Type 0
  Left none = Unit
  Left (some (r, rest)) = All P rest

  later-Left :
      (o : Option (RoomEvent × List RoomEvent)) (e : RoomEvent)
      → P e
      → Left o
      → Left (elim o [ none ↦ none | some (r, rest) ↦ some (r, e ∷ rest) ])
  later-Left none e p h = tt
  later-Left (some (r, rest)) e p h = (p, h)

  take_first-Left :
      (test : RoomEvent → Bool) (events : List RoomEvent)
      → All P events
      → Left (take_first test events)
  unfolding take_first
  take_first-Left test [] h = tt
  take_first-Left test (e ∷ events) h = elim (Bool-cases (test e)) [
    | inl here ↦ rw (here, take_first) h.1
    | inr there ↦
        rw (there, take_first)
          (later-Left (take_first test events) e h.0 (take_first-Left test events h.1))
  ]

  take_head-Left : (events : List RoomEvent) → All P events → Left (take_head events)
  take_head-Left [] h = tt
  take_head-Left (e ∷ events) h = h.1

  choose_removed-Left : (l : Ledger) → Keeps l → Left (choose_removed l)
  unfolding choose_removed
  choose_removed-Left l h =
      let test = λ (e : RoomEvent). not (mem e.event_id (protected_ids l)) in
      elim (Option-cases (take_first test l.events)) [
        | inl nothing ↦ rw (nothing, choose_removed) (take_head-Left l.events h)
        | inr (r, found) ↦
            rw (found, choose_removed) (subst Left found (take_first-Left test l.events h))
      ]

  prune_loop-Keeps : (fuel : ℕ) (l : Ledger) → Keeps l → Keeps (prune_loop fuel l)
  unfolding prune_loop
  prune_loop-Keeps zero l h = h
  prune_loop-Keeps (suc fuel) l h =
      elim (Bool-cases (ltb Rules.max_retained_events (length l.events))) [
        | inr few ↦ rw (few, prune_loop) h
        | inl many ↦ elim (Option-cases (choose_removed l)) [
          | inl nothing ↦ rw (many, prune_loop, nothing) h
          | inr ((r, rest), found) ↦
              let left : Left (some (r, rest)) = subst Left found (choose_removed-Left l h) in
              rw (many, prune_loop, found) (prune_loop-Keeps fuel (drop_event l r rest) left)
        ]
      ]

  pub expire-Keeps : (l : Ledger) (now : ℕ) → Keeps l → Keeps (expire_presence_indexes l now)
  expire-Keeps l now h = expire_ind Keeps (λ k o kept. kept) now l h

  prune_sequence_loop-Keeps : (fuel : ℕ) (l : Ledger) → Keeps l → Keeps (prune_sequence_loop fuel l)
  unfolding prune_sequence_loop
  prune_sequence_loop-Keeps zero l h = h
  prune_sequence_loop-Keeps (suc fuel) l h =
      let marks = l.last_sequence_by_origin in
      elim (Bool-cases (ltb Rules.max_tracked_sequence_origins (length marks))) [
        | inr few ↦ rw (few, prune_sequence_loop) h
        | inl many ↦ elim (Option-cases (idle_origin marks l.join_basis_by_origin)) [
          | inl nothing ↦ rw (many, prune_sequence_loop, nothing) h
          | inr (o, found) ↦
              rw (many, prune_sequence_loop, found)
                (prune_sequence_loop-Keeps fuel
                  (record l { last_sequence_by_origin = Dict.delete o marks }) h)
        ]
      ]

  index_event-Keeps :
      (l : Ledger) (e : RoomEvent) (payload : Payload) → Keeps l → Keeps (index_event l e payload)
  unfolding index_event
  index_event-Keeps l e (hall_presence (join _ _ _)) h = h
  index_event-Keeps l e (hall_presence (heartbeat _ _)) h =
      elim (Bool-cases (Dict.has e.origin l.join_basis_by_origin)) [
        | inl old ↦ rw (old, index_event) h
        | inr new ↦ rw (new, index_event) h
      ]
  index_event-Keeps l e (hall_presence leave) h = h
  index_event-Keeps l e (hall_checkpoint _) h = h
  index_event-Keeps l e (chat_message _) h = h
  index_event-Keeps l e (room_sync_request _) h = h

  store_event-Keeps : (l : Ledger) (e : RoomEvent) → P e → Keeps l → Keeps (store_event l e)
  unfolding store_event prune prune_sequence_origins append_event
  store_event-Keeps l e p h =
      let indexed = index_event (append_event l e) e e.payload in
      let kept =
        index_event-Keeps (append_event l e) e e.payload
          (All-append P l.events (e ∷ []) h (p, tt)) in
      let marked = prune_sequence_origins indexed in
      let later = expire_presence_indexes marked e.issued_at in
      prune_loop-Keeps (length later.events) later (
        expire-Keeps marked e.issued_at
          (prune_sequence_loop-Keeps (length indexed.last_sequence_by_origin) indexed kept))

  module _ (engine : Engine) where
    answer-Keeps : (l : Ledger) (e : RoomEvent) → Keeps l → Keeps (answer engine l e).0
    unfolding answer snapshot
    answer-Keeps l e h = elim (Bool-cases (is_chat e.payload)) [
      | inl chat ↦ rw (chat, answer) (expire-Keeps l e.issued_at h)
      | inr other ↦ rw (other, answer) h
    ]

    -- After an event was accepted, each event that the ledger has is that one or one it had.
    pub accept-Keeps : (l : Ledger) (e : RoomEvent) → P e → Keeps l → Keeps (accept engine l e).0
    unfolding accept
    accept-Keeps l e p h =
        let later = expire_presence_indexes l e.issued_at in
        elim (Bool-cases (is_sync_request e.payload || Dict.has e.event_id l.seen_event_ids)) [
          | inl old ↦ rw (old, accept) h
          | inr new ↦ elim (Bool-cases (is_admissible engine later e)) [
            | inr refused ↦ rw (new, accept, refused) (expire-Keeps l e.issued_at h)
            | inl ok ↦
                rw (new, accept, ok)
                  (answer-Keeps (store_event later e) e
                    (store_event-Keeps later e p (expire-Keeps l e.issued_at h)))
          ]
        ]

    -- A ledger in its invariant, all of whose events are of a kind.
    pub IsLedger-IsClosed : IsClosed engine P (λ l. IsLedger l × Keeps l)
    IsLedger-IsClosed = record {
      expires = λ l now h. (expire-IsLedger l now h.0, expire-Keeps l now h.1);
      accepts = λ l e known h. (accept-IsLedger engine l e h.0, accept-Keeps l e known h.1);
    }
