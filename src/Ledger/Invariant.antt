-- ===== src/Ledger/Invariant.antt =====
-- The invariant of `RoomEventLedger` (src/network/room-events.ts) and its `accept`.
use dsh_carbonclub.Base.{
  ℕ, zero, suc, ◌≤◌, ◌≡◌, refl, inl, inr, true, false, ◌||◌, String, length, Bool-cases,
  Option-cases, ltb, arith,
}
use dsh_carbonclub.Base.Dict
use dsh_carbonclub.Rules
use dsh_carbonclub.Types.{
  join, heartbeat, leave, Payload, chat_message, hall_presence, hall_checkpoint, room_sync_request,
  RoomEvent,
}
use dsh_carbonclub.Ledger.Defs.{
  Ledger, new_ledger, is_chat, is_sync_request, forget_origin, choose_removed, drop_event,
  prune_loop, prune, expire_presence_indexes, prune_sequence_loop, prune_sequence_origins,
  idle_origin,
}
use dsh_carbonclub.Ledger.Snapshot.{snapshot}
use dsh_carbonclub.Ledger.Calls.{answer, accept}
use dsh_carbonclub.Ledger.Accept.{Engine, index_event, append_event, store_event, is_admissible}
use dsh_carbonclub.Ledger.Indexes.{
  IsIndexed, new_ledger-IsIndexed, append_event-IsIndexed, expire_ind, forget_origin-IsIndexed,
  prune-IsIndexed, prune-bounded,
}
use dsh_carbonclub.Ledger.Origins.{
  HasOrigins, HasRoom, new_ledger-HasOrigins, forget_origin-HasOrigins, append_event-HasOrigins,
  index_event-HasOrigins, prune_sequence_origins-HasOrigins,
}

pub record IsLedger (l : Ledger) : Type 0 where
  pub indexed : IsIndexed l
  pub origins : HasOrigins l
  pub bounded : length l.events ≤ Rules.max_retained_events
  pub tracked : length l.last_sequence_by_origin ≤ Rules.max_tracked_sequence_origins

pub new_ledger-IsLedger : IsLedger new_ledger
new_ledger-IsLedger = record {
  indexed = new_ledger-IsIndexed;
  origins = new_ledger-HasOrigins;
  bounded = omega arith;
  tracked = omega arith;
}

forget_origin-IsLedger : (l : Ledger) (o : String) → IsLedger l → IsLedger (forget_origin l o)
forget_origin-IsLedger l o v = record {
  indexed = forget_origin-IsIndexed l o v.indexed;
  origins = forget_origin-HasOrigins l o v.origins;
  bounded = v.bounded;
  tracked = v.tracked;
}

pub expire-IsLedger : (l : Ledger) (now : ℕ) → IsLedger l → IsLedger (expire_presence_indexes l now)
expire-IsLedger l now v = expire_ind IsLedger forget_origin-IsLedger now l v

pub index_event-IsIndexed :
    (l : Ledger) (e : RoomEvent) (payload : Payload)
    → IsIndexed l
    → IsIndexed (index_event l e payload)
unfolding index_event
index_event-IsIndexed l e (hall_presence (join _ _ _)) v = record {
  found = v.found;
  seen = v.seen;
  numbered = v.numbered;
  distinct = v.distinct;
}
index_event-IsIndexed l e (hall_presence (heartbeat _ _)) v =
    elim (Bool-cases (Dict.has e.origin l.join_basis_by_origin)) [
      | inl old ↦
          rw (old, index_event)
            (record {
              found = v.found;
              seen = v.seen;
              numbered = v.numbered;
              distinct = v.distinct;
            })
      | inr new ↦ rw (new, index_event) v
    ]
index_event-IsIndexed l e (hall_presence leave) v = record {
  found = v.found;
  seen = v.seen;
  numbered = v.numbered;
  distinct = v.distinct;
}
index_event-IsIndexed l e (hall_checkpoint _) v = record {
  found = v.found;
  seen = v.seen;
  numbered = v.numbered;
  distinct = v.distinct;
}
index_event-IsIndexed l e (chat_message _) v = v
index_event-IsIndexed l e (room_sync_request _) v = v

prune_sequence_loop-IsIndexed :
    (fuel : ℕ) (l : Ledger) → IsIndexed l → IsIndexed (prune_sequence_loop fuel l)
unfolding prune_sequence_loop
prune_sequence_loop-IsIndexed zero l v = v
prune_sequence_loop-IsIndexed (suc fuel) l v =
    let marks = l.last_sequence_by_origin in
    elim (Bool-cases (ltb Rules.max_tracked_sequence_origins (length marks))) [
      | inr few ↦ rw (few, prune_sequence_loop) v
      | inl many ↦ elim (Option-cases (idle_origin marks l.join_basis_by_origin)) [
        | inl nothing ↦ rw (many, prune_sequence_loop, nothing) v
        | inr (o, found) ↦
            rw (many, prune_sequence_loop, found)
              (prune_sequence_loop-IsIndexed fuel
                (record l { last_sequence_by_origin = Dict.delete o marks })
                (record {
                  found = v.found;
                  seen = v.seen;
                  numbered = v.numbered;
                  distinct = v.distinct;
                }))
      ]
    ]

-- The origins' part of the invariant, with the bound on the marks.
record IsTracked (l : Ledger) : Type 0 where
  origins : HasOrigins l
  tracked : length l.last_sequence_by_origin ≤ Rules.max_tracked_sequence_origins

forget_origin-IsTracked : (l : Ledger) (o : String) → IsTracked l → IsTracked (forget_origin l o)
forget_origin-IsTracked l o v = record {
  origins = forget_origin-HasOrigins l o v.origins;
  tracked = v.tracked;
}

prune_loop-IsTracked : (fuel : ℕ) (l : Ledger) → IsTracked l → IsTracked (prune_loop fuel l)
unfolding prune_loop
prune_loop-IsTracked zero l v = v
prune_loop-IsTracked (suc fuel) l v =
    elim (Bool-cases (ltb Rules.max_retained_events (length l.events))) [
      | inr few ↦ rw (few, prune_loop) v
      | inl many ↦ elim (Option-cases (choose_removed l)) [
        | inl nothing ↦ rw (many, prune_loop, nothing) v
        | inr ((r, rest), found) ↦
            let o = v.origins in
            rw (many, prune_loop, found)
              (prune_loop-IsTracked fuel (drop_event l r rest) (record {
                origins = record { paired = o.paired; joined = o.joined; marked = o.marked };
                tracked = v.tracked;
              }))
      ]
    ]

prune-IsTracked : (l : Ledger) (now : ℕ) → IsTracked l → IsTracked (prune l now)
unfolding prune
prune-IsTracked l now v =
    prune_loop-IsTracked (length (expire_presence_indexes l now).events)
      (expire_presence_indexes l now) (expire_ind IsTracked forget_origin-IsTracked now l v)

pub store_event-IsLedger :
    (l : Ledger) (e : RoomEvent)
    → Dict.has e.event_id l.seen_event_ids ≡ false
    → HasRoom l e.origin e.payload
    → IsLedger l
    → IsLedger (store_event l e)
unfolding store_event
store_event-IsLedger l e new room v =
    let appended = append_event l e in
    let indexed = index_event appended e e.payload in
    let origins =
      index_event-HasOrigins appended e e.payload room (append_event-HasOrigins l e v.origins) in
    let tracked = prune_sequence_origins-HasOrigins indexed origins in
    let ids =
      prune_sequence_loop-IsIndexed (length indexed.last_sequence_by_origin) indexed
        (index_event-IsIndexed appended e e.payload (append_event-IsIndexed l e new v.indexed)) in
    let kept =
      prune-IsTracked (prune_sequence_origins indexed) e.issued_at
        (record { origins = tracked.0; tracked = tracked.1 }) in
    record {
      indexed = prune-IsIndexed (prune_sequence_origins indexed) e.issued_at ids;
      origins = kept.origins;
      bounded = prune-bounded (prune_sequence_origins indexed) e.issued_at ids;
      tracked = kept.tracked;
    }

module _ (engine : Engine) where
  is_admissible-HasRoom :
      (l : Ledger) (e : RoomEvent) → is_admissible engine l e ≡ true → HasRoom l e.origin e.payload
  unfolding is_admissible
  is_admissible-HasRoom l e ok joins new = ground (arith, ok)

  seen-expire :
      (l : Ledger) (now : ℕ) → (expire_presence_indexes l now).seen_event_ids ≡ l.seen_event_ids
  seen-expire l now =
      expire_ind (λ k. k.seen_event_ids ≡ l.seen_event_ids) (λ k o same_ids. same_ids) now l refl

  answer-IsLedger : (l : Ledger) (e : RoomEvent) → IsLedger l → IsLedger (answer engine l e).0
  unfolding answer snapshot
  answer-IsLedger l e v = elim (Bool-cases (is_chat e.payload)) [
    | inl chat ↦ rw (chat, answer) (expire-IsLedger l e.issued_at v)
    | inr other ↦ rw (other, answer) v
  ]

  -- Accepting any event keeps the ledger's indexes in step with its event list (the ids seen, the
  -- events by id and the revisions are those of the events, whose ids are distinct), the latest
  -- presences and the join bases those of the same origins, and its bounds: 2200 events, 750 join
  -- bases, 1500 high-water marks.
  pub accept-IsLedger : (l : Ledger) (e : RoomEvent) → IsLedger l → IsLedger (accept engine l e).0
  unfolding accept
  accept-IsLedger l e v =
      let later = expire_presence_indexes l e.issued_at in
      let kept = expire-IsLedger l e.issued_at v in
      elim (Bool-cases (is_sync_request e.payload || Dict.has e.event_id l.seen_event_ids)) [
        | inl old ↦ rw (old, accept) v
        | inr new ↦ elim (Bool-cases (is_admissible engine later e)) [
          | inr refused ↦ rw (new, accept, refused) kept
          | inl ok ↦
              let unseen : Dict.has e.event_id l.seen_event_ids ≡ false = ground arith in
              rw (new, accept, ok)
                (answer-IsLedger (store_event later e) e (
                  store_event-IsLedger later e (rw (seen-expire l e.issued_at) unseen)
                    (is_admissible-HasRoom later e ok) kept))
        ]
      ]
