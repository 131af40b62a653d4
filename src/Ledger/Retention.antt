-- ===== src/Ledger/Retention.antt =====
-- `prune` of src/network/room-events.ts and its protected events.
use dsh_carbonclub.Base.{
  ℕ, zero, suc, ◌-◌, ◌≤◌, ◌<◌, ◌≡◌, refl, sym, ◌∙◌, ap, inl, inr, Bool, true, false, not, String,
  Option, none, some, List, [], ◌∷◌, ◌++◌, map, length, length-append, length-drop, keep, last,
  same, same_iff, Bool-cases, Option-cases, ltb, arith,
}
use dsh_carbonclub.Base.Keys.{
  mem, mem-erase_ne, values, length-keys, length-values, IsWithin, pigeonhole,
}
use dsh_carbonclub.Rules
use dsh_carbonclub.Types.{RoomEvent}
use dsh_carbonclub.Ledger.Defs.{
  Ledger, is_chat, to_list, recent_chat_ids, take_first, choose_removed, drop_event, prune_loop,
  prune, expire_presence_indexes, protected_ids,
}
use dsh_carbonclub.Ledger.Indexes.{
  ids, IsIndexed, choose_removed-Takes, expire_ind, expire-IsIndexed,
}
use dsh_carbonclub.Ledger.Origins.{HasOrigins, forget_origin-HasOrigins}

length-map {ℓ κ} :
    {A : Type ℓ} {B : Type κ} (f : A → B) (xs : List A) → length (map f xs) ≡ length xs
length-map f [] = refl
length-map f (x ∷ xs) = ap suc (length-map f xs)

recent_chat_ids-le : (events : List RoomEvent) → length (recent_chat_ids events) ≤ 200
unfolding recent_chat_ids
recent_chat_ids-le events =
    let chats = keep (λ (e : RoomEvent). is_chat e.payload) events in
    omega (
      arith,
      length-map (λ (e : RoomEvent). e.event_id) (last 200 chats),
      length-drop (length chats - 200) chats,
    )

to_list-le : (o : Option String) → length (to_list o) ≤ 1
to_list-le none = omega arith
to_list-le (some id) = omega arith

-- At most 1701 ids are protected.
protected_ids-le : (l : Ledger) → HasOrigins l → length (protected_ids l) ≤ 1_701
unfolding protected_ids
protected_ids-le l v =
    let basis = l.join_basis_by_origin in
    let latest = l.latest_presence_by_origin in
    let checkpoint = to_list l.latest_checkpoint_event_id in
    let chats = recent_chat_ids l.events in
    omega (
      arith,
      length-append (values basis) (values latest ++ (checkpoint ++ chats)),
      length-append (values latest) (checkpoint ++ chats),
      length-append checkpoint chats,
      length-values basis,
      length-values latest,
      length-keys basis,
      length-keys latest,
      ap length v.paired,
      v.joined,
      to_list-le l.latest_checkpoint_event_id,
      recent_chat_ids-le l.events,
    )

module _ (kept : List String) where
  abbrev is_free : RoomEvent → Bool
  is_free e = not (mem e.event_id kept)

  take_first-none :
      (events : List RoomEvent) → take_first is_free events ≡ none → IsWithin (ids events) kept
  unfolding take_first
  take_first-none [] h = tt
  take_first-none (e ∷ events) h = ground (arith, take_first-none events)

  take_first-is_free :
      (events : List RoomEvent) {r : RoomEvent} {rest : List RoomEvent}
      → take_first is_free events ≡ some (r, rest)
      → mem r.event_id kept ≡ false
  unfolding take_first
  take_first-is_free [] h = absurd (cc)
  take_first-is_free (e ∷ events) h = elim (Option-cases (take_first is_free events)) [
    | inl nothing ↦ ground arith
    | inr ((r', rest'), found) ↦ ground (arith, take_first-is_free events found)
  ]

length-ids : (events : List RoomEvent) → length (ids events) ≡ length events
length-ids [] = refl
length-ids (e ∷ events) = ap suc (length-ids events)

-- Where there are more events than protected ids, the one that is removed is not protected.
choose_removed-is_free :
    (l : Ledger) {r : RoomEvent} {rest : List RoomEvent}
    → IsIndexed l
    → HasOrigins l
    → Rules.max_retained_events < length l.events
    → choose_removed l ≡ some (r, rest)
    → mem r.event_id (protected_ids l) ≡ false
unfolding choose_removed
choose_removed-is_free l v o many h =
    let kept = protected_ids l in
    elim (Option-cases (take_first (is_free kept) l.events)) [
      | inl nothing ↦ absurd (
          omega (
            arith,
            protected_ids-le l o,
            length-ids l.events,
            pigeonhole (ids l.events) kept v.distinct (take_first-none kept l.events nothing),
          ))
      | inr (found, e) ↦ take_first-is_free kept l.events (e ∙ rw (e, choose_removed) at h)
    ]

-- Where the events fit, the loop removes nothing.
settled :
    (fuel : ℕ) (l : Ledger) (id : String)
    → length l.events ≤ Rules.max_retained_events
    → mem id (ids l.events) ≡ true
    → mem id (ids (prune_loop fuel l).events) ≡ true
unfolding prune_loop
settled zero l id few there = there
settled (suc fuel) l id few there =
    let fits : ltb Rules.max_retained_events (length l.events) ≡ false = ground arith in
    rw (fits, prune_loop) there

-- One event too many: the loop removes one event, and no protected one.
prune_loop-keeps :
    (fuel : ℕ) (l : Ledger) (id : String)
    → IsIndexed l
    → HasOrigins l
    → length l.events ≤ suc Rules.max_retained_events
    → mem id (protected_ids l) ≡ true
    → mem id (ids l.events) ≡ true
    → mem id (ids (prune_loop fuel l).events) ≡ true
unfolding prune_loop
prune_loop-keeps zero l id v o few kept there = there
prune_loop-keeps (suc fuel) l id v o few kept there =
    elim (Bool-cases (ltb Rules.max_retained_events (length l.events))) [
      | inr fits ↦ rw (fits, prune_loop) there
      | inl many ↦ elim (Option-cases (choose_removed l)) [
        | inl nothing ↦ rw (many, prune_loop, nothing) there
        | inr ((r, rest), found) ↦
            let t = choose_removed-Takes l v found in
            let free = choose_removed-is_free l v o (ground arith) found in
            let other : same r.event_id id ≡ false = ground (arith, same_iff r.event_id id) in
            rw (many, prune_loop, found)
              (settled fuel (drop_event l r rest) id (omega (arith, t.shorter))
                (rw (sym t.erased, mem-erase_ne r.event_id id (ids l.events) other) there))
      ]
    ]

-- Where the ledger holds one event more than it may (as after `accept` has appended one), `prune`
-- keeps every protected event: the join basis and the latest presence of each origin that is left
-- when presences have expired, the latest checkpoint, and the last 200 chat messages.
pub prune-keeps :
    (l : Ledger) (now : ℕ) (id : String)
    → IsIndexed l
    → HasOrigins l
    → length l.events ≤ suc Rules.max_retained_events
    → mem id (protected_ids (expire_presence_indexes l now)) ≡ true
    → mem id (ids l.events) ≡ true
    → mem id (ids (prune l now).events) ≡ true
unfolding prune
prune-keeps l now id v o few kept there =
    let later = expire_presence_indexes l now in
    let unchanged : later.events ≡ l.events =
      expire_ind (λ k. k.events ≡ l.events) (λ k p e. e) now l refl in
    prune_loop-keeps (length later.events) later id (expire-IsIndexed l now v)
      (expire_ind HasOrigins forget_origin-HasOrigins now l o) (rw unchanged few) kept
      (rw unchanged there)
