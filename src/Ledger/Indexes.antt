-- ===== src/Ledger/Indexes.antt =====
-- The ledger's indexes follow its event list: ids seen, events by id, revisions.
use dsh_carbonclub.Base.{
  ℕ, zero, suc, ◌+◌, ◌≤◌, ◌≡◌, refl, sym, ◌∙◌, ap, inl, inr, Bool, true, false, not, String, none,
  some, List, [], ◌∷◌, ◌++◌, length, same_iff, same_self, Bool-cases, Option-cases, ltb, arith,
}
use dsh_carbonclub.Base.Dict.{Dict}
use dsh_carbonclub.Base.Dict
use dsh_carbonclub.Base.Keys.{
  mem, erase, AllDistinct, AllDistinct-snoc, AllDistinct-erase, keys, has-keys, keys-delete,
  keys-set, set-new,
}
use dsh_carbonclub.Rules
use dsh_carbonclub.Types.{RoomEvent}
use dsh_carbonclub.Ledger.Defs.{
  Ledger, new_ledger, is_stale, forget_origin, expire_entries, expire_presence_indexes, take_first,
  take_head, choose_removed, drop_event, prune_loop, prune, protected_ids,
}
use dsh_carbonclub.Ledger.Accept.{append_event}

abbrev pub ids : List RoomEvent → List String
ids [] = []
ids (e ∷ events) = e.event_id ∷ ids events

abbrev pub by_id : List RoomEvent → Dict RoomEvent
by_id [] = []
by_id (e ∷ events) = (e.event_id, e) ∷ by_id events

pub record IsIndexed (l : Ledger) : Type 0 where
  pub found : l.event_by_id ≡ by_id l.events
  pub seen : keys l.seen_event_ids ≡ ids l.events
  pub numbered : keys l.revisions ≡ ids l.events
  pub distinct : AllDistinct (ids l.events)

pub new_ledger-IsIndexed : IsIndexed new_ledger
unfolding keys
new_ledger-IsIndexed = record { found = refl; seen = refl; numbered = refl; distinct = tt }

keys-by_id : (events : List RoomEvent) → keys (by_id events) ≡ ids events
unfolding keys
keys-by_id [] = refl
keys-by_id (e ∷ events) = ap (◌∷◌ e.event_id) (keys-by_id events)

ids-append : (xs ys : List RoomEvent) → ids (xs ++ ys) ≡ ids xs ++ ids ys
ids-append [] ys = refl
ids-append (x ∷ xs) ys = ap (◌∷◌ x.event_id) (ids-append xs ys)

by_id-append : (xs ys : List RoomEvent) → by_id (xs ++ ys) ≡ by_id xs ++ by_id ys
by_id-append [] ys = refl
by_id-append (x ∷ xs) ys = ap (◌∷◌ (x.event_id, x)) (by_id-append xs ys)

-- An event with a new id goes to the end of every index.
pub append_event-IsIndexed :
    (l : Ledger) (e : RoomEvent)
    → Dict.has e.event_id l.seen_event_ids ≡ false
    → IsIndexed l
    → IsIndexed (append_event l e)
unfolding append_event
append_event-IsIndexed l e new v =
    let fresh : mem e.event_id (ids l.events) ≡ false =
      rw (has-keys e.event_id l.seen_event_ids, v.seen) at new in
    record {
      found =
          rw (v.found, by_id-append l.events (e ∷ []))
            (set-new e.event_id e (by_id l.events)
              (has-keys e.event_id (by_id l.events) ∙ rw (keys-by_id l.events) fresh));
      seen =
          rw (keys-set e.event_id tt l.seen_event_ids, v.seen, fresh, ids-append l.events (e ∷ []));
      numbered = rw (
        keys-set e.event_id (l.revision + 1) l.revisions,
        v.numbered,
        fresh,
        ids-append l.events (e ∷ []),
      );
      distinct =
          rw (ids-append l.events (e ∷ []))
            (AllDistinct-snoc (ids l.events) e.event_id v.distinct fresh);
    }

-- One event is taken out of a list whose ids are distinct.
pub record Takes (events : List RoomEvent) (r : RoomEvent) (rest : List RoomEvent) : Type 0 where
  pub member : mem r.event_id (ids events) ≡ true
  pub deleted : Dict.delete r.event_id (by_id events) ≡ by_id rest
  pub erased : erase r.event_id (ids events) ≡ ids rest
  pub shorter : length events ≡ suc (length rest)

pub take_head-Takes :
    (events : List RoomEvent) {r : RoomEvent} {rest : List RoomEvent}
    → take_head events ≡ some (r, rest)
    → Takes events r rest
unfolding mem erase Dict.delete
take_head-Takes [] h = absurd (cc)
take_head-Takes (e ∷ events) h = ground (arith, same_self e.event_id)

pub take_first-Takes :
    (p : RoomEvent → Bool) (events : List RoomEvent) {r : RoomEvent} {rest : List RoomEvent}
    → AllDistinct (ids events)
    → take_first p events ≡ some (r, rest)
    → Takes events r rest
unfolding mem erase Dict.delete take_first
take_first-Takes p [] d h = absurd (cc)
take_first-Takes p (e ∷ events) d h = elim (Option-cases (take_first p events)) [
  | inl nothing ↦ ground (arith, same_self e.event_id)
  | inr ((r', rest'), found) ↦ ground (
    arith,
    same_self e.event_id,
    same_iff e.event_id r'.event_id,
    take_first-Takes p events d.1 found,
  )
]

pub choose_removed-Takes :
    (l : Ledger) {r : RoomEvent} {rest : List RoomEvent}
    → IsIndexed l
    → choose_removed l ≡ some (r, rest)
    → Takes l.events r rest
unfolding choose_removed
choose_removed-Takes l v h =
    let p = λ (e : RoomEvent). not (mem e.event_id (protected_ids l)) in
    elim (Option-cases (take_first p l.events)) [
      | inl nothing ↦ take_head-Takes l.events (rw (nothing, choose_removed) at h)
      | inr (found, e) ↦ take_first-Takes p l.events v.distinct (e ∙ rw (e, choose_removed) at h)
    ]

pub drop_event-IsIndexed :
    (l : Ledger) (r : RoomEvent) (rest : List RoomEvent)
    → Takes l.events r rest
    → IsIndexed l
    → IsIndexed (drop_event l r rest)
drop_event-IsIndexed l r rest t v = record {
  found = rw v.found t.deleted;
  seen = rw (keys-delete r.event_id l.seen_event_ids, v.seen) t.erased;
  numbered = rw (keys-delete r.event_id l.revisions, v.numbered) t.erased;
  distinct = rw (sym t.erased) (AllDistinct-erase r.event_id (ids l.events) v.distinct);
}

prune_loop-IsIndexed : (fuel : ℕ) (l : Ledger) → IsIndexed l → IsIndexed (prune_loop fuel l)
unfolding prune_loop
prune_loop-IsIndexed zero l v = v
prune_loop-IsIndexed (suc fuel) l v =
    elim (Bool-cases (ltb Rules.max_retained_events (length l.events))) [
      | inr few ↦ rw (few, prune_loop) v
      | inl many ↦ elim (Option-cases (choose_removed l)) [
        | inl nothing ↦ rw (many, prune_loop, nothing) v
        | inr ((r, rest), found) ↦
            rw (many, prune_loop, found)
              (prune_loop-IsIndexed fuel (drop_event l r rest)
                (drop_event-IsIndexed l r rest (choose_removed-Takes l v found) v))
      ]
    ]

-- Something can be removed from a list that is not empty.
take_head-none : (events : List RoomEvent) → take_head events ≡ none → events ≡ []
take_head-none [] h = refl
take_head-none (e ∷ events) h = absurd (cc)

choose_removed-total : (l : Ledger) → choose_removed l ≡ none → l.events ≡ []
unfolding choose_removed
choose_removed-total l h =
    let p = λ (e : RoomEvent). not (mem e.event_id (protected_ids l)) in
    elim (Option-cases (take_first p l.events)) [
      | inl nothing ↦ take_head-none l.events (rw (nothing, choose_removed) at h)
      | inr (found, e) ↦ absurd (cc (rw (e, choose_removed) at h))
    ]

-- Fuel for each event is enough: the loop ends with at most 2200 events.
prune_loop-bounded :
    (fuel : ℕ) (l : Ledger)
    → IsIndexed l
    → length l.events ≤ Rules.max_retained_events + fuel
    → length (prune_loop fuel l).events ≤ Rules.max_retained_events
unfolding prune_loop
prune_loop-bounded zero l v h = omega arith
prune_loop-bounded (suc fuel) l v h =
    elim (Bool-cases (ltb Rules.max_retained_events (length l.events))) [
      | inr few ↦ rw (few, prune_loop) (ground arith)
      | inl many ↦ elim (Option-cases (choose_removed l)) [
        | inl nothing ↦
            rw (many, prune_loop, nothing)
              (omega (arith, ap length (choose_removed-total l nothing)))
        | inr ((r, rest), found) ↦
            let t = choose_removed-Takes l v found in
            rw (many, prune_loop, found)
              (prune_loop-bounded fuel (drop_event l r rest) (drop_event-IsIndexed l r rest t v)
                (omega (arith, t.shorter)))
      ]
    ]

-- What forgetting an origin keeps, expiring presences keeps.
module _ {ℓ} (P : Ledger → Type ℓ) (keep : (l : Ledger) (o : String) → P l → P (forget_origin l o))
    (now : ℕ) where
  expire_entries_ind : (entries : Dict String) (l : Ledger) → P l → P (expire_entries now entries l)
  unfolding expire_entries
  expire_entries_ind [] l p = p
  expire_entries_ind ((origin, event_id) ∷ entries) l p =
      elim (Bool-cases (is_stale l now event_id)) [
        | inl stale ↦
            rw (stale, expire_entries)
              (expire_entries_ind entries (forget_origin l origin) (keep l origin p))
        | inr fresh ↦ rw (fresh, expire_entries) (expire_entries_ind entries l p)
      ]

  pub expire_ind : (l : Ledger) → P l → P (expire_presence_indexes l now)
  unfolding expire_presence_indexes
  expire_ind l p = expire_entries_ind l.latest_presence_by_origin l p

pub forget_origin-IsIndexed :
    (l : Ledger) (o : String) → IsIndexed l → IsIndexed (forget_origin l o)
forget_origin-IsIndexed l o v = record {
  found = v.found;
  seen = v.seen;
  numbered = v.numbered;
  distinct = v.distinct;
}

pub expire-IsIndexed :
    (l : Ledger) (now : ℕ) → IsIndexed l → IsIndexed (expire_presence_indexes l now)
expire-IsIndexed l now v = expire_ind IsIndexed forget_origin-IsIndexed now l v

pub prune-IsIndexed : (l : Ledger) (now : ℕ) → IsIndexed l → IsIndexed (prune l now)
unfolding prune
prune-IsIndexed l now v =
    prune_loop-IsIndexed (length (expire_presence_indexes l now).events)
      (expire_presence_indexes l now) (expire-IsIndexed l now v)

pub prune-bounded :
    (l : Ledger) (now : ℕ) → IsIndexed l → length (prune l now).events ≤ Rules.max_retained_events
unfolding prune
prune-bounded l now v =
    prune_loop-bounded (length (expire_presence_indexes l now).events)
      (expire_presence_indexes l now) (expire-IsIndexed l now v) (omega arith)
