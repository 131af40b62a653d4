-- ===== src/Ledger/Origins.antt =====
-- The ledger's indexes by origin: join bases, latest presences, high-water marks.
use dsh_carbonclub.Base.{
  ℕ, zero, suc, ◌+◌, ◌≤◌, ◌<◌, ◌≡◌, refl, inl, inr, true, false, String, none, some, List, [], ◌∷◌,
  length, same_iff, same_self, Bool-cases, Option-cases, ltb, arith,
}
use dsh_carbonclub.Base.Dict.{Dict, length-set, length-delete}
use dsh_carbonclub.Base.Dict
use dsh_carbonclub.Base.Keys.{
  mem, erase, AllDistinct, AllDistinct-snoc, AllDistinct-erase, keys, length-keys, has-keys,
  keys-delete, keys-set, IsWithin, pigeonhole,
}
use dsh_carbonclub.Rules
use dsh_carbonclub.Types.{
  join, heartbeat, leave, Payload, chat_message, hall_presence, hall_checkpoint, room_sync_request,
  RoomEvent,
}
use dsh_carbonclub.Ledger.Defs.{
  Ledger, new_ledger, is_join, forget_origin, prune_sequence_loop, prune_sequence_origins,
  idle_origin,
}
use dsh_carbonclub.Ledger.Accept.{index_event, append_event}

pub record HasOrigins (l : Ledger) : Type 0 where
  pub paired : keys l.latest_presence_by_origin ≡ keys l.join_basis_by_origin
  pub joined : length l.join_basis_by_origin ≤ Rules.max_tracked_join_origins
  pub marked : AllDistinct (keys l.last_sequence_by_origin)

pub new_ledger-HasOrigins : HasOrigins new_ledger
unfolding keys
new_ledger-HasOrigins = record { paired = refl; joined = omega arith; marked = tt }

pub forget_origin-HasOrigins :
    (l : Ledger) (o : String) → HasOrigins l → HasOrigins (forget_origin l o)
forget_origin-HasOrigins l o v = record {
  paired =
      rw
        (keys-delete o l.latest_presence_by_origin, keys-delete o l.join_basis_by_origin, v.paired);
  joined = ground (arith, v.joined, length-delete o l.join_basis_by_origin);
  marked = v.marked;
}

mem-erase_self : (k : String) (ks : List String) → AllDistinct ks → mem k (erase k ks) ≡ false
unfolding mem erase
mem-erase_self k [] d = refl
mem-erase_self k (j ∷ ks) d = ground (arith, same_iff j k, mem-erase_self k ks d.1)

pub append_event-HasOrigins :
    (l : Ledger) (e : RoomEvent) → HasOrigins l → HasOrigins (append_event l e)
unfolding append_event
append_event-HasOrigins l e v = record {
  paired = v.paired;
  joined = v.joined;
  marked =
      let marks = l.last_sequence_by_origin in
      let gone = mem-erase_self e.origin (keys marks) v.marked in
      rw
        (
          keys-set e.origin e.sequence (Dict.delete e.origin marks),
          keys-delete e.origin marks,
          gone,
        )
        (AllDistinct-snoc (erase e.origin (keys marks)) e.origin
          (AllDistinct-erase e.origin (keys marks) v.marked) gone);
}

-- A join finds its basis, or room for one.
abbrev pub HasRoom : Ledger → String → Payload → Type 0
HasRoom l origin payload =
    is_join payload ≡ true
    → Dict.has origin l.join_basis_by_origin ≡ false
    → length l.join_basis_by_origin < Rules.max_tracked_join_origins

joined-HasOrigins :
    (l : Ledger) (o id : String)
    → (Dict.has o l.join_basis_by_origin ≡ false
        → length l.join_basis_by_origin < Rules.max_tracked_join_origins)
    → HasOrigins l
    → HasOrigins (record l {
      join_basis_by_origin = Dict.set o id l.join_basis_by_origin;
      latest_presence_by_origin = Dict.set o id l.latest_presence_by_origin;
    })
joined-HasOrigins l o id room v = record {
  paired =
      rw
        (keys-set o id l.latest_presence_by_origin, keys-set o id l.join_basis_by_origin, v.paired);
  joined = elim (Bool-cases (Dict.has o l.join_basis_by_origin)) [
    | inl old ↦ rw (length-set o id l.join_basis_by_origin, old) v.joined
    | inr new ↦ rw (length-set o id l.join_basis_by_origin, new) (room new)
  ];
  marked = v.marked;
}

pub index_event-HasOrigins :
    (l : Ledger) (e : RoomEvent) (payload : Payload)
    → HasRoom l e.origin payload
    → HasOrigins l
    → HasOrigins (index_event l e payload)
unfolding index_event
index_event-HasOrigins l e (hall_presence (join _ _ _)) room v =
    joined-HasOrigins l e.origin e.event_id (room refl) v
index_event-HasOrigins l e (hall_presence (heartbeat _ _)) room v =
    elim (Bool-cases (Dict.has e.origin l.join_basis_by_origin)) [
      | inl old ↦
          let known : mem e.origin (keys l.join_basis_by_origin) ≡ true =
            rw (has-keys e.origin l.join_basis_by_origin) at old in
          rw (old, index_event)
            (record {
              paired =
                  rw (keys-set e.origin e.event_id l.latest_presence_by_origin, v.paired, known);
              joined = v.joined;
              marked = v.marked;
            })
      | inr new ↦ rw (new, index_event) v
    ]
index_event-HasOrigins l e (hall_presence leave) room v = forget_origin-HasOrigins l e.origin v
index_event-HasOrigins l e (hall_checkpoint _) room v = record {
  paired = v.paired;
  joined = v.joined;
  marked = v.marked;
}
index_event-HasOrigins l e (chat_message _) room v = v
index_event-HasOrigins l e (room_sync_request _) room v = v

-- Where no origin is idle, every mark belongs to a join basis.
idle_origin-none :
    (marks : Dict ℕ) (basis : Dict String)
    → idle_origin marks basis ≡ none
    → IsWithin (keys marks) (keys basis)
unfolding idle_origin keys
idle_origin-none [] basis h = tt
idle_origin-none ((origin, n) ∷ marks) basis h =
    ground (arith, has-keys origin basis, idle_origin-none marks basis)

idle_origin-has :
    (marks : Dict ℕ) (basis : Dict String) {o : String}
    → idle_origin marks basis ≡ some o
    → Dict.has o marks ≡ true
unfolding idle_origin Dict.has
idle_origin-has [] basis h = absurd (cc)
idle_origin-has ((origin, n) ∷ marks) basis {o} h =
    ground (arith, same_self origin, idle_origin-has marks basis {o = o})

unmark-HasOrigins :
    (l : Ledger) (o : String)
    → HasOrigins l
    → HasOrigins (record l { last_sequence_by_origin = Dict.delete o l.last_sequence_by_origin })
unmark-HasOrigins l o v = record {
  paired = v.paired;
  joined = v.joined;
  marked =
      rw (keys-delete o l.last_sequence_by_origin)
        (AllDistinct-erase o (keys l.last_sequence_by_origin) v.marked);
}

-- The loop keeps the indexes, and ends with at most 1500 marks.
prune_sequence_loop-HasOrigins :
    (fuel : ℕ) (l : Ledger)
    → length l.last_sequence_by_origin ≤ Rules.max_tracked_sequence_origins + fuel
    → HasOrigins l
    → HasOrigins (prune_sequence_loop fuel l)
      × (length (prune_sequence_loop fuel l).last_sequence_by_origin
          ≤ Rules.max_tracked_sequence_origins)
unfolding prune_sequence_loop
prune_sequence_loop-HasOrigins zero l h v = (v, omega arith)
prune_sequence_loop-HasOrigins (suc fuel) l h v =
    let marks = l.last_sequence_by_origin in
    elim (Bool-cases (ltb Rules.max_tracked_sequence_origins (length marks))) [
      | inr few ↦ rw (few, prune_sequence_loop) (v, ground arith)
      | inl many ↦ elim (Option-cases (idle_origin marks l.join_basis_by_origin)) [
        | inl nothing ↦
            rw (many, prune_sequence_loop, nothing)
              (
                v,
                omega (
                  arith,
                  v.joined,
                  length-keys marks,
                  length-keys l.join_basis_by_origin,
                  pigeonhole (keys marks) (keys l.join_basis_by_origin) v.marked
                      (idle_origin-none marks l.join_basis_by_origin nothing),
                ),
              )
        | inr (o, found) ↦
            rw (many, prune_sequence_loop, found)
              (prune_sequence_loop-HasOrigins fuel
                (record l { last_sequence_by_origin = Dict.delete o marks })
                (ground (
                  arith,
                  length-delete o marks,
                  idle_origin-has marks l.join_basis_by_origin found,
                ))
                (unmark-HasOrigins l o v))
      ]
    ]

pub prune_sequence_origins-HasOrigins :
    (l : Ledger)
    → HasOrigins l
    → HasOrigins (prune_sequence_origins l)
      × (length (prune_sequence_origins l).last_sequence_by_origin
          ≤ Rules.max_tracked_sequence_origins)
unfolding prune_sequence_origins
prune_sequence_origins-HasOrigins l v =
    prune_sequence_loop-HasOrigins (length l.last_sequence_by_origin) l (omega arith) v
