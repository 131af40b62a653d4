-- ===== src/Node/Recalled.antt =====
-- That the peer which `rememberPeer` of src/network/node.ts adds is not the one it forgets.
use dsh_carbonclub.Base.{
  ℕ, zero, suc, ◌+◌, ◌≤◌, ◌<◌, ◌≡◌, ◌⊎◌, inl, inr, refl, Bool, true, false, String, some, List, [],
  ◌∷◌, keep, take, length, ltb, same, same_iff, same_self, arith, All, Bool-cases, Option-cases,
  some_injective,
}
use dsh_carbonclub.Base.Dict.{Dict}
use dsh_carbonclub.Base.Dict
use dsh_carbonclub.Base.Keys.{mem, keys, values, AllDistinct}
use dsh_carbonclub.Base.Sort.{
  sort_by, IsOrder, IsSorted, sort_by-IsSorted, total-sort_by, All-sort_by,
}
use dsh_carbonclub.Base.Total.{total, one_if}
use dsh_carbonclub.Node.Peers.{
  RememberedPeer, max_remembered_peers, older, first, forget_oldest, is_nil, remember_peer, IsKeyed,
  IsKeyed-delete, IsKeyed-set,
}

-- The map of remembered peers at a time: each under its own id, no id twice, and all of them remembered
-- before.
pub record IsEarlier (now : ℕ) (m : Dict RememberedPeer) : Type 0 where
  pub keyed : IsKeyed m
  pub distinct : AllDistinct (keys m)
  pub before : All (λ (p : RememberedPeer). p.remembered_at < now) (values m)

older-IsOrder : IsOrder older
older-IsOrder = record { asym = λ x y h. ground arith; chain = λ x y z h g. ground arith }

module _ (new : RememberedPeer) where
  -- Other peers, which were remembered before the new one.
  abbrev AreOld : Dict RememberedPeer → Type 0
  AreOld [] = Unit
  AreOld ((k, p) ∷ m) =
      (same k new.peer_id ≡ false) × (p.remembered_at < new.remembered_at) × AreOld m

  -- The new peer, among others that were remembered before.
  abbrev IsNewest : Dict RememberedPeer → Type 0
  IsNewest [] = ⊥
  IsNewest ((k, p) ∷ m) =
      ((same k new.peer_id ≡ true) × (p ≡ new) × AreOld m)
      ⊎ ((same k new.peer_id ≡ false) × (p.remembered_at < new.remembered_at) × IsNewest m)

  get-IsNewest : (m : Dict RememberedPeer) → IsNewest m → Dict.get new.peer_id m ≡ some new
  unfolding Dict.get
  get-IsNewest [] h = elim h [ ]
  get-IsNewest ((k, p) ∷ m) (inl (own, new_one, old)) = rw (own, new_one) refl
  get-IsNewest ((k, p) ∷ m) (inr (other, before, rest)) = rw other (get-IsNewest m rest)

  AreOld-delete : (k : String) (m : Dict RememberedPeer) → AreOld m → AreOld (Dict.delete k m)
  unfolding Dict.delete
  AreOld-delete k [] h = tt
  AreOld-delete k ((j, p) ∷ m) h = elim (Bool-cases (same j k)) [
    | inl own ↦ rw own (h.2)
    | inr other ↦ rw other (h.0, h.1, AreOld-delete k m h.2)
  ]

  IsNewest-delete :
      (k : String) (m : Dict RememberedPeer)
      → same k new.peer_id ≡ false
      → IsNewest m
      → IsNewest (Dict.delete k m)
  unfolding Dict.delete
  IsNewest-delete k [] other h = elim h [ ]
  IsNewest-delete k ((j, p) ∷ m) other (inl (own, new_one, old)) =
      let apart : same j k ≡ false =
        ground (arith, other, own, same_iff j k, same_iff j new.peer_id, same_self new.peer_id) in
      rw apart (inl (own, new_one, AreOld-delete k m old))
  IsNewest-delete k ((j, p) ∷ m) other (inr (apart, before, rest)) = elim (Bool-cases (same j k)) [
    | inl own ↦ rw own rest
    | inr left ↦ rw left (inr (apart, before, IsNewest-delete k m other rest))
  ]

  AreOld-lem :
      (m : Dict RememberedPeer)
      → mem new.peer_id (keys m) ≡ false
      → All (λ (p : RememberedPeer). p.remembered_at < new.remembered_at) (values m)
      → AreOld m
  unfolding mem keys values
  AreOld-lem [] absent before = tt
  AreOld-lem ((k, p) ∷ m) absent before =
      (ground (arith, absent), before.0, AreOld-lem m (ground (arith, absent)) before.1)

  set-IsNewest :
      (m : Dict RememberedPeer)
      → AllDistinct (keys m)
      → All (λ (p : RememberedPeer). p.remembered_at < new.remembered_at) (values m)
      → IsNewest (Dict.set new.peer_id new m)
  unfolding Dict.set keys values
  set-IsNewest [] d before = inl (same_self new.peer_id, refl, tt)
  set-IsNewest ((k, p) ∷ m) d before = elim (Bool-cases (same k new.peer_id)) [
    | inl own ↦
        let e = (same_iff k new.peer_id).0 own in
        let absent : mem new.peer_id (keys m) ≡ false = rw e at d.0 in
        rw own (inl (same_self new.peer_id, refl, AreOld-lem m absent before.1))
    | inr other ↦ rw other (inr (other, before.0, set-IsNewest m d.1 before.1))
  ]

  abbrev is_before : RememberedPeer → Bool
  is_before p = ltb p.remembered_at new.remembered_at

  length-AreOld :
      (m : Dict RememberedPeer) → AreOld m → length m ≡ total (one_if is_before) (values m)
  unfolding total values
  length-AreOld [] h = refl
  length-AreOld ((k, p) ∷ m) h = ground (arith, h.1, length-AreOld m h.2)

  length-IsNewest :
      (m : Dict RememberedPeer) → IsNewest m → length m ≤ 1 + total (one_if is_before) (values m)
  unfolding total values
  length-IsNewest [] h = elim h [ ]
  length-IsNewest ((k, p) ∷ m) (inl (own, new_one, old)) = ground (arith, length-AreOld m old)
  length-IsNewest ((k, p) ∷ m) (inr (other, before, rest)) =
      ground (arith, before, length-IsNewest m rest)

  -- Under another id, or not remembered before.
  abbrev IsApart : RememberedPeer → Type 0
  IsApart p = (same p.peer_id new.peer_id ≡ false) ⊎ (new.remembered_at ≤ p.remembered_at)

  AreOld-All : (m : Dict RememberedPeer) → IsKeyed m → AreOld m → All IsApart (values m)
  unfolding values
  AreOld-All [] keyed h = tt
  AreOld-All ((k, p) ∷ m) keyed h = (inl (rw (keyed.0) (h.0)), AreOld-All m keyed.1 h.2)

  IsNewest-All : (m : Dict RememberedPeer) → IsKeyed m → IsNewest m → All IsApart (values m)
  unfolding values
  IsNewest-All [] keyed h = elim h [ ]
  IsNewest-All ((k, p) ∷ m) keyed (inl (own, new_one, old)) =
      (inr (rw new_one (omega arith)), AreOld-All m keyed.1 old)
  IsNewest-All ((k, p) ∷ m) keyed (inr (other, before, rest)) =
      (inl (rw (keyed.0) other), IsNewest-All m keyed.1 rest)

  none-before :
      (p : RememberedPeer) (peers : List RememberedPeer)
      → new.remembered_at ≤ p.remembered_at
      → All (λ (q : RememberedPeer). older q p ≡ false) peers
      → total (one_if is_before) peers ≡ 0
  unfolding total
  none-before p [] late all = refl
  none-before p (q ∷ peers) late all = ground (arith, late, all.0, none-before p peers late all.1)

  first-IsApart_in :
      (peers : List RememberedPeer) (p : RememberedPeer)
      → All IsApart peers
      → IsSorted older peers
      → 1 ≤ total (one_if is_before) peers
      → first peers ≡ some p
      → same p.peer_id new.peer_id ≡ false
  unfolding total
  first-IsApart_in [] p apart sorted some_old found = absurd (cc)
  first-IsApart_in (q ∷ peers) p apart sorted some_old found =
      let e : q ≡ p = some_injective found in
      rw (← e) (elim (apart.0) [
        | inl other ↦ other
        | inr late ↦ absurd (ground (arith, late, some_old, none-before q peers late sorted.0))
      ])

  -- The peer that is forgotten is another one.
  first-IsApart :
      (m : Dict RememberedPeer) (p : RememberedPeer)
      → IsKeyed m
      → IsNewest m
      → ltb max_remembered_peers (length m) ≡ true
      → first (sort_by older (values m)) ≡ some p
      → same p.peer_id new.peer_id ≡ false
  first-IsApart m p keyed newest many found =
      first-IsApart_in (sort_by older (values m)) p
        (All-sort_by IsApart older (values m) (IsNewest-All m keyed newest))
        (sort_by-IsSorted older (values m) older-IsOrder)
        (ground (
          arith,
          many,
          length-IsNewest m newest,
          total-sort_by older (one_if is_before) (values m),
        ))
        found

  forget_oldest-IsNewest :
      (fuel : ℕ) (m : Dict RememberedPeer)
      → IsKeyed m
      → IsNewest m
      → IsNewest (forget_oldest fuel m)
  unfolding forget_oldest
  forget_oldest-IsNewest zero m keyed newest = newest
  forget_oldest-IsNewest (suc fuel) m keyed newest =
      elim (Bool-cases (ltb max_remembered_peers (length m))) [
        | inr few ↦ rw (few, forget_oldest) newest
        | inl many ↦ elim (Option-cases (first (sort_by older (values m)))) [
          | inl nothing ↦ rw (many, forget_oldest, nothing) newest
          | inr (p, found) ↦
              rw (many, forget_oldest, found)
                (forget_oldest-IsNewest fuel (Dict.delete p.peer_id m)
                  (IsKeyed-delete p.peer_id m keyed)
                  (IsNewest-delete p.peer_id m (first-IsApart m p keyed newest many found) newest))
        ]
      ]

is_nil-take :
    (addresses : List String) → is_nil addresses ≡ false → is_nil (take 4 addresses) ≡ false
is_nil-take [] h = h
is_nil-take (a ∷ addresses) h = h

-- A peer that is remembered later than all before is there afterwards, with the first four of its
-- addresses that are allowed.
pub get-remember_peer :
    (is_allowed : String → String → Bool) (remembered : Dict RememberedPeer) (peer : String)
    (addresses : List String) (now : ℕ)
    → IsEarlier now remembered
    → is_nil (keep (λ (address : String). is_allowed address peer) addresses) ≡ false
    → Dict.get peer (remember_peer is_allowed remembered peer addresses now)
      ≡ some (record {
        peer_id = peer;
        addresses = take 4 (keep (λ (address : String). is_allowed address peer) addresses);
        remembered_at = now;
      })
unfolding remember_peer
get-remember_peer is_allowed remembered peer addresses now v some_allowed =
    let allowed = keep (λ (address : String). is_allowed address peer) addresses in
    let new : RememberedPeer = record {
      peer_id = peer;
      addresses = take 4 allowed;
      remembered_at = now;
    } in
    let added = Dict.set peer new remembered in
    rw (is_nil-take allowed some_allowed, remember_peer)
      (get-IsNewest new (forget_oldest (length added) added) (
        forget_oldest-IsNewest new (length added) added
          (IsKeyed-set peer new remembered refl v.keyed)
          (set-IsNewest new remembered v.distinct v.before)))
