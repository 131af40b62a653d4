-- ===== src/Node/Remembered.antt =====
-- How many peers a node remembers: `rememberPeer` of src/network/node.ts.
use dsh_carbonclub.Base.{
  ℕ, zero, suc, ◌+◌, ◌≤◌, ◌≡◌, refl, Bool, true, String, none, some, List, [], ◌∷◌, keep, take,
  length, ltb, same, same_iff, same_self, arith, Bool-cases, Option-cases, inl, inr,
}
use dsh_carbonclub.Base.Dict.{Dict, length-set, length-delete}
use dsh_carbonclub.Base.Dict
use dsh_carbonclub.Base.Keys.{values, length-values}
use dsh_carbonclub.Base.Sort.{sort_by, total-sort_by, length-sort_by}
use dsh_carbonclub.Base.Total.{total, one_if}
use dsh_carbonclub.Node.Peers.{
  RememberedPeer, max_remembered_peers, older, first, forget_oldest, is_nil, remember_peer, IsKeyed,
  IsKeyed-delete, IsKeyed-set,
}

abbrev is_named : String → RememberedPeer → Bool
is_named k p = same p.peer_id k

first-total :
    (peers : List RememberedPeer) (p : RememberedPeer)
    → first peers ≡ some p
    → 1 ≤ total (one_if (is_named p.peer_id)) peers
unfolding total
first-total [] p h = absurd (cc)
first-total (q ∷ peers) p h = ground (arith, same_self p.peer_id)

values-has :
    (k : String) (m : Dict RememberedPeer)
    → IsKeyed m
    → 1 ≤ total (one_if (is_named k)) (values m)
    → Dict.has k m ≡ true
unfolding total values Dict.has
values-has k [] v h = absurd (omega arith)
values-has k ((j, p) ∷ m) v h =
    ground (arith, same_iff p.peer_id k, same_iff j k, values-has k m v.1)

first-none : (peers : List RememberedPeer) → first peers ≡ none → length peers ≡ 0
first-none [] h = refl
first-none (p ∷ peers) h = absurd (cc)

forget_oldest-bounded :
    (fuel : ℕ) (m : Dict RememberedPeer)
    → IsKeyed m
    → length m ≤ max_remembered_peers + fuel
    → (length (forget_oldest fuel m) ≤ max_remembered_peers) × IsKeyed (forget_oldest fuel m)
unfolding forget_oldest
forget_oldest-bounded zero m v h = (omega arith, v)
forget_oldest-bounded (suc fuel) m v h =
    let sorted = sort_by older (values m) in
    elim (Bool-cases (ltb max_remembered_peers (length m))) [
      | inr few ↦ rw (few, forget_oldest) (ground arith, v)
      | inl many ↦ elim (Option-cases (first sorted)) [
        | inl nothing ↦ absurd (
            ground
              (arith, first-none sorted nothing, length-sort_by older (values m), length-values m))
        | inr (p, found) ↦
            let there = values-has p.peer_id m v (
              omega (
                arith,
                first-total sorted p found,
                total-sort_by older (one_if (is_named p.peer_id)) (values m),
              )) in
            rw (many, forget_oldest, found)
              (forget_oldest-bounded fuel (Dict.delete p.peer_id m) (IsKeyed-delete p.peer_id m v)
                (ground (arith, length-delete p.peer_id m, there)))
      ]
    ]

-- Remembering a peer, where a node remembers at most 32 peers, each under its own id, leaves at
-- most 32 peers, each under its own id.
pub remember_peer-bounded :
    (is_allowed : String → String → Bool) (remembered : Dict RememberedPeer) (peer : String)
    (addresses : List String) (now : ℕ)
    → length remembered ≤ max_remembered_peers
    → IsKeyed remembered
    → (length (remember_peer is_allowed remembered peer addresses now) ≤ max_remembered_peers)
      × IsKeyed (remember_peer is_allowed remembered peer addresses now)
unfolding remember_peer
remember_peer-bounded is_allowed remembered peer addresses now h v =
    let allowed = take 4 (keep (λ (address : String). is_allowed address peer) addresses) in
    let new : RememberedPeer = record {
      peer_id = peer;
      addresses = allowed;
      remembered_at = now;
    } in
    let added = Dict.set peer new remembered in
    elim (Bool-cases (is_nil allowed)) [
      | inl nothing ↦ rw (nothing, remember_peer) (h, v)
      | inr some_allowed ↦
          rw (some_allowed, remember_peer)
            (forget_oldest-bounded (length added) added (IsKeyed-set peer new remembered refl v)
              (omega arith))
    ]
