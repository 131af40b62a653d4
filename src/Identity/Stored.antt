-- ===== src/Identity/Stored.antt =====
-- What src/network/identity.ts reads back of what it saved.
use dsh_carbonclub.Base.{
  ℕ, zero, suc, ◌≤◌, ◌≡◌, refl, sym, ap, ◌∙◌, Bool, true, false, String, Option, none, some, List,
  [], ◌∷◌, length, take, All, take_all, length-take, All-take, same, arith, subst,
}
use dsh_carbonclub.Base.Sort.{
  sort_by, IsSorted, Above, IsOrder, All-sort_by, sort_by-IsSorted, sort_by-sorted,
}
use dsh_carbonclub.Base.Result.{ok, from_option, ok_injective, bind-eq-ok, from_option-eq-ok}
use dsh_carbonclub.Verify.Values.{ℤ, pos, negsuc, Values, array, item, property, look_up, is_safe}
use dsh_carbonclub.Codec.{Codec}
use dsh_carbonclub.Identity.Defs.{
  StoredPeer, Credentials, invalid_identity, PrivateKeys, load_or_create_private_key,
  max_stored_peers, less_than, newer, newest, only_texts, texts_values, add_peer, read_peers,
  peer_value, peer_values, items_or_none, load_remembered_peers, save_remembered_peers,
}

less_than-asym : (m n : ℤ) → less_than m n ≡ true → less_than n m ≡ false
less_than-asym (pos m) (pos n) h = ground (arith, h)
less_than-asym (pos m) (negsuc n) h = absurd (cc)
less_than-asym (negsuc m) (pos n) h = refl
less_than-asym (negsuc m) (negsuc n) h = ground (arith, h)

-- What is not below the middle is not below what is below the middle.
less_than-chain : (m n o : ℤ) → less_than n m ≡ true → less_than n o ≡ false → less_than m o ≡ false
less_than-chain (pos m) (pos n) (pos o) h e = ground (arith, h, e)
less_than-chain (pos m) (pos n) (negsuc o) h e = refl
less_than-chain (pos m) (negsuc n) (pos o) h e = absurd (cc)
less_than-chain (pos m) (negsuc n) (negsuc o) h e = refl
less_than-chain (negsuc m) (pos n) o h e = absurd (cc)
less_than-chain (negsuc m) (negsuc n) (pos o) h e = absurd (cc)
less_than-chain (negsuc m) (negsuc n) (negsuc o) h e = ground (arith, h, e)

newer-IsOrder : IsOrder newer
newer-IsOrder = record {
  asym = λ x y. less_than-asym y.remembered_at x.remembered_at;
  chain = λ x y z. less_than-chain x.remembered_at y.remembered_at z.remembered_at;
}

-- A peer with one to four addresses, remembered at a safe integer.
pub record IsStored (peer : StoredPeer) : Type 0 where
  pub some_addresses : 1 ≤ length peer.addresses
  pub few_addresses : length peer.addresses ≤ 4
  pub safe : is_safe peer.remembered_at ≡ true

module _ {ℓ} {A : Type ℓ} where
  take-IsSorted :
      (less : A → A → Bool) (n : ℕ) (xs : List A) → IsSorted less xs → IsSorted less (take n xs)
  take-IsSorted less zero xs s = tt
  take-IsSorted less (suc n) [] s = tt
  take-IsSorted less (suc n) (x ∷ xs) s =
      (All-take (Above less x) n xs s.0, take-IsSorted less n xs s.1)

-- The newest of the newest are they, in their order.
newest-newest : (peers : List StoredPeer) → newest (newest peers) ≡ newest peers
unfolding newest
newest-newest peers =
    let sorted =
      take-IsSorted newer max_stored_peers (sort_by newer peers)
        (sort_by-IsSorted newer peers newer-IsOrder) in
    ap (take max_stored_peers)
      (sort_by-sorted newer (take max_stored_peers (sort_by newer peers)) sorted)
    ∙ take_all max_stored_peers (take max_stored_peers (sort_by newer peers))
        (length-take max_stored_peers (sort_by newer peers))

newest-All : (peers : List StoredPeer) → All IsStored peers → All IsStored (newest peers)
unfolding newest
newest-All peers ps =
    All-take IsStored max_stored_peers (sort_by newer peers) (All-sort_by IsStored newer peers ps)

only_texts-texts_values : (ts : List String) → only_texts (texts_values ts) ≡ ts
only_texts-texts_values [] = refl
only_texts-texts_values (t ∷ ts) = ap (λ (l : List String). t ∷ l) (only_texts-texts_values ts)

add_peer-some :
    (peer_id : String) (addresses : List String) (time : ℤ) (rest : List StoredPeer)
    → 1 ≤ length addresses
    → add_peer peer_id addresses time rest
      ≡ record { peer_id = peer_id; addresses = addresses; remembered_at = time } ∷ rest
add_peer-some peer_id [] time rest h = absurd (omega arith)
add_peer-some peer_id (a ∷ addresses) time rest h = refl

read_first :
    (peer : StoredPeer) (rest : Values)
    → IsStored peer
    → read_peers (item (peer_value peer) rest) ≡ peer ∷ read_peers rest
unfolding read_peers property look_up same
read_first peer rest s =
    let texts = only_texts-texts_values peer.addresses in
    let four = take_all 4 peer.addresses s.few_addresses in
    rw (s.safe, texts, four)
      (add_peer-some peer.peer_id peer.addresses peer.remembered_at (read_peers rest)
        s.some_addresses)

read_peers-peer_values :
    (peers : List StoredPeer) → All IsStored peers → read_peers (peer_values peers) ≡ peers
unfolding read_peers
read_peers-peer_values [] ps = refl
read_peers-peer_values (peer ∷ peers) ps =
    read_first peer (peer_values peers) ps.0
    ∙ ap (λ (l : List StoredPeer). peer ∷ l) (read_peers-peer_values peers ps.1)

module _ (codec : Codec) where
  -- What was saved of peers with one to four addresses, each remembered at a safe integer, loads as
  -- the 32 newest of them, newest first, where the text that was saved parses to its value.
  pub load-save_remembered_peers :
      (credentials : Credentials) (peers : List StoredPeer)
      → All IsStored peers
      → codec.parse (codec.stringify (array (peer_values (newest peers))))
        ≡ some (array (peer_values (newest peers)))
      → load_remembered_peers codec (save_remembered_peers codec credentials peers) ≡ newest peers
  unfolding load_remembered_peers save_remembered_peers items_or_none
  load-save_remembered_peers credentials peers stored parses = rw parses (
      ap newest (read_peers-peer_values (newest peers) (newest-All peers stored))
      ∙ newest-newest peers)

-- A second load of what a load left in the store.
abbrev Again : {Private : Type 0} → PrivateKeys Private → Private → Private × Credentials → Type 0
Again keys second loaded = load_or_create_private_key keys second loaded.1 ≡ ok loaded

load-Again :
    {Private : Type 0} (keys : PrivateKeys Private) (first second key : Private)
    (before after : Credentials) (identity : Option String)
    → before.identity ≡ identity
    → ((k : Private) → keys.from_text (keys.to_text k) ≡ some k)
    → load_or_create_private_key keys first before ≡ ok (key, after)
    → Again keys second (key, after)
unfolding load_or_create_private_key
load-Again {Private = Private} keys first second key before after none there reads h =
    let created : Private × Credentials =
      (first, record before { identity = some (keys.to_text first) }) in
    let e : created ≡ (key, after) = ok_injective (sym (rw there refl) ∙ h) in
    subst (Again keys second) e (rw (reads first) refl)
load-Again {Private = Private} keys first second key before after (some stored) there reads h =
    let (k, found, e) =
      bind-eq-ok (from_option (keys.from_text stored) invalid_identity) (λ k. ok (k, before))
        (sym (rw there refl) ∙ h) in
    subst (Again keys second) (ok_injective e) (rw (there, from_option-eq-ok _ _ found) refl)

-- A node that loads its private key twice has one key and leaves the store as the first load left it,
-- where a key's text reads back.
pub load_or_create_private_key-twice :
    {Private : Type 0} (keys : PrivateKeys Private) (first second key : Private)
    (before after : Credentials)
    → ((k : Private) → keys.from_text (keys.to_text k) ≡ some k)
    → load_or_create_private_key keys first before ≡ ok (key, after)
    → load_or_create_private_key keys second after ≡ ok (key, after)
load_or_create_private_key-twice keys first second key before after reads h =
    load-Again keys first second key before after before.identity refl reads h
