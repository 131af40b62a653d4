-- ===== src/Node/Peers.antt =====
-- What `CarbonClubNode` (src/network/node.ts) remembers of other peers and of itself:
-- `noteDiscovered`, `pruneDiscovered`, `rememberPeer`, `nextSequence`, `presenceActionFor`.
use dsh_carbonclub.Base.{
  ℕ, zero, suc, ◌+◌, ◌-◌, ◌*◌, ◌/◌, ◌≤◌, ◌≡◌, max, Bool, true, false, not, String, Option, none,
  some, List, [], ◌∷◌, keep, take, length, length-drop, last, ltb, leb, if◌then◌else◌, arith,
}
use dsh_carbonclub.Base.Dict.{Dict, length-set, length-delete, has-set, get-set}
use dsh_carbonclub.Base.Dict
use dsh_carbonclub.Base.Keys.{values}
use dsh_carbonclub.Base.Sort.{sort_by}
use dsh_carbonclub.Rules

abbrev pub discovery_ttl_ms : ℕ
discovery_ttl_ms = 30 * 60 * 1_000

abbrev pub max_discovered : ℕ
max_discovered = 512

-- `seenAt < now - DISCOVERY_TTL_MS` deletes.
unfoldable pub prune_discovered : Dict ℕ → ℕ → Dict ℕ
prune_discovered discovered now =
    keep (λ entry. not (ltb (entry.1 + discovery_ttl_ms) now)) discovered

-- The `while` loop deletes the first keys, so the last 512 entries stay.
unfoldable pub note_discovered : Dict ℕ → String → ℕ → Dict ℕ
unfolding prune_discovered
note_discovered discovered peer now =
    last max_discovered (prune_discovered (Dict.set peer now discovered) now)

pub record RememberedPeer : Type 0 where
  pub peer_id : String
  pub addresses : List String
  pub remembered_at : ℕ

abbrev pub max_remembered_peers : ℕ
max_remembered_peers = 32

abbrev pub older : RememberedPeer → RememberedPeer → Bool
older left right = ltb left.remembered_at right.remembered_at

-- The oldest, `undefined` where there is none.
abbrev pub first : List RememberedPeer → Option RememberedPeer
first [] = none
first (p ∷ peers) = some p

-- The `while` loop of `rememberPeer`, on fuel.
unfoldable pub forget_oldest : ℕ → Dict RememberedPeer → Dict RememberedPeer
forget_oldest zero remembered = remembered
forget_oldest (suc fuel) remembered = elim (ltb max_remembered_peers (length remembered)) [
  | false ↦ remembered
  | true ↦ elim (first (sort_by older (values remembered))) [
    | none ↦ remembered
    | some oldest ↦ forget_oldest fuel (Dict.delete oldest.peer_id remembered)
  ]
]

abbrev pub is_nil : List String → Bool
is_nil [] = true
is_nil (x ∷ xs) = false

-- Each round deletes a peer, so their number is fuel enough. `is_allowed` is `isAllowedAddress`.
unfoldable pub remember_peer :
    (String → String → Bool) → Dict RememberedPeer → String → List String → ℕ → Dict RememberedPeer
unfolding forget_oldest
remember_peer is_allowed remembered peer addresses now =
    let allowed = take 4 (keep (λ address. is_allowed address peer) addresses) in
    if is_nil allowed
    then remembered
    else (let added =
          Dict.set peer (record { peer_id = peer; addresses = allowed; remembered_at = now })
            remembered in
        forget_oldest (length added) added)

-- `Math.max(Math.floor(Date.now() * 1_000), this.localSequence + 1)`, at a whole millisecond.
unfoldable pub next_sequence : ℕ → ℕ → ℕ
next_sequence local_sequence now = max (now * 1_000) (local_sequence + 1)

pub data PresenceAction : Type 0 where
  join heartbeat : PresenceAction

abbrev pub hall_presence_refresh_ms : ℕ
hall_presence_refresh_ms = Rules.presence_ttl_ms / 2

-- `now - lastJoinAt >= HALL_PRESENCE_REFRESH_MS`
unfoldable pub presence_action_for : Bool → ℕ → ℕ → PresenceAction
presence_action_for has_presence last_join_at now =
    if not has_presence
    then join
    else if leb (last_join_at + hall_presence_refresh_ms) now
    then join
    else heartbeat

-- The map of discovered peers never holds more than 512 entries, whatever it held before.
pub note_discovered-bounded :
    (discovered : Dict ℕ) (peer : String) (now : ℕ)
    → length (note_discovered discovered peer now) ≤ max_discovered
unfolding note_discovered
note_discovered-bounded discovered peer now =
    let pruned = prune_discovered (Dict.set peer now discovered) now in
    omega (arith, length-drop (length pruned - 512) pruned)

-- Each key is its peer's own id, as `rememberPeer` and the constructor store it.
abbrev pub IsKeyed : Dict RememberedPeer → Type 0
IsKeyed [] = Unit
IsKeyed ((k, p) ∷ remembered) = (p.peer_id ≡ k) × IsKeyed remembered

pub IsKeyed-delete : (k : String) (m : Dict RememberedPeer) → IsKeyed m → IsKeyed (Dict.delete k m)
unfolding Dict.delete
IsKeyed-delete k [] h = tt
IsKeyed-delete k ((j, p) ∷ m) h = ground (arith, IsKeyed-delete k m h.1)

pub IsKeyed-set :
    (k : String) (p : RememberedPeer) (m : Dict RememberedPeer)
    → p.peer_id ≡ k
    → IsKeyed m
    → IsKeyed (Dict.set k p m)
unfolding Dict.set
IsKeyed-set k p [] e h = (e, tt)
IsKeyed-set k p ((j, q) ∷ m) e h = ground (arith, IsKeyed-set k p m e h.1)
