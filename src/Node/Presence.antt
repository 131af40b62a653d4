-- ===== src/Node/Presence.antt =====
-- How often a seated node joins again: the heartbeat timer of src/network/node.ts calls `joinHall`,
-- which asks `presenceActionFor` and notes the time of a join.
use dsh_carbonclub.Base.{ℕ, ◌+◌, ◌≤◌, ◌<◌, ◌/◌, ◌≡◌, true, List, [], ◌∷◌, arith, ◌⊎◌}
use dsh_carbonclub.Rules
use dsh_carbonclub.Node.Peers.{join, heartbeat, presence_action_for}

abbrev pub presence_heartbeat_ms : ℕ
presence_heartbeat_ms = 45_000

-- `if (action === 'join') this.lastJoinAt = now`, with a local presence.
unfoldable pub last_join_after : ℕ → ℕ → ℕ
unfolding presence_action_for
last_join_after last_join_at now = elim (presence_action_for true last_join_at now) [
  | join ↦ now
  | heartbeat ↦ last_join_at
]

unfoldable pub last_join_after_all : ℕ → List ℕ → ℕ
last_join_after_all last_join_at [] = last_join_at
last_join_after_all last_join_at (now ∷ nows) =
    last_join_after_all (last_join_after last_join_at now) nows

-- Each call comes at most one heartbeat period after the one before it, the first one after `at`.
abbrev pub IsBeating : ℕ → List ℕ → Type 0
IsBeating at [] = Unit
IsBeating at (now ∷ nows) = (at ≤ now) × (now ≤ at + presence_heartbeat_ms) × IsBeating now nows

abbrev pub last_of : ℕ → List ℕ → ℕ
last_of at [] = at
last_of at (now ∷ nows) = last_of now nows

last_join_after-cases :
    (last_join_at now : ℕ)
    → (last_join_after last_join_at now ≡ now)
      ⊎ ((last_join_after last_join_at now ≡ last_join_at)
          × (now < last_join_at + Rules.presence_ttl_ms / 2))
unfolding last_join_after
last_join_after-cases last_join_at now = ground arith

-- Where a joined node calls `joinHall` every 45 seconds or sooner and its last join is less than a
-- minute old at the start, one heartbeat period after any of its calls is still within two minutes
-- (the presence time) of its last join.
pub last_join-remembered :
    (last_join_at at : ℕ) (nows : List ℕ)
    → at < last_join_at + Rules.presence_ttl_ms / 2
    → IsBeating at nows
    → last_of at nows + presence_heartbeat_ms
      < last_join_after_all last_join_at nows + Rules.presence_ttl_ms
unfolding last_join_after_all
last_join-remembered last_join_at at [] h b = omega arith
last_join-remembered last_join_at at (now ∷ nows) h b =
    last_join-remembered (last_join_after last_join_at now) now nows
      (ground (arith, last_join_after-cases last_join_at now)) b.2
