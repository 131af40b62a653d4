-- ===== src/Node/Examples.antt =====
-- Runs of the node's bookkeeping, and the theorems at small inputs.
use dsh_carbonclub.Base.{
  some, ℕ, ◌+◌, ◌-◌, ◌≤◌, ◌<◌, ◌≡◌, refl, true, String, List, [], ◌∷◌, keep, same, arith,
}
use dsh_carbonclub.Base.Dict
use dsh_carbonclub.Base.Keys.{values}
use dsh_carbonclub.Rules
use dsh_carbonclub.Hall.Defs.{has_participant}
use dsh_carbonclub.Hall.Derive.{derive}
use dsh_carbonclub.Hall.Examples.{no_order, event, joins}
use dsh_carbonclub.Ledger.Defs.{Ledger, new_ledger}
use dsh_carbonclub.Ledger.Snapshot.{snapshot}
use dsh_carbonclub.Node.Admitted.{is_admitted, is_admitted-snapshot}
use dsh_carbonclub.Node.Limits.{
  Window, allow_window, allow_inbound, sweep, sweep_sync, has_id_length,
}
use dsh_carbonclub.Node.Grants.{granted, granted-le, synced, synced-zero}
use dsh_carbonclub.Node.Peers.{RememberedPeer}
use dsh_carbonclub.Node.Presence.{
  presence_heartbeat_ms, last_of, last_join_after, last_join_after_all, last_join-remembered,
}

-- A length that lets every id pass.
abbrev id_length : String → ℕ
id_length text = 52

-- Ann's window is full but for one, Ben's is open.
abbrev windows : Dict.Dict Window
windows =
    ("ann", record { started_at = 1_000; count = 19 })
    ∷ ("ben", record { started_at = 2_000; count = 1 })
    ∷ []

abbrev calls : List (String × ℕ)
calls = ("ann", 3_000) ∷ ("ben", 4_000) ∷ ("ann", 5_000) ∷ ("cem", 6_000) ∷ ("ann", 60_999) ∷ []

program : Unit {0}
unfolding allow_window allow_inbound granted sweep sweep_sync has_id_length Dict.get Dict.has
    Dict.set keep same values last_join_after_all last_join_after
program = tt

windows_grants : granted id_length 20 "ann" windows calls ≡ 1
unfolding program
windows_grants = refl

-- Once the minute is over the origin is served again.
windows_over : (allow_inbound id_length windows "ann" 61_000).1 ≡ true
unfolding program
windows_over = refl

granted-le_example : granted id_length 20 "ann" windows calls ≤ 20 - 19
unfolding program
granted-le_example =
    granted-le id_length 20 "ann" (record { started_at = 1_000; count = 19 }) windows calls refl
      (omega arith, (omega arith, (omega arith, (omega arith, (omega arith, tt)))))

abbrev syncs : Dict.Dict ℕ
syncs = ("ann", 1_000) ∷ []

synced-zero_example : synced "ann" syncs (("ben", 2_000) ∷ ("ann", 60_000) ∷ []) ≡ 0
unfolding program
synced-zero_example =
    synced-zero "ann" 1_000 syncs (("ben", 2_000) ∷ ("ann", 60_000) ∷ []) refl
      (omega arith, (omega arith, tt))

abbrev remembered : Dict.Dict RememberedPeer
remembered =
    ("ann", record { peer_id = "ann"; addresses = "/dns4/a" ∷ []; remembered_at = 1_000 }) ∷ []

abbrev beats : List ℕ
beats = 45_000 ∷ 90_000 ∷ 135_000 ∷ []

-- The second heartbeat of a joined node is a join again.
beats_join : last_join_after_all 0 beats ≡ 90_000
unfolding program
beats_join = refl

last_join-remembered_example :
    last_of 0 beats + presence_heartbeat_ms < last_join_after_all 0 beats + Rules.presence_ttl_ms
last_join-remembered_example =
    last_join-remembered 0 0 beats (omega arith)
      (omega arith, omega arith, (omega arith, omega arith, (omega arith, omega arith, tt)))

-- A ledger with one join.
abbrev joined : Ledger
joined = record new_ledger {
  events = event "j1" "ann" 1 1_000 (joins "Ann" 1_000) ∷ [];
  revision = 1;
}

is_admitted-snapshot_example :
    is_admitted (snapshot no_order joined 2_000 (some "ann")).1 "ann"
    ≡ has_participant (derive no_order joined.events 2_000) "ann"
is_admitted-snapshot_example = is_admitted-snapshot no_order joined 2_000 "ann"
