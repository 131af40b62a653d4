-- ===== src/Node/Waits.antt =====
-- What `allowSync` of src/network/node.ts grants and notes.
use dsh_carbonclub.Base.{
  ℕ, ◌≤◌, ◌≡◌, true, false, String, none, some, [], ltb, same_self, keep, Option, ◌∷◌, ◌+◌, arith,
}
use dsh_carbonclub.Node.Limits.{allow_sync, sweep_sync, window_ms}
use dsh_carbonclub.Base.Dict.{Dict, get-set}
use dsh_carbonclub.Base.Dict
use mathlib.Core.Option.{get_or}

-- A time that is at least a minute ago, if there is one.
abbrev pub IsPast : ℕ → Option ℕ → Type 0
IsPast now none = Unit
IsPast now (some last) = last + 60_000 ≤ now

swept-IsPast :
    (windows : Dict ℕ) (origin : String) (now : ℕ)
    → ltb now (get_or (Dict.get origin (sweep_sync now windows)) 0 + window_ms) ≡ false
    → IsPast now (Dict.get origin windows)
unfolding sweep_sync keep Dict.get
swept-IsPast [] origin now h = tt
swept-IsPast ((k, t) ∷ windows) origin now h = ground (arith, h, swept-IsPast windows origin now)

-- What is granted is a minute behind the last, and is noted.
pub allow_sync-IsPast :
    (windows : Dict ℕ) (origin : String) (now : ℕ)
    → (allow_sync windows origin now).1 ≡ true
    → IsPast now (Dict.get origin windows)
      × (Dict.get origin (allow_sync windows origin now).0 ≡ some now)
unfolding allow_sync
allow_sync-IsPast windows origin now h = ground (
  arith,
  h,
  swept-IsPast windows origin now,
  get-set origin origin now (sweep_sync now windows),
  same_self origin,
)
