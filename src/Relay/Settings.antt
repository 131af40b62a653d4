-- ===== src/Relay/Settings.antt =====
-- The two ceilings of scripts/community-relay.mjs and what the script does with their settings. What
-- `Number` reads a setting as is an argument.
use dsh_carbonclub.Base.{
  ℕ, ◌+◌, ◌≤◌, ◌≡◌, refl, min, max, ◌&&◌, Option, none, some, leb, ltb, if◌then◌else◌, arith,
  Option-cases, inl, inr, none_some, some_injective, subst, sym, ◌∙◌,
}
use dsh_carbonclub.Verify.Values.{ℤ, pos, negsuc}

-- A number of JavaScript: `between n` lies strictly between `n` and `n + 1`.
pub data Numeral : Type 0 where
  not_a_number infinity minus_infinity : Numeral
  integral between : ℤ → Numeral

-- `Math.min(high, Math.max(low, value))`, for two integers with the first at most the second.
unfoldable pub clamp : ℕ → ℕ → Numeral → Numeral
clamp low high not_a_number = not_a_number
clamp low high infinity = integral (pos high)
clamp low high minus_infinity = integral (pos (min high low))
clamp low high (integral (pos n)) = integral (pos (min high (max low n)))
clamp low high (integral (negsuc n)) = integral (pos (min high low))
clamp low high (between (pos n)) =
    if ltb n low
    then integral (pos (min high low))
    else if ltb n high
    then between (pos n)
    else integral (pos high)
clamp low high (between (negsuc n)) = integral (pos (min high low))

-- `Number.isInteger(value)`, and not below `low` nor above `high`; the integer.
unfoldable pub integer_within : ℕ → ℕ → Numeral → Option ℕ
integer_within low high (integral (pos n)) = if leb low n && leb n high then some n else none
integer_within low high _ = none

pub record Ceilings : Type 0 where
  pub max_reservations : ℕ
  pub max_connections : ℕ

-- The two tests throw where they fail. The second ceiling is read with the first, which is `NaN` or a
-- fraction only where the first test throws.
unfoldable pub read_connections : ℕ → Numeral → Option Ceilings
unfolding clamp integer_within
read_connections reservations connections =
    elim (integer_within reservations 2_000 (clamp (reservations + 64) 2_000 connections)) [
      | none ↦ none
      | some n ↦ some (record { max_reservations = reservations; max_connections = n })
    ]

unfoldable pub read_ceilings : Numeral → Numeral → Option Ceilings
unfolding clamp integer_within read_connections
read_ceilings reservations connections =
    elim (integer_within 1 1_000 (clamp 1 1_000 reservations)) [
      | none ↦ none
      | some n ↦ read_connections n connections
    ]

-- What is read of a setting is at least its floor and at most its ceiling.
clamped :
    (floor low high n : ℕ) (v : Numeral)
    → low ≤ high
    → integer_within floor high (clamp low high v) ≡ some n
    → (low ≤ n) × (n ≤ high)
unfolding integer_within clamp
clamped floor low high n not_a_number order h = absurd (cc)
clamped floor low high n infinity order h = ground (arith, h, order)
clamped floor low high n minus_infinity order h = ground (arith, h, order)
clamped floor low high n (integral (pos k)) order h = ground (arith, h, order)
clamped floor low high n (integral (negsuc k)) order h = ground (arith, h, order)
clamped floor low high n (between (pos k)) order h = ground (arith, h, order)
clamped floor low high n (between (negsuc k)) order h = ground (arith, h, order)

-- Where a relay starts, it takes from 1 to 1000 reservations and keeps from 64 more connections than
-- those up to 2000.
pub read_ceilings-bounded :
    (reservations connections : Numeral) (s : Ceilings)
    → read_ceilings reservations connections ≡ some s
    → (1 ≤ s.max_reservations)
      × (s.max_reservations ≤ 1_000)
      × (s.max_reservations + 64 ≤ s.max_connections)
      × (s.max_connections ≤ 2_000)
unfolding read_ceilings read_connections
read_ceilings-bounded reservations connections s h =
    elim (Option-cases (integer_within 1 1_000 (clamp 1 1_000 reservations))) [
      | inl refused ↦ none_some (rw (refused, read_ceilings) refl) h
      | inr (n, first) ↦
          let (low, high) = clamped 1 1 1_000 n reservations (omega arith) first in
          elim (Option-cases (integer_within n 2_000 (clamp (n + 64) 2_000 connections))) [
            | inl refused ↦ none_some (rw (first, read_ceilings, read_connections, refused) refl) h
            | inr (k, second) ↦
                let (more, few) =
                  clamped n (n + 64) 2_000 k connections (omega (arith, high)) second in
                let read : some (record { max_reservations = n; max_connections = k }) ≡ some s =
                  sym (rw (first, read_ceilings, read_connections, second) refl) ∙ h in
                subst
                  (λ (c : Ceilings).
                    (1 ≤ c.max_reservations)
                    × (c.max_reservations ≤ 1_000)
                    × (c.max_reservations + 64 ≤ c.max_connections)
                    × (c.max_connections ≤ 2_000))
                  (some_injective read) (low, high, more, few)
          ]
    ]
