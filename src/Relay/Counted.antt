-- ===== src/Relay/Counted.antt =====
-- How the relay of scripts/community-relay.mjs counts the syncs that it answers, against their times.
use dsh_carbonclub.Base.{
  ℕ, false, ◌+◌, ◌≤◌, ◌<◌, ◌≡◌, List, [], ◌∷◌, All, Bool-cases, inl, inr, leb, arith,
}
use dsh_carbonclub.Base.Total.{total, one_if}
use dsh_carbonclub.Node.Limits.{Window, window_ms, is_over}
use dsh_carbonclub.Relay.Defs.{max_syncs_per_minute, global_window}

-- The answers from the start of a window on are counted in it, within its limit; and no answer was
-- given after its minute.
pub record IsCounted (w : Window) (times : List ℕ) : Type 0 where
  pub counted : total (one_if (leb w.started_at)) times ≤ w.count
  pub few : w.count ≤ max_syncs_per_minute
  pub within : All (λ (t : ℕ). t < w.started_at + window_ms) times

total-before :
    (start : ℕ) (times : List ℕ)
    → All (λ (t : ℕ). t < start) times
    → total (one_if (leb start)) times ≡ 0
unfolding total
total-before start [] h = omega arith
total-before start (t ∷ times) h = ground (arith, h.0, total-before start times h.1)

All-before :
    (a b : ℕ) (times : List ℕ) → a ≤ b → All (λ (t : ℕ). t < a) times → All (λ (t : ℕ). t < b) times
All-before a b [] h all = tt
All-before a b (t ∷ times) h all = (omega (arith, h, all.0), All-before a b times h all.1)

-- A new window begins where the last one is over, behind all answers.
pub global_window-IsCounted :
    (w : Window) (now : ℕ) (times : List ℕ)
    → IsCounted w times
    → IsCounted (global_window w now) times × (now < (global_window w now).started_at + window_ms)
unfolding global_window
global_window-IsCounted w now times v = elim (Bool-cases (is_over now w)) [
  | inl over ↦
      let behind : w.started_at + window_ms ≤ now = ground (arith, over) in
      let all = All-before (w.started_at + window_ms) now times behind v.within in
      rw (over, global_window)
        (
          record {
            counted = omega (arith, total-before now times all);
            few = omega arith;
            within = All-before now (now + window_ms) times (omega arith) all;
          },
          omega arith,
        )
  | inr still ↦ rw (still, global_window) (v, ground (arith, still))
]

-- An answer that is counted.
pub count-IsCounted :
    (w : Window) (now : ℕ) (times : List ℕ)
    → IsCounted w times
    → now < w.started_at + window_ms
    → leb max_syncs_per_minute w.count ≡ false
    → IsCounted (record w { count = w.count + 1 }) (now ∷ times)
unfolding total
count-IsCounted w now times v in_time free = record {
  counted = ground (arith, v.counted);
  few = ground (arith, free);
  within = (in_time, v.within);
}

-- A call that is counted and not answered.
pub skip-IsCounted :
    (w : Window) (times : List ℕ)
    → IsCounted w times
    → leb max_syncs_per_minute w.count ≡ false
    → IsCounted (record w { count = w.count + 1 }) times
skip-IsCounted w times v free = record {
  counted = omega (arith, v.counted);
  few = ground (arith, free);
  within = v.within;
}
