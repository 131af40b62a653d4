-- ===== src/Relay/Windows.antt =====
-- The windows that the relay of scripts/community-relay.mjs keeps of origins and of syncs.
use dsh_carbonclub.Base.{
  ℕ, ◌+◌, ◌*◌, ◌≤◌, not, String, length, length-keep-le, ltb, Bool-cases, Option-cases, inl, inr,
  arith,
}
use dsh_carbonclub.Base.Dict.{Dict, length-set, has-get, length-keep-lt}
use dsh_carbonclub.Base.Dict
use dsh_carbonclub.Node.Limits.{Window, window_ms, is_over, fresh_window, sweep, sweep_sync}
use dsh_carbonclub.Relay.Defs.{max_inbound_origins, max_sync_origins, count_message, count_sync}

pub count_message-bounded :
    (most : ℕ) (windows : Dict Window) (origin : String) (now : ℕ)
    → length windows ≤ max_inbound_origins
    → length (count_message most windows origin now).0 ≤ max_inbound_origins
unfolding count_message sweep
count_message-bounded most windows origin now few =
    let open_ones = λ (entry : String × Window). not (is_over now entry.1) in
    let swept = sweep now windows in
    let shorter = length-keep-le open_ones windows in
    elim (Option-cases (Dict.get origin windows)) [
      | inl new ↦
          rw (new, count_message)
            (ground (arith, few, shorter, length-set origin (fresh_window now) swept))
      | inr (w, found) ↦ elim (Bool-cases (is_over now w)) [
        | inl over ↦
            rw (found, count_message, over)
              (ground (
                arith,
                few,
                length-keep-lt open_ones origin w windows found (ground (arith, over)),
                length-set origin (fresh_window now) swept,
              ))
        | inr still ↦
            rw (found, count_message, still)
              (ground (
                arith,
                few,
                has-get origin w windows found,
                length-set origin (record w { count = w.count + 1 }) windows,
              ))
      ]
    ]

pub count_sync-bounded :
    (windows : Dict ℕ) (peer : String) (now : ℕ)
    → length windows ≤ max_sync_origins
    → length (count_sync windows peer now).0 ≤ max_sync_origins
unfolding count_sync sweep_sync
count_sync-bounded windows peer now few =
    let swept = sweep_sync now windows in
    ground (
      arith,
      few,
      length-keep-le (λ (entry : String × ℕ). not (ltb (entry.1 + 2 * window_ms) now)) windows,
      length-set peer now swept,
    )
