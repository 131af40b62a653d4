-- ===== src/Node/Grants.antt =====
-- What the rate limits of src/network/node.ts let pass, and the size of their maps.
use dsh_carbonclub.Base.{
  ℕ, ◌+◌, ◌-◌, ◌*◌, ◌≤◌, ◌<◌, ◌≡◌, refl, Bool, true, false, not, ◌&&◌, String, some, List, [], ◌∷◌,
  length, ltb, same, same_iff, same_self, if◌then◌else◌, arith, length-keep-le, Option-cases,
  Bool-cases, inl, inr, All,
}
use dsh_carbonclub.Base.Dict.{Dict, length-set, length-keep-lt, get-keep, get-set, has-get}
use dsh_carbonclub.Base.Dict
use dsh_carbonclub.Node.Limits.{
  window_ms, max_rate_limit_origins, max_sync_rate_limit_origins, Window, is_over, sweep,
  fresh_window, has_id_length, allow_window, sweep_sync, allow_sync,
}

module _ (text_length : String → ℕ) (limit : ℕ) where
  -- The map of windows, where it holds at most 1024 origins, holds no more after any call.
  pub allow_window-bounded :
      (windows : Dict Window) (origin : String) (now : ℕ)
      → length windows ≤ max_rate_limit_origins
      → length (allow_window text_length limit windows origin now).0 ≤ max_rate_limit_origins
  unfolding allow_window
  allow_window-bounded windows origin now h = elim (Bool-cases (has_id_length text_length origin)) [
    | inr odd ↦ rw (odd, allow_window) h
    | inl fits ↦ elim (Option-cases (Dict.get origin windows)) [
      | inl e ↦
          rw (fits, allow_window, e)
            (ground (
              arith,
              length-keep-le (λ (entry : String × Window). not (is_over now entry.1)) windows,
              length-set origin (fresh_window now) (sweep now windows),
            ))
      | inr (w, e) ↦ elim (Bool-cases (is_over now w)) [
        | inl over ↦
            rw (fits, allow_window, e, over)
              (ground (
                arith,
                length-keep-lt (λ (entry : String × Window). not (is_over now entry.1)) origin w
                    windows e,
                length-set origin (fresh_window now) (sweep now windows),
              ))
        | inr open_still ↦
            rw (fits, allow_window, e, open_still)
              (ground (
                arith,
                has-get origin w windows e,
                length-set origin (record w { count = w.count + 1 }) windows,
                length-keep-le (λ (entry : String × Window). not (is_over now entry.1))
                    (Dict.set origin (record w { count = w.count + 1 }) windows),
              ))
      ]
    ]
  ]

  -- How many calls for one origin are answered with yes, in a run of calls for any origins.
  unfoldable pub granted : String → Dict Window → List (String × ℕ) → ℕ
  granted o windows [] = 0
  granted o windows ((origin, now) ∷ calls) =
      let r = allow_window text_length limit windows origin now in
      (if same origin o && r.1 then 1 else 0) + granted o r.0 calls

  -- The window that a call finds open it leaves open, one call fuller if it was its own.
  abbrev Counts : String → Window → Dict Window × Bool → Bool → Type 0
  Counts o w r mine =
      (count : ℕ) × (Dict.get o r.0 ≡ some (record w { count = count }))
      × ((if mine && r.1 then 1 else 0) + (limit - count) ≤ limit - w.count)

  swept-get :
      (windows : Dict Window) (o : String) (w : Window) (now : ℕ)
      → Dict.get o windows ≡ some w
      → now < w.started_at + window_ms
      → Dict.get o (sweep now windows) ≡ some w
  unfolding sweep
  swept-get windows o w now e before =
      get-keep (λ (entry : String × Window). not (is_over now entry.1)) o w windows e (ground arith)

  own_call-Counts :
      (windows : Dict Window) (o : String) (w : Window) (now : ℕ)
      → Dict.get o windows ≡ some w
      → now < w.started_at + window_ms
      → Counts o w (allow_window text_length limit windows o now) true
  unfolding allow_window
  own_call-Counts windows o w now e before = elim (Bool-cases (has_id_length text_length o)) [
    | inr odd ↦ rw (odd, allow_window) (w.count, e, omega arith)
    | inl fits ↦
        let still : is_over now w ≡ false = ground arith in
        let w' = record w { count = w.count + 1 } in
        let found : Dict.get o (Dict.set o w' windows) ≡ some w' =
          ground (arith, get-set o o w' windows, same_self o) in
        rw (fits, allow_window, e, still)
          (
            w.count + 1,
            ground (arith, found, swept-get (Dict.set o w' windows) o w' now found before),
            ground arith,
          )
  ]

  other_call :
      (windows : Dict Window) (o : String) (w : Window) (origin : String) (now : ℕ)
      → Dict.get o windows ≡ some w
      → now < w.started_at + window_ms
      → same origin o ≡ false
      → Dict.get o (allow_window text_length limit windows origin now).0 ≡ some w
  unfolding allow_window
  other_call windows o w origin now e before other =
      let swept = swept-get windows o w now e before in
      elim (Bool-cases (has_id_length text_length origin)) [
        | inr odd ↦ rw (odd, allow_window) e
        | inl fits ↦ elim (Option-cases (Dict.get origin windows)) [
          | inl missing ↦
              rw (fits, allow_window, missing)
                (ground (arith, swept, get-set origin o (fresh_window now) (sweep now windows)))
          | inr (x, found) ↦
              let x' = record x { count = x.count + 1 } in
              let kept : Dict.get o (Dict.set origin x' windows) ≡ some w =
                ground (arith, get-set origin o x' windows) in
              rw (fits, allow_window, found)
                (ground (
                  arith,
                  kept,
                  swept,
                  get-set origin o (fresh_window now) (sweep now windows),
                  swept-get (Dict.set origin x' windows) o w now kept before,
                ))
        ]
      ]

  allow_window-Counts :
      (windows : Dict Window) (o : String) (w : Window) (origin : String) (now : ℕ)
      → Dict.get o windows ≡ some w
      → now < w.started_at + window_ms
      → Counts o w (allow_window text_length limit windows origin now) (same origin o)
  allow_window-Counts windows o w origin now e before = elim (Bool-cases (same origin o)) [
    | inl own ↦ rw (own, (same_iff origin o).0 own) (own_call-Counts windows o w now e before)
    | inr other ↦
        (w.count, other_call windows o w origin now e before other, rw other (omega arith))
  ]

  -- While an origin's window is open (the calls come within a minute of its start), no more calls
  -- are answered with yes than its limit still leaves, whatever calls come for other origins.
  pub granted-le :
      (o : String) (w : Window) (windows : Dict Window) (calls : List (String × ℕ))
      → Dict.get o windows ≡ some w
      → All (λ (call : String × ℕ). call.1 < w.started_at + window_ms) calls
      → granted o windows calls ≤ limit - w.count
  unfolding granted
  granted-le o w windows [] e h = omega arith
  granted-le o w windows ((origin, now) ∷ calls) e h =
      let (count, found, step) = allow_window-Counts windows o w origin now e h.0 in
      omega (
        arith,
        step,
        granted-le o (record w { count = count })
            (allow_window text_length limit windows origin now).0 calls found h.1,
      )

-- How many syncs of one origin are answered with yes, in a run of calls for any origins.
unfoldable pub synced : String → Dict ℕ → List (String × ℕ) → ℕ
synced o windows [] = 0
synced o windows ((origin, now) ∷ calls) =
    let r = allow_sync windows origin now in
    (if same origin o && r.1 then 1 else 0) + synced o r.0 calls

sync_keeps :
    (windows : Dict ℕ) (o : String) (t : ℕ) (origin : String) (now : ℕ)
    → Dict.get o windows ≡ some t
    → now < t + window_ms
    → (Dict.get o (allow_sync windows origin now).0 ≡ some t)
      × ((same origin o && (allow_sync windows origin now).1) ≡ false)
unfolding allow_sync
sync_keeps windows o t origin now e before =
    let swept : Dict.get o (sweep_sync now windows) ≡ some t =
      get-keep (λ (entry : String × ℕ). not (ltb (entry.1 + 2 * window_ms) now)) o t windows e
        (ground arith) in
    elim (Bool-cases (same origin o)) [
      | inl own ↦
          rw ((same_iff origin o).0 own, swept, allow_sync) (ground (arith, swept), ground arith)
      | inr other ↦
          (ground (arith, swept, get-set origin o now (sweep_sync now windows)), rw other refl)
    ]

-- The map of sync times, where it holds at most 128 origins, holds no more after any call.
pub allow_sync-bounded :
    (windows : Dict ℕ) (origin : String) (now : ℕ)
    → length windows ≤ max_sync_rate_limit_origins
    → length (allow_sync windows origin now).0 ≤ max_sync_rate_limit_origins
unfolding allow_sync
allow_sync-bounded windows origin now h = ground (
  arith,
  length-keep-le (λ (entry : String × ℕ). not (ltb (entry.1 + 2 * window_ms) now)) windows,
  length-set origin now (sweep_sync now windows),
)

-- Once a sync of an origin was allowed at time `t`, none of its calls within the next minute is,
-- whatever calls come for other origins.
pub synced-zero :
    (o : String) (t : ℕ) (windows : Dict ℕ) (calls : List (String × ℕ))
    → Dict.get o windows ≡ some t
    → All (λ (call : String × ℕ). call.1 < t + window_ms) calls
    → synced o windows calls ≡ 0
unfolding synced
synced-zero o t windows [] e h = refl
synced-zero o t windows ((origin, now) ∷ calls) e h =
    let kept = sync_keeps windows o t origin now e h.0 in
    rw kept.1 (omega (arith, synced-zero o t (allow_sync windows origin now).0 calls kept.0 h.1))
