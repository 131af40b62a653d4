-- ===== src/Node/Limits.antt =====
-- The inbound rate limits of src/network/node.ts: `allowInbound`, `allowTransportInbound`,
-- `allowSync`. Each returns the new map of windows and the answer. A text's `length` counts UTF-16
-- units and is a parameter.
use mathlib.Core.Option.{get_or}
use dsh_carbonclub.Base.{
  ℕ, ◌+◌, Bool, true, false, not, ◌&&◌, String, none, some, keep, length, ltb, leb, ◌*◌,
  if◌then◌else◌,
}
use dsh_carbonclub.Base.Dict.{Dict, length-set, length-delete}
use dsh_carbonclub.Base.Dict

abbrev pub window_ms : ℕ
window_ms = 60_000

abbrev pub max_rate_limit_origins : ℕ
max_rate_limit_origins = 1_024

abbrev pub max_sync_rate_limit_origins : ℕ
max_sync_rate_limit_origins = 128

pub record Window : Type 0 where
  pub started_at : ℕ
  pub count : ℕ

-- `now - window.startedAt >= 60_000`
abbrev pub is_over : ℕ → Window → Bool
is_over now w = leb (w.started_at + window_ms) now

-- The loop that deletes the windows that are over.
unfoldable pub sweep : ℕ → Dict Window → Dict Window
sweep now windows = keep (λ entry. not (is_over now entry.1)) windows

abbrev pub fresh_window : ℕ → Window
fresh_window now = record { started_at = now; count = 1 }

module _ (text_length : String → ℕ) where
  unfoldable pub has_id_length : String → Bool
  has_id_length origin = leb 16 (text_length origin) && leb (text_length origin) 160

  unfoldable pub allow_window : ℕ → Dict Window → String → ℕ → Dict Window × Bool
  unfolding sweep has_id_length
  allow_window limit windows origin now =
      if not (has_id_length origin) then (windows, false) else elim (Dict.get origin windows) [
        | none ↦
            let swept = sweep now windows in
            if leb max_rate_limit_origins (length swept)
            then (swept, false)
            else (Dict.set origin (fresh_window now) swept, true)
        | some w ↦
            if is_over now w
            then (Dict.set origin (fresh_window now) (sweep now windows), true)
            else (let counted = Dict.set origin (record w { count = w.count + 1 }) windows in
                (
                  if ltb 512 (length counted) then sweep now counted else counted,
                  leb (w.count + 1) limit,
                ))
      ]

  unfoldable pub allow_inbound : Dict Window → String → ℕ → Dict Window × Bool
  unfolding allow_window
  allow_inbound = allow_window 20

  unfoldable pub allow_transport_inbound : Dict Window → String → ℕ → Dict Window × Bool
  unfolding allow_window
  allow_transport_inbound = allow_window 120

-- The loop that deletes the entries of more than two minutes ago.
unfoldable pub sweep_sync : ℕ → Dict ℕ → Dict ℕ
sweep_sync now windows = keep (λ entry. not (ltb (entry.1 + 2 * window_ms) now)) windows

unfoldable pub allow_sync : Dict ℕ → String → ℕ → Dict ℕ × Bool
unfolding sweep_sync
allow_sync windows origin now =
    let swept = sweep_sync now windows in
    if ltb now (get_or (Dict.get origin swept) 0 + window_ms)
    then (swept, false)
    else if not (Dict.has origin swept) && leb max_sync_rate_limit_origins (length swept)
    then (swept, false)
    else (Dict.set origin now swept, true)
