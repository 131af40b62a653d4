-- ===== src/Relay/Defs.antt =====
-- The two handlers of the relay, scripts/community-relay.mjs: of gossip, and of the sync protocol. The
-- script's variables are the state `Relay`; a time is what `Date.now()` is read as.
use mathlib.Core.Option.{get_or}
use dsh_carbonclub.Base.{
  ℕ, ◌+◌, ◌-◌, Bool, true, false, ◌&&◌, ◌||◌, not, String, Option, none, some, List, [], ◌∷◌, ◌++◌,
  length, leb, ltb, ◌==◌, same, if◌then◌else◌,
}
use dsh_carbonclub.Base.Result.{Result, ok, err, ◌>>=◌, ◌>>◌, guard, from_option}
use dsh_carbonclub.Base.Dict.{Dict}
use dsh_carbonclub.Base.Dict
use dsh_carbonclub.Rules
use dsh_carbonclub.Types.{RoomEvent}
use dsh_carbonclub.Codec.{Bytes}
use dsh_carbonclub.Ledger.Defs.{Ledger, new_ledger}
use dsh_carbonclub.Ledger.Calls.{accept, events_for_sync}
use dsh_carbonclub.Verify.Values.{property, is_undefined}
use dsh_carbonclub.Node.Limits.{
  Window, window_ms, is_over, fresh_window, sweep, has_id_length, sweep_sync,
}
use dsh_carbonclub.Transport.Defs.{Wire, Gossip, hall_topic, max_event_bytes, verify_event}
use dsh_carbonclub.Transport.Sync.{
  max_request_bytes, max_sync_bytes, answer_value, gather, is_envelope, is_request_for,
}

abbrev pub max_pending : ℕ
max_pending = 256

abbrev pub max_inbound_origins : ℕ
max_inbound_origins = 1_500

abbrev pub max_sync_origins : ℕ
max_sync_origins = 2_000

abbrev pub max_syncs_per_minute : ℕ
max_syncs_per_minute = 60

-- `pending` has the tasks that are counted by `pendingVerifications`, each with its bytes.
pub record Relay : Type 0 where
  pub peer_id : String
  pub ledger : Ledger
  pub sync_windows : Dict ℕ
  pub inbound_windows : Dict Window
  pub global_sync_window : Window
  pub pending_verifications : ℕ
  pub pending : List Bytes

unfoldable pub new_relay : String → Relay
new_relay peer_id = record {
  peer_id = peer_id;
  ledger = new_ledger;
  sync_windows = [];
  inbound_windows = [];
  global_sync_window = record { started_at = 0; count = 0 };
  pending_verifications = 0;
  pending = [];
}

pub data RelayError : Type 0 where
  rate_limited origin_budget bad_request bad_signed_request global_budget too_large : RelayError

-- The origins' windows after a message, and whether it is let through; `most` is 120.
unfoldable pub count_message : ℕ → Dict Window → String → ℕ → Dict Window × Bool
unfolding sweep
count_message most windows origin now =
    let swept = sweep now windows in
    elim (Dict.get origin windows) [
      | none ↦
          if leb max_inbound_origins (length swept)
          then (swept, false)
          else (Dict.set origin (fresh_window now) swept, true)
      | some w ↦
          if is_over now w
          then (Dict.set origin (fresh_window now) swept, true)
          else if leb most w.count
          then (windows, false)
          else (Dict.set origin (record w { count = w.count + 1 }) windows, true)
    ]

-- `if (inboundWindows.size > 1_500)`, the loop once more.
abbrev pub sweep_many : ℕ → Dict Window → Dict Window
sweep_many now windows =
    if ltb max_inbound_origins (length windows) then sweep now windows else windows

-- The windows of the peers' syncs, with the errors of the handler's first tests.
unfoldable pub count_sync : Dict ℕ → String → ℕ → Dict ℕ × Option RelayError
unfolding sweep_sync
count_sync windows peer now =
    let swept = sweep_sync now windows in
    if ltb now (get_or (Dict.get peer windows) 0 + window_ms)
    then (windows, some rate_limited)
    else if not (Dict.has peer swept) && leb max_sync_origins (length swept)
    then (swept, some origin_budget)
    else (Dict.set peer now swept, none)

-- `if (now - globalSyncWindow.startedAt >= 60_000)`, a new window.
unfoldable pub global_window : Window → ℕ → Window
global_window w now = if is_over now w then record { started_at = now; count = 0 } else w

module _ (wire : Wire) where
  -- The listener of 'message'.
  unfoldable pub hear : Relay → Gossip → ℕ → Relay
  unfolding count_message has_id_length sweep
  hear r message now =
      let origin = get_or message.signed_by "" in
      if not (same message.topic hall_topic)
        || ltb max_event_bytes (length message.contents)
        || leb max_pending r.pending_verifications
        || not (has_id_length wire.outside.text_length origin)
      then r
      else let counted = count_message 120 r.inbound_windows origin now in
        if counted.1
        then record r {
          inbound_windows = sweep_many now counted.0;
          pending_verifications = r.pending_verifications + 1;
          pending = r.pending ++ message.contents ∷ [];
        }
        else record r { inbound_windows = counted.0 }

  -- What a pending task does with the ledger.
  unfoldable pub verify_task : Ledger → Bytes → ℕ → Ledger
  unfolding verify_event accept
  verify_task l contents now = elim (wire.parse contents) [
    | none ↦ l
    | some value ↦ elim (verify_event wire value now false) [
      | none ↦ l
      | some e ↦ (accept wire.engine l e).0
    ]
  ]

  -- A task ends, the others are left; tasks may end in any order.
  unfoldable pub end_verification : Relay → Bytes → List Bytes → ℕ → Relay
  unfolding verify_task
  end_verification r contents rest now = record r {
    ledger = verify_task r.ledger contents now;
    pending_verifications = r.pending_verifications - 1;
    pending = rest;
  }

  -- The request of a peer, from the bytes of its stream.
  unfoldable pub signed_request : Bytes → String → String → ℕ → Result RelayError RoomEvent
  unfolding is_envelope verify_event is_request_for
  signed_request contents peer own now = do
    value ← from_option (wire.parse contents) bad_signed_request
    guard (is_envelope value && not (is_undefined (property "request" value))) bad_signed_request
    e ← from_option (verify_event wire (property "request" value) now false) bad_signed_request
    guard (is_request_for peer own e e.payload) bad_signed_request
    ok e

  unfoldable pub relay_request : List Bytes → String → String → ℕ → Result RelayError RoomEvent
  unfolding gather signed_request
  relay_request chunks peer own now = do
    contents ← from_option (gather max_request_bytes [] chunks) bad_request
    guard (not (length contents == 0)) bad_request
    signed_request contents peer own now

  -- The handler behind the request, which it counts against the budget of all.
  unfoldable pub serve :
      Relay → Result RelayError RoomEvent → ℕ → ℕ → Relay × Result RelayError Bytes
  unfolding global_window events_for_sync answer_value
  serve r (err e) now later = (r, err e)
  serve r (ok request) now later =
      let w = global_window r.global_sync_window now in
      let synced = events_for_sync wire.engine r.ledger Rules.max_sync_events later in
      let contents = wire.print (answer_value wire synced.1) in
      if leb max_syncs_per_minute w.count
      then (record r { global_sync_window = w }, err global_budget)
      else (
        record r { global_sync_window = record w { count = w.count + 1 }; ledger = synced.0 },
        if ltb max_sync_bytes (length contents) then err too_large else ok contents,
      )

  -- What follows the first tests.
  abbrev pub serve_unless :
      Relay
      → Option RelayError
      → Result RelayError RoomEvent
      → ℕ
      → ℕ
      → Relay × Result RelayError Bytes
  serve_unless r (some e) request now later = (r, err e)
  serve_unless r none request now later = serve r request now later

  -- The handler of the sync protocol; the request is verified, and the events are chosen, later.
  unfoldable pub relay_sync : Relay → String → List Bytes → ℕ → ℕ → Relay × Result RelayError Bytes
  unfolding count_sync relay_request serve
  relay_sync r peer chunks now later =
      let counted = count_sync r.sync_windows peer now in
      serve_unless (record r { sync_windows = counted.0 }) counted.1
        (relay_request chunks peer r.peer_id later) now later
