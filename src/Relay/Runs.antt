-- ===== src/Relay/Runs.antt =====
-- The relay of scripts/community-relay.mjs under any messages, ends of tasks, syncs and health reports.
use mathlib.Core.Option.{get_or}
use dsh_carbonclub.Base.{
  ℕ, ◌+◌, ◌≤◌, ◌≡◌, ap, false, ◌||◌, not, String, Option, none, some, List, [], ◌∷◌, ◌++◌, length,
  length-append, leb, ltb, same, Bool-cases, Option-cases, inl, inr, arith,
}
use dsh_carbonclub.Base.Result.{Result, ok, err}
use dsh_carbonclub.Base.Total.{total}
use dsh_carbonclub.Rules
use dsh_carbonclub.Types.{RoomEvent}
use dsh_carbonclub.Codec.{Bytes}
use dsh_carbonclub.Ledger.Defs.{Ledger}
use dsh_carbonclub.Ledger.Calls.{events_for_sync, diagnostics}
use dsh_carbonclub.Ledger.Invariant.{IsLedger, new_ledger-IsLedger}
use dsh_carbonclub.Ledger.Sources.{IsClosed, Keeps, IsLedger-IsClosed}
use dsh_carbonclub.Verify.Values.{Value}
use dsh_carbonclub.Node.Limits.{Window, has_id_length}
use dsh_carbonclub.Transport.Defs.{Wire, Gossip, hall_topic, max_event_bytes, verify_event}
use dsh_carbonclub.Transport.Sync.{max_sync_bytes, answer_value}
use dsh_carbonclub.Transport.Answered.{IsVerified, verify_event-IsVerified}
use dsh_carbonclub.Relay.Defs.{
  Relay, RelayError, max_pending, max_inbound_origins, max_sync_origins, max_syncs_per_minute,
  new_relay, count_message, hear, verify_task, end_verification, count_sync, relay_request,
  global_window, serve, serve_unless, relay_sync,
}
use dsh_carbonclub.Relay.Counted.{
  IsCounted, global_window-IsCounted, count-IsCounted, skip-IsCounted,
}
use dsh_carbonclub.Relay.Windows.{count_message-bounded, count_sync-bounded}

module _ (wire : Wire) where
  -- An event that was verified, as no history.
  abbrev pub IsKnown : RoomEvent → Type 0
  IsKnown e = (value : Value) × (now : ℕ) × IsVerified wire value now false e

  abbrev pub IsSound : Ledger → Type 0
  IsSound l = IsLedger l × Keeps IsKnown l

  -- The times of the syncs that were answered, after one more.
  abbrev pub noted : ℕ → Result RelayError Bytes → List ℕ → List ℕ
  noted now (err e) times = times
  noted now (ok contents) times = now ∷ times

  -- One message, one task that ends, one sync, one report; with the times of the answers before it, and
  -- after it.
  pub data Step (times : List ℕ) : Relay → Relay → List ℕ → Type 0 where
    hears : (r : Relay) (message : Gossip) (now : ℕ) → Step times r (hear wire r message now) times
    ends :
        (r : Relay) (before after : List Bytes) (contents : Bytes) (now : ℕ)
        → r.pending ≡ before ++ contents ∷ after
        → Step times r (end_verification wire r contents (before ++ after) now) times
    syncs :
        (r : Relay) (peer : String) (chunks : List Bytes) (now later : ℕ)
        → Step times r
            (relay_sync wire r peer chunks now later).0
            (noted now (relay_sync wire r peer chunks now later).1 times)
    reports :
        (r : Relay) (now : ℕ)
        → Step times r (record r { ledger = (diagnostics wire.engine r.ledger now).0 }) times

  -- A relay that these lead to, and the times at which it answered a sync.
  pub data Reach : Relay → List ℕ → Type 0 where
    new : (peer_id : String) → Reach (new_relay peer_id) []
    next :
        {r r' : Relay} {times times' : List ℕ}
        → Reach r times
        → Step times r r' times'
        → Reach r' times'

  pub record IsRelay (r : Relay) (times : List ℕ) : Type 0 where
    pub ledger : IsSound r.ledger
    pub counted : r.pending_verifications ≡ length r.pending
    pub few_pending : r.pending_verifications ≤ max_pending
    pub few_inbound : length r.inbound_windows ≤ max_inbound_origins
    pub few_syncs : length r.sync_windows ≤ max_sync_origins
    pub few_answers : IsCounted r.global_sync_window times

  closed : IsClosed wire.engine IsKnown IsSound
  closed = IsLedger-IsClosed IsKnown wire.engine

  new_relay-IsRelay : (peer_id : String) → IsRelay (new_relay peer_id) []
  unfolding new_relay total
  new_relay-IsRelay peer_id = record {
    ledger = (new_ledger-IsLedger, tt);
    counted = omega arith;
    few_pending = omega arith;
    few_inbound = omega arith;
    few_syncs = omega arith;
    few_answers = record { counted = omega arith; few = omega arith; within = tt };
  }

  hear-IsRelay :
      (r : Relay) (times : List ℕ) (message : Gossip) (now : ℕ)
      → IsRelay r times
      → IsRelay (hear wire r message now) times
  unfolding hear
  hear-IsRelay r times message now v =
      let origin = get_or message.signed_by "" in
      let counted = count_message 120 r.inbound_windows origin now in
      let few = count_message-bounded 120 r.inbound_windows origin now v.few_inbound in
      elim (Bool-cases (
        not (same message.topic hall_topic)
        || ltb max_event_bytes (length message.contents)
        || leb max_pending r.pending_verifications
        || not (has_id_length wire.outside.text_length origin))) [
          | inl refused ↦ rw (refused, hear) v
          | inr fits ↦ elim (Bool-cases counted.1) [
            | inr over ↦
                rw (fits, hear, over)
                  (record {
                    ledger = v.ledger;
                    counted = v.counted;
                    few_pending = v.few_pending;
                    few_inbound = few;
                    few_syncs = v.few_syncs;
                    few_answers = v.few_answers;
                  })
            | inl granted ↦
                rw (fits, hear, granted)
                  (record {
                    ledger = v.ledger;
                    counted =
                        omega (arith, v.counted, length-append r.pending (message.contents ∷ []));
                    few_pending = ground (arith, fits);
                    few_inbound = ground (arith, few);
                    few_syncs = v.few_syncs;
                    few_answers = v.few_answers;
                  })
          ]
        ]

  verify_task_kept :
      (l : Ledger) (contents : Bytes) (now : ℕ)
      → IsSound l
      → IsSound (verify_task wire l contents now)
  unfolding verify_task
  verify_task_kept l contents now h = elim (Option-cases (wire.parse contents)) [
    | inl unparsed ↦ rw (unparsed, verify_task) h
    | inr (value, parsed) ↦ elim (Option-cases (verify_event wire value now false)) [
      | inl refused ↦ rw (parsed, verify_task, refused) h
      | inr (e, found) ↦
          rw (parsed, verify_task, found)
            (closed.accepts l e (value, now, verify_event-IsVerified wire value now false e found)
              h)
    ]
  ]

  end_verification-IsRelay :
      (r : Relay) (times : List ℕ) (before after : List Bytes) (contents : Bytes) (now : ℕ)
      → r.pending ≡ before ++ contents ∷ after
      → IsRelay r times
      → IsRelay (end_verification wire r contents (before ++ after) now) times
  unfolding end_verification
  end_verification-IsRelay r times before after contents now e v =
      let were = length-append before (contents ∷ after) in
      let are = length-append before after in
      record {
        ledger = verify_task_kept r.ledger contents now v.ledger;
        counted = omega (arith, v.counted, ap length e, were, are);
        few_pending = omega (arith, v.few_pending);
        few_inbound = v.few_inbound;
        few_syncs = v.few_syncs;
        few_answers = v.few_answers;
      }

  with_window :
      (r : Relay) (times times' : List ℕ) (ledger : Ledger) (w : Window)
      → IsRelay r times
      → IsSound ledger
      → IsCounted w times'
      → IsRelay (record r { global_sync_window = w; ledger = ledger }) times'
  with_window r times times' ledger w v sound counted = record {
    ledger = sound;
    counted = v.counted;
    few_pending = v.few_pending;
    few_inbound = v.few_inbound;
    few_syncs = v.few_syncs;
    few_answers = counted;
  }

  serve-IsRelay :
      (r : Relay) (times : List ℕ) (request : Result RelayError RoomEvent) (now later : ℕ)
      → IsRelay r times
      → IsRelay
          (serve wire r request now later).0
          (noted now (serve wire r request now later).1 times)
  unfolding serve events_for_sync
  serve-IsRelay r times (err e) now later v = v
  serve-IsRelay r times (ok request) now later v =
      let w = global_window r.global_sync_window now in
      let synced = events_for_sync wire.engine r.ledger Rules.max_sync_events later in
      let contents = wire.print (answer_value wire synced.1) in
      let (counted, in_time) =
        global_window-IsCounted r.global_sync_window now times v.few_answers in
      elim (Bool-cases (leb max_syncs_per_minute w.count)) [
        | inl full ↦ rw (full, serve) (with_window r times times r.ledger w v v.ledger counted)
        | inr free ↦
            let sound = closed.expires r.ledger later v.ledger in
            let after = record w { count = w.count + 1 } in
            elim (Bool-cases (ltb max_sync_bytes (length contents))) [
              | inl long ↦
                  rw (free, serve, long)
                    (with_window r times times synced.0 after v sound
                      (skip-IsCounted w times counted free))
              | inr fits ↦
                  rw (free, serve, fits)
                    (with_window r times (now ∷ times) synced.0 after v sound
                      (count-IsCounted w now times counted in_time free))
            ]
      ]

  serve_unless-IsRelay :
      (r : Relay) (times : List ℕ) (o : Option RelayError) (request : Result RelayError RoomEvent)
      (now later : ℕ)
      → IsRelay r times
      → IsRelay
          (serve_unless wire r o request now later).0
          (noted now (serve_unless wire r o request now later).1 times)
  serve_unless-IsRelay r times (some e) request now later v = v
  serve_unless-IsRelay r times none request now later v = serve-IsRelay r times request now later v

  step-IsRelay :
      {r r' : Relay} {times times' : List ℕ}
      → IsRelay r times
      → Step times r r' times'
      → IsRelay r' times'
  unfolding relay_sync diagnostics events_for_sync
  step-IsRelay {times = times} v (hears r message now) = hear-IsRelay r times message now v
  step-IsRelay {times = times} v (ends r before after contents now e) =
      end_verification-IsRelay r times before after contents now e v
  step-IsRelay {times = times} v (syncs r peer chunks now later) =
      let counted = count_sync r.sync_windows peer now in
      serve_unless-IsRelay (record r { sync_windows = counted.0 }) times counted.1
        (relay_request wire chunks peer r.peer_id later) now later
        (record {
          ledger = v.ledger;
          counted = v.counted;
          few_pending = v.few_pending;
          few_inbound = v.few_inbound;
          few_syncs = count_sync-bounded r.sync_windows peer now v.few_syncs;
          few_answers = v.few_answers;
        })
  step-IsRelay {times = times} v (reports r now) = record {
    ledger = closed.expires r.ledger now v.ledger;
    counted = v.counted;
    few_pending = v.few_pending;
    few_inbound = v.few_inbound;
    few_syncs = v.few_syncs;
    few_answers = v.few_answers;
  }

  -- Whatever messages and syncs reach a relay, and in whatever order its verifications end: its ledger
  -- keeps its invariant and has only events that were verified, as no history; it counts the
  -- verifications that run, of which there are at most 256; it holds the windows of at most 1500 origins
  -- and the sync times of at most 2000; and of the times at which it answered a sync, none is a minute or
  -- more behind the start of its last window, and at most 60 are not before that start.
  pub Reach-IsRelay : {r : Relay} {times : List ℕ} → Reach r times → IsRelay r times
  Reach-IsRelay (new peer_id) = new_relay-IsRelay peer_id
  Reach-IsRelay (next r step) = step-IsRelay (Reach-IsRelay r) step
