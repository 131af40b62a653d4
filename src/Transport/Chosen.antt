-- ===== src/Transport/Chosen.antt =====
-- The events that `eventsForSync` of src/network/room-events.ts chooses for an answer.
use dsh_carbonclub.Base.{ℕ, ◌≤◌, ap, List, ◌++◌, length, length-last, keep, ◌-◌, arith}
use dsh_carbonclub.Rules
use dsh_carbonclub.Types.{RoomEvent}
use dsh_carbonclub.Base.Keys.{mem}
use dsh_carbonclub.Base.Sort.{sort_by, total-sort_by}
use dsh_carbonclub.Hall.Derive.{derive, event_less}
use dsh_carbonclub.Ledger.Defs.{Ledger, expire_presence_indexes, recent_chat_ids, to_list}
use dsh_carbonclub.Ledger.Calls.{events_for_sync, presence_ids}
use dsh_carbonclub.Ledger.Accept.{participant_ids}
use dsh_carbonclub.Base.Total.{total, total-drop-le, total-keep-le}
use dsh_carbonclub.Node.Admitted.{events-expire}
use dsh_carbonclub.Ledger.Accept.{Engine}

module _ (engine : Engine) where
  pub length-events_for_sync :
      (l : Ledger) (now : ℕ)
      → length (events_for_sync engine l Rules.max_sync_events now).1 ≤ Rules.max_sync_events
  unfolding events_for_sync
  length-events_for_sync l now =
      let l' = expire_presence_indexes l now in
      let h = derive engine.locale_compare l'.events now in
      let ids =
        presence_ids l' (participant_ids h)
        ++ (recent_chat_ids l'.events ++ to_list l'.latest_checkpoint_event_id) in
      length-last Rules.max_sync_events (
        sort_by (event_less engine.locale_compare)
          (keep (λ (e : RoomEvent). mem e.event_id ids) l'.events))

  -- They are events of the ledger, none more often than there.
  pub total-events_for_sync :
      (l : Ledger) (now : ℕ) (w : RoomEvent → ℕ)
      → total w (events_for_sync engine l Rules.max_sync_events now).1 ≤ total w l.events
  unfolding events_for_sync
  total-events_for_sync l now w =
      let l' = expire_presence_indexes l now in
      let h = derive engine.locale_compare l'.events now in
      let ids =
        presence_ids l' (participant_ids h)
        ++ (recent_chat_ids l'.events ++ to_list l'.latest_checkpoint_event_id) in
      let kept = keep (λ (e : RoomEvent). mem e.event_id ids) l'.events in
      let sorted = sort_by (event_less engine.locale_compare) kept in
      omega (
        arith,
        total-drop-le w (length sorted - Rules.max_sync_events) sorted,
        total-sort_by (event_less engine.locale_compare) w kept,
        total-keep-le w (λ (e : RoomEvent). mem e.event_id ids) l'.events,
        ap (λ (es : List RoomEvent). total w es) (events-expire l now),
      )
