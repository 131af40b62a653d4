-- ===== src/Rules.antt =====
-- The constants of src/network/hall-rules.ts, src/network/room-events.ts and src/network/node.ts.
-- Times are milliseconds.
use dsh_carbonclub.Base.{ℕ, ◌*◌}

abbrev pub capacity : ℕ
capacity = 500

abbrev pub seat_count : ℕ
seat_count = 8

abbrev pub idle_ms : ℕ
idle_ms = 2 * 60_000

abbrev pub max_lease_ms : ℕ
max_lease_ms = 5 * 60_000

abbrev pub cooldown_ms : ℕ
cooldown_ms = 10 * 60_000

abbrev pub slow_mode_ms : ℕ
slow_mode_ms = 8_000

abbrev pub max_consecutive_messages : ℕ
max_consecutive_messages = 2

abbrev pub presence_ttl_ms : ℕ
presence_ttl_ms = 2 * 60_000

abbrev pub max_retained_messages : ℕ
max_retained_messages = 200

abbrev pub max_retained_events : ℕ
max_retained_events = 2_200

abbrev pub max_tracked_join_origins : ℕ
max_tracked_join_origins = 750

abbrev pub max_tracked_sequence_origins : ℕ
max_tracked_sequence_origins = 1_500

abbrev pub max_sync_events : ℕ
max_sync_events = 1_300

abbrev pub client_queue_preview : ℕ
client_queue_preview = 24

abbrev pub client_message_window : ℕ
client_message_window = 50
