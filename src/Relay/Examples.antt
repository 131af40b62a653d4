-- ===== src/Relay/Examples.antt =====
-- A relay that hears a join, verifies it and serves a sync, and the theorems at it.
use dsh_carbonclub.Base.{◌≡◌, refl, none, some, [], ◌∷◌, ◌++◌, keep, same}
use dsh_carbonclub.Base.Dict.{get}
use dsh_carbonclub.Verify.Values.{pos}
use dsh_carbonclub.Transport.Defs.{hall_topic}
use dsh_carbonclub.Transport.Examples.{wire, join_byte, request_byte, program}
use dsh_carbonclub.Relay.Settings.{
  integral, not_a_number, Ceilings, clamp, integer_within, read_connections, read_ceilings,
}
use dsh_carbonclub.Relay.Defs.{
  Relay, RelayError, new_relay, hear, verify_task, end_verification, count_message, count_sync,
  relay_request, signed_request, global_window, serve, relay_sync,
}
use dsh_carbonclub.Base.Result.{Result, ok}
use dsh_carbonclub.Base.Keys.{mem}
use dsh_carbonclub.Base.Sort.{sort_by}
use dsh_carbonclub.Codec.{Bytes}
use dsh_carbonclub.Hall.Defs.{advance, has_participant}
use dsh_carbonclub.Hall.Derive.{derive}
use dsh_carbonclub.Ledger.Defs.{expire_presence_indexes}
use dsh_carbonclub.Ledger.Accept.{is_admissible, store_event}
use dsh_carbonclub.Ledger.Calls.{accept, events_for_sync}
use dsh_carbonclub.Relay.Runs.{noted, new, next, hears, ends, syncs, IsRelay, Reach-IsRelay}

-- The settings as they are, where none is given; and a setting that is no number.
abbrev ceilings : Ceilings
ceilings = record { max_reservations = 600; max_connections = 1_200 }

by_default : read_ceilings (integral (pos 600)) (integral (pos 1_200)) ≡ some ceilings
unfolding read_ceilings read_connections clamp integer_within
by_default = refl

typing_error : read_ceilings not_a_number (integral (pos 1_200)) ≡ none
unfolding read_ceilings read_connections clamp integer_within
typing_error = refl

abbrev heard : Relay
heard =
    hear wire (new_relay "bob")
      (record { topic = hall_topic; contents = join_byte ∷ []; signed_by = some "ann" }) 1_000_900

abbrev told : Relay
told = end_verification wire heard (join_byte ∷ []) ([] ++ []) 1_001_000

pending : heard.pending ≡ [] ++ (join_byte ∷ []) ∷ []
unfolding hear count_message same new_relay get keep
pending = refl

-- Ann asks for the history, and is answered.
abbrev served : Relay × Result RelayError Bytes
served = relay_sync wire told "ann" ((request_byte ∷ []) ∷ []) 1_001_000 1_001_000

answered : (contents : Bytes) × (served.1 ≡ ok contents)
unfolding program relay_sync count_sync relay_request signed_request global_window serve accept
    is_admissible expire_presence_indexes store_event events_for_sync sort_by mem derive advance
    has_participant verify_task end_verification hear count_message new_relay
answered = (_, refl)

Reach-IsRelay_example : IsRelay wire served.0 (noted wire 1_001_000 served.1 [])
Reach-IsRelay_example = Reach-IsRelay wire (
    next
      (next (next (new "bob") (hears (new_relay "bob") _ 1_000_900))
        (ends heard [] [] (join_byte ∷ []) 1_001_000 pending))
      (syncs told "ann" ((request_byte ∷ []) ∷ []) 1_001_000 1_001_000))
