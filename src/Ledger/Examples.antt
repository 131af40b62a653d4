-- ===== src/Ledger/Examples.antt =====
-- Runs of the ledger, and the theorems at a small ledger.
use dsh_carbonclub.Base.{none, some, ◌↔◌, ◌≡◌, refl, List, [], ◌∷◌, arith, same, keep, true, false}
use dsh_carbonclub.Base.Dict
use dsh_carbonclub.Base.Keys.{mem, keys, values}
use dsh_carbonclub.Types.{chat_message, RoomEvent}
use dsh_carbonclub.Base.Sort.{sort_by}
use dsh_carbonclub.Hall.Defs.{empty_hall, has_participant}
use dsh_carbonclub.Hall.Derive.{step, run, event_less}
use dsh_carbonclub.Hall.Examples.{no_order, event, profile, joins}
use dsh_carbonclub.Ledger.Defs.{Ledger, new_ledger, expire_presence_indexes, protected_ids, prune}
use dsh_carbonclub.Ledger.Snapshot.{snapshot}
use dsh_carbonclub.Ledger.Calls.{answer, accept, admission_error}
use dsh_carbonclub.Ledger.Accept.{Engine, is_admissible, store_event, index_event, append_event}
use dsh_carbonclub.Ledger.Indexes.{ids, IsIndexed, new_ledger-IsIndexed, append_event-IsIndexed}
use dsh_carbonclub.Ledger.Origins.{
  HasOrigins, new_ledger-HasOrigins, append_event-HasOrigins, index_event-HasOrigins,
}
use dsh_carbonclub.Ledger.Invariant.{
  IsLedger, new_ledger-IsLedger, accept-IsLedger, index_event-IsIndexed,
}
use dsh_carbonclub.Ledger.Views.{IsView, snapshot-IsView}
use dsh_carbonclub.Ledger.Admission.{admission_error-step}
use dsh_carbonclub.Ledger.Retention.{prune-keeps}

abbrev engine : Engine
engine = record { locale_compare = no_order; text_less = λ a b. false; digest = λ c. "digest" }

abbrev ann_joins : RoomEvent
ann_joins = event "j1" "ann" 7 1_000 (joins "Ann" 1_000)

-- The first join fits, its replay and a smaller sequence do not, nor does a stranger's message.
abbrev inbox : List RoomEvent
inbox =
    ann_joins
    ∷ ann_joins
    ∷ event "m1" "ann" 6 2_000 (chat_message "old")
    ∷ event "m2" "ann" 8 3_000 (chat_message "new")
    ∷ event "m3" "ben" 1 4_000 (chat_message "stranger")
    ∷ []

accept_all : Ledger → List RoomEvent → Ledger
accept_all l [] = l
accept_all l (e ∷ events) = accept_all (accept engine l e).0 events

program : Unit {0}
unfolding accept_all accept answer snapshot is_admissible store_event expire_presence_indexes same
    keep Dict.get Dict.has Dict.set Dict.delete keys values mem
program = tt

inbox-ids : ids (accept_all new_ledger inbox).events ≡ "j1" ∷ "m2" ∷ []
unfolding program
inbox-ids = refl

accept-IsLedger_example : IsLedger (accept engine new_ledger ann_joins).0
accept-IsLedger_example = accept-IsLedger engine new_ledger ann_joins new_ledger-IsLedger

-- The ledger that has taken Ann's join in.
abbrev joined : Ledger
joined = index_event (append_event new_ledger ann_joins) ann_joins ann_joins.payload

joined-IsIndexed : IsIndexed joined
unfolding Dict.has
joined-IsIndexed =
    index_event-IsIndexed (append_event new_ledger ann_joins) ann_joins ann_joins.payload
      (append_event-IsIndexed new_ledger ann_joins refl new_ledger-IsIndexed)

joined-HasOrigins : HasOrigins joined
unfolding append_event
joined-HasOrigins =
    index_event-HasOrigins (append_event new_ledger ann_joins) ann_joins ann_joins.payload
      (λ _ _. omega arith) (append_event-HasOrigins new_ledger ann_joins new_ledger-HasOrigins)

prune-keeps_example : mem "j1" (ids (prune joined 2_000).events) ≡ true
unfolding program index_event append_event protected_ids
prune-keeps_example =
    prune-keeps joined 2_000 "j1" joined-IsIndexed joined-HasOrigins (omega arith) refl refl

abbrev ben_joins : RoomEvent
ben_joins = event "j2" "ben" 1 2_000 (joins "Ben" 2_000)

admission_error-step_example : (admission_error engine joined "ben" 2_000 ≡ none) ↔ (
    has_participant
      (step no_order
        (run no_order empty_hall (sort_by (event_less no_order) joined.events))
        ben_joins)
      "ben"
    ≡ true)
admission_error-step_example =
    admission_error-step engine joined ben_joins (profile "Ben") 2_000
      (record { epoch = 0; nonce = 0 }) refl

snapshot-IsView_example : IsView (snapshot no_order joined 2_000 (some "ann")).1
snapshot-IsView_example = snapshot-IsView no_order joined 2_000 "ann"
