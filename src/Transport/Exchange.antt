-- ===== src/Transport/Exchange.antt =====
-- What one node answers to a sync, the other takes: both ends of src/network/node.ts together.
use dsh_carbonclub.Base.{
  ℕ, ◌≤◌, ◌≡◌, refl, sym, ap, ◌∙◌, subst, true, String, some, List, [], ◌∷◌, length, leb, same,
  arith,
}
use dsh_carbonclub.Base.Result.{ok}
use dsh_carbonclub.Rules
use dsh_carbonclub.Types.{RoomEvent}
use dsh_carbonclub.Codec.{Bytes}
use dsh_carbonclub.Verify.Values.{Value, property, look_up}
use dsh_carbonclub.Invite.Defs.{size}
use dsh_carbonclub.Transport.Defs.{CarbonNode, Wire}
use dsh_carbonclub.Transport.Sync.{
  max_sync_bytes, gather, is_envelope, event_values, answer_value, answer_sync, history_of,
}
use dsh_carbonclub.Ledger.Calls.{events_for_sync}
use dsh_carbonclub.Transport.Gathered.{joined, gather-joined}
use dsh_carbonclub.Transport.Answered.{answer_sync-IsAnswer}

module _ (wire : Wire) where
  -- `JSON.parse` gives what `JSON.stringify` was given.
  abbrev pub IsPrinted : Value → Type 0
  IsPrinted value = wire.parse (wire.print value) ≡ some value

  size-event_values : (events : List RoomEvent) → size (event_values wire events) ≡ length events
  size-event_values [] = refl
  size-event_values (e ∷ events) = omega (arith, size-event_values events)

  -- Where the JSON of an answer parses to what was printed, the answer of one node is never refused by
  -- the other, in whatever chunks it comes: it is within the budget, and is read as just the events that
  -- the first one's ledger chose.
  pub history_of-answer_sync :
      (n : CarbonNode) (remote : String) (chunks came : List Bytes) (now later : ℕ)
      (contents : Bytes)
      → ((events : List RoomEvent) → IsPrinted (answer_value wire events))
      → (answer_sync wire n remote chunks now later).1 ≡ ok contents
      → joined came ≡ contents
      → (gather max_sync_bytes [] came ≡ some contents)
        × (history_of wire contents
            ≡ some (
                event_values wire
                  (events_for_sync wire.engine n.session.ledger Rules.max_sync_events later).1))
  unfolding history_of is_envelope property look_up same answer_value
  history_of-answer_sync n remote chunks came now later contents printed h cut =
      let a = answer_sync-IsAnswer wire n remote chunks now later contents h in
      let parsed : wire.parse contents ≡ some (answer_value wire a.events) =
        ap wire.parse a.answers ∙ printed a.events in
      let few : leb (size (event_values wire a.events)) Rules.max_sync_events ≡ true =
        ground (arith, size-event_values a.events, a.few) in
      let read : history_of wire contents ≡ some (event_values wire a.events) =
        rw (parsed, few, history_of) refl in
      (
        gather-joined max_sync_bytes [] came
              (subst (λ (b : Bytes). length b ≤ max_sync_bytes) (sym cut) a.short)
            ∙ ap some cut,
        read ∙ ap (λ (es : List RoomEvent). some (event_values wire es)) a.chosen,
      )
