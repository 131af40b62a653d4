-- ===== src/Transport/Sound.antt =====
-- What holds of a node (src/network/node.ts) that its calls and listeners led to.
use dsh_carbonclub.Base.{ℕ, Bool, Option, subst, sym}
use dsh_carbonclub.Types.{RoomEvent, HallCheckpoint}
use dsh_carbonclub.Ledger.Defs.{Ledger}
use dsh_carbonclub.Ledger.Invariant.{IsLedger}
use dsh_carbonclub.Ledger.Sources.{IsClosed, Keeps, IsLedger-IsClosed}
use dsh_carbonclub.Node.Session.{Outlet}
use dsh_carbonclub.Node.Kept as SessionKept
use dsh_carbonclub.Transport.Defs.{CarbonNode, Wire}
use dsh_carbonclub.Transport.Kept as TransportKept
use dsh_carbonclub.Transport.Same.{IsSame}
use dsh_carbonclub.Transport.Bounded.{IsQueued, IsLimited, IsPeered}
use dsh_carbonclub.Transport.Runs.{IsKnown, arrived, own}

module _ (wire : Wire) (outlet : Outlet) (seals : HallCheckpoint → ℕ → ℕ → Option RoomEvent)
    (gate : Option (RoomEvent → Bool)) where
  -- Where an event of a node comes from.
  abbrev pub Known : RoomEvent → Type 0
  Known = IsKnown wire outlet seals gate

  abbrev pub IsSound : Ledger → Type 0
  IsSound l = IsLedger l × Keeps Known l

  pub record IsNode (n : CarbonNode) : Type 0 where
    pub ledger : IsSound n.session.ledger
    pub queued : IsQueued n.ingestion
    pub limited : IsLimited n.transport_inbound_windows n.inbound_windows n.sync_windows
    pub peered : IsPeered n.discovered n.remembered n.pending_discovery_dials n.identified_protocols

  pub IsSound-IsClosed : IsClosed wire.engine Known IsSound
  IsSound-IsClosed = IsLedger-IsClosed Known wire.engine

  pub transport-IsOpen : TransportKept.IsOpen wire Known IsSound
  transport-IsOpen = record {
    closed = IsSound-IsClosed;
    verifies = λ value now allow_historical e v. arrived value now allow_historical v;
  }

  pub session-IsOpen : SessionKept.IsOpen wire.engine outlet Known IsSound
  session-IsOpen = record {
    closed = IsSound-IsClosed;
    signs = λ input sequence now e h. own input sequence now h;
  }

  pub same-IsNode :
      (n n' : CarbonNode) → IsSame n n' → IsSound n'.session.ledger → IsNode n → IsNode n'
  same-IsNode n n' (s, failures, drops, e) h v = record {
    ledger = h;
    queued = subst (λ (m : CarbonNode). IsQueued m.ingestion) (sym e) v.queued;
    limited =
        subst
          (λ (m : CarbonNode).
            IsLimited m.transport_inbound_windows m.inbound_windows m.sync_windows)
          (sym e) v.limited;
    peered =
        subst
          (λ (m : CarbonNode).
            IsPeered m.discovered m.remembered m.pending_discovery_dials m.identified_protocols)
          (sym e) v.peered;
  }
