-- ===== src/Transport/Started.antt =====
-- A new node, and its start: src/network/node.ts.
use dsh_carbonclub.Base.{
  ℕ, ◌+◌, ◌≤◌, ◌≡◌, refl, Bool, true, ◌&&◌, String, Option, some, List, [], ◌∷◌, Bool-cases, inl,
  inr, length, arith, sym, ap, some_injective,
}
use dsh_carbonclub.Base.Dict.{Dict, length-set}
use dsh_carbonclub.Base.Dict
use dsh_carbonclub.Types.{Phase, online, RoomEvent, HallCheckpoint}
use dsh_carbonclub.Codec.{Bytes}
use dsh_carbonclub.Budget.Queue.{Queue, new_queue, start}
use dsh_carbonclub.Ledger.Invariant.{new_ledger-IsLedger}
use dsh_carbonclub.Node.Peers.{RememberedPeer, IsKeyed, IsKeyed-set, max_remembered_peers}
use dsh_carbonclub.Node.Session.{Outlet}
use dsh_carbonclub.Transport.Defs.{CarbonNode, Wire}
use dsh_carbonclub.Transport.Bounded.{ingestion_capacity, clear-IsPeered}
use dsh_carbonclub.Transport.Calls.{load_peers, new_node, begin_start, come_up, fail_start}
use dsh_carbonclub.Transport.Sound.{IsNode}

load_peers-bounded :
    (remembered : Dict RememberedPeer) (peers : List RememberedPeer)
    → IsKeyed remembered
    → (length (load_peers remembered peers) ≤ length remembered + length peers)
      × IsKeyed (load_peers remembered peers)
unfolding load_peers
load_peers-bounded remembered [] keyed = (omega arith, keyed)
load_peers-bounded remembered (peer ∷ peers) keyed =
    let (few, kept) =
      load_peers-bounded (Dict.set peer.peer_id peer remembered) peers
        (IsKeyed-set peer.peer_id peer remembered refl keyed) in
    (ground (arith, few, length-set peer.peer_id peer remembered), kept)

module _ (wire : Wire) (outlet : Outlet) (seals : HallCheckpoint → ℕ → ℕ → Option RoomEvent)
    (gate : Option (RoomEvent → Bool)) where
  abbrev Good : CarbonNode → Type 0
  Good = IsNode wire outlet seals gate

  pub new_node-IsNode :
      (peer_id : String) (peers : List RememberedPeer) (queue : Queue Bytes)
      → length peers ≤ max_remembered_peers
      → new_queue ingestion_capacity ≡ some queue
      → Good (new_node peer_id peers queue)
  unfolding new_node new_queue
  new_node-IsNode peer_id peers queue few made =
      let loaded = load_peers-bounded [] peers tt in
      record {
        ledger = (new_ledger-IsLedger, tt);
        queued = (
          [],
          start ingestion_capacity made,
          ap (λ (q : Queue Bytes). q.capacity) (some_injective (sym made)),
        );
        limited = record {
          few_transport = omega arith;
          few_inbound = omega arith;
          few_syncs = omega arith;
        };
        peered = record {
          few_discovered = omega arith;
          few_remembered = omega (arith, few, loaded.0);
          keyed = loaded.1;
          few_dials = omega arith;
          few_identified = omega arith;
        };
      }

  pub with_phase-IsNode :
      (n : CarbonNode) (is_running : Bool) (phase : Phase)
      → Good n
      → Good (record n { is_running = is_running; phase = phase })
  with_phase-IsNode n is_running phase v = record {
    ledger = v.ledger;
    queued = v.queued;
    limited = v.limited;
    peered = v.peered;
  }

  pub fail_start-IsNode : (n : CarbonNode) → Good n → Good (fail_start n)
  unfolding fail_start
  fail_start-IsNode n v = record {
    ledger = v.ledger;
    queued = v.queued;
    limited = v.limited;
    peered = clear-IsPeered v.peered;
  }

  pub begin_start-IsNode : (n : CarbonNode) → Good n → Good (begin_start n)
  unfolding begin_start
  begin_start-IsNode n v = with_phase-IsNode n true n.phase v

  pub come_up-IsNode :
      (n : CarbonNode) (is_current is_reachable : Bool)
      → Good n
      → Good (come_up n is_current is_reachable)
  unfolding come_up
  come_up-IsNode n is_current is_reachable v = elim (Bool-cases (n.is_running && is_current)) [
    | inr gone ↦ rw (gone, come_up) v
    | inl here ↦ elim (Bool-cases is_reachable) [
      | inl listens ↦ rw (here, come_up, listens) (with_phase-IsNode n n.is_running online v)
      | inr deaf ↦ rw (here, come_up, deaf) (fail_start-IsNode n v)
    ]
  ]
