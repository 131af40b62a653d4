-- ===== src/Transport/Calls.antt =====
-- A new `CarbonClubNode` (src/network/node.ts), and its calls on the whole of its state.
use dsh_carbonclub.Base.{ℕ, Bool, true, false, ◌&&◌, String, none, List, [], ◌∷◌, if◌then◌else◌}
use dsh_carbonclub.Base.Dict.{Dict}
use dsh_carbonclub.Base.Dict
use dsh_carbonclub.Types.{RoomProfile, starting, online, failed}
use dsh_carbonclub.Codec.{Bytes}
use dsh_carbonclub.Budget.Queue.{Queue}
use dsh_carbonclub.Ledger.Defs.{new_ledger}
use dsh_carbonclub.Node.Peers.{RememberedPeer, remember_peer, prune_discovered}
use dsh_carbonclub.Node.Session.{Session, Outlet, join_hall, leave_hall, publish_hall_message}
use dsh_carbonclub.Transport.Defs.{CarbonNode, Wire, is_allowed_address}
use dsh_carbonclub.Transport.Publish.{is_ready}

-- `for (const peer of options.rememberedPeers ?? []) this.remembered.set(peer.peerId, peer)`
unfoldable pub load_peers : Dict RememberedPeer → List RememberedPeer → Dict RememberedPeer
load_peers remembered [] = remembered
load_peers remembered (peer ∷ peers) = load_peers (Dict.set peer.peer_id peer remembered) peers

unfoldable pub new_node : String → List RememberedPeer → Queue Bytes → CarbonNode
unfolding load_peers
new_node peer_id peers queue = record {
  session = record {
    peer_id = peer_id;
    ledger = new_ledger;
    local_presence = none;
    last_join_at = 0;
    has_heartbeat = false;
    local_sequence = 0;
  };
  is_running = false;
  phase = starting;
  discovered = [];
  remembered = load_peers [] peers;
  ingestion = queue;
  transport_inbound_windows = [];
  inbound_windows = [];
  sync_windows = [];
  pending_discovery_dials = [];
  identified_protocols = [];
  history_sync_failures = 0;
  silent_publish_drops = 0;
}

abbrev pub with_session : CarbonNode → Session → CarbonNode
with_session n s = record n { session = s }

-- `this.node = node` of `start`, when the transport was made.
unfoldable pub begin_start : CarbonNode → CarbonNode
begin_start n = record n { is_running = true }

-- The `catch` of `start`; the error's text is left out.
unfoldable pub fail_start : CarbonNode → CarbonNode
fail_start n = record n { is_running = false; identified_protocols = []; phase = failed }

-- `start`, when the transport came up: whether it is still the node's, and whether it listens where it
-- was told to.
unfoldable pub come_up : CarbonNode → Bool → Bool → CarbonNode
unfolding fail_start
come_up n is_current is_reachable =
    if n.is_running && is_current
    then if is_reachable then record n { phase = online } else fail_start n
    else n

-- What `pruneDiscovered` leaves, with which `status` begins.
unfoldable pub prune_node : CarbonNode → ℕ → CarbonNode
unfolding prune_discovered
prune_node n now = record n { discovered = prune_discovered n.discovered now }

module _ (wire : Wire) where
  -- `rememberPeer`, after a connection.
  unfoldable pub remember : CarbonNode → String → List String → ℕ → CarbonNode
  unfolding remember_peer is_allowed_address
  remember n peer addresses now = record n {
    remembered = remember_peer (is_allowed_address wire) n.remembered peer addresses now;
  }

  module _ (outlet : Outlet) where
    -- The calls that `requiredNode` guards change nothing where the node is not online.
    unfoldable pub join_node : CarbonNode → RoomProfile → ℕ → ℕ → CarbonNode
    unfolding join_hall
    join_node n profile now clock =
        if is_ready n
        then with_session n (join_hall wire.engine outlet n.session profile now clock).0
        else n

    unfoldable pub leave_node : CarbonNode → ℕ → ℕ → CarbonNode
    unfolding leave_hall
    leave_node n now clock = with_session n (leave_hall wire.engine outlet n.session now clock).0

    -- `stop`, up to the stop of the transport.
    unfoldable pub stop_node : CarbonNode → ℕ → ℕ → CarbonNode
    unfolding leave_node
    stop_node n now clock =
        if n.is_running
        then (let left = leave_node n now clock in
            record left {
              session = record left.session { has_heartbeat = false };
              is_running = false;
              identified_protocols = [];
              phase = starting;
            })
        else n

    unfoldable pub post_node : CarbonNode → String → ℕ → ℕ → CarbonNode
    unfolding publish_hall_message
    post_node n body now clock =
        if is_ready n
        then with_session n (publish_hall_message wire.engine outlet n.session body now clock).0
        else n
