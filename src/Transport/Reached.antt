-- ===== src/Transport/Reached.antt =====
-- What holds of every node that its calls and listeners lead to: src/network/node.ts.
use dsh_carbonclub.Base.{ℕ, Bool, String, Option, List}
use dsh_carbonclub.Base.Dict.{Dict}
use dsh_carbonclub.Types.{RoomEvent, HallCheckpoint}
use dsh_carbonclub.Node.Peers.{RememberedPeer, prune_discovered}
use dsh_carbonclub.Node.Session.{Outlet}
use dsh_carbonclub.Transport.Defs.{CarbonNode, Wire, identify, end_dial, is_allowed_address}
use dsh_carbonclub.Transport.Bounded.{
  IsPeered, prune_discovered-IsPeered, remember_peer-IsPeered, end_dial-IsPeered, identify-IsPeered,
}
use dsh_carbonclub.Transport.Calls.{prune_node, remember}
use dsh_carbonclub.Transport.Runs.{
  Step, begins, comes_up, fails, stops, receives, runs, answers, requests, discovers, ends_dial,
  identifies, disconnects, remembers, prunes, joins, leaves, posts, checkpoints, Reach, new, next,
}
use dsh_carbonclub.Transport.Sound.{IsNode}
use dsh_carbonclub.Transport.Arrived.{
  receive-IsNode, run_task-IsNode, answer_sync-IsNode, discover-IsNode, disconnect-IsNode,
}
use dsh_carbonclub.Transport.Started.{
  new_node-IsNode, fail_start-IsNode, begin_start-IsNode, come_up-IsNode,
}
use dsh_carbonclub.Transport.Called.{
  request_history-IsNode, publish_checkpoint-IsNode, join_node-IsNode, leave_node-IsNode,
  post_node-IsNode, stop_node-IsNode,
}

module _ (wire : Wire) (outlet : Outlet) (seals : HallCheckpoint → ℕ → ℕ → Option RoomEvent)
    (gate : Option (RoomEvent → Bool)) where
  abbrev Good : CarbonNode → Type 0
  Good = IsNode wire outlet seals gate

  -- A step that changes only what the node knows of peers.
  with_peers-IsNode :
      (n : CarbonNode) (discovered : Dict ℕ) (remembered : Dict RememberedPeer)
      (dials : List String) (identified : Dict (List String))
      → IsPeered discovered remembered dials identified
      → Good n
      → Good (record n {
        discovered = discovered;
        remembered = remembered;
        pending_discovery_dials = dials;
        identified_protocols = identified;
      })
  with_peers-IsNode n discovered remembered dials identified peered v = record {
    ledger = v.ledger;
    queued = v.queued;
    limited = v.limited;
    peered = peered;
  }

  step-IsNode : {n n' : CarbonNode} → Good n → Step wire outlet seals gate n n' → Good n'
  unfolding end_dial identify remember prune_node prune_discovered
  step-IsNode v (begins n) = begin_start-IsNode wire outlet seals gate n v
  step-IsNode v (comes_up n is_current is_reachable) =
      come_up-IsNode wire outlet seals gate n is_current is_reachable v
  step-IsNode v (fails n) = fail_start-IsNode wire outlet seals gate n v
  step-IsNode v (stops n now clock) = stop_node-IsNode wire outlet seals gate n now clock v
  step-IsNode v (receives n message now) = receive-IsNode wire outlet seals gate n message now v
  step-IsNode v (runs n now later) = run_task-IsNode wire outlet seals gate n now later v
  step-IsNode v (answers n remote chunks now later) =
      answer_sync-IsNode wire outlet seals gate n remote chunks now later v
  step-IsNode v (requests n target connections remote now clock) =
      request_history-IsNode wire outlet seals gate n target connections remote now clock v
  step-IsNode v (discovers n peer addresses connected now) =
      discover-IsNode wire outlet seals gate n peer addresses connected now v
  step-IsNode v (ends_dial n peer) = with_peers-IsNode n _ _ _ _ (end_dial-IsPeered peer v.peered) v
  step-IsNode v (identifies n peer protocols) =
      with_peers-IsNode n _ _ _ _ (identify-IsPeered peer protocols v.peered) v
  step-IsNode v (disconnects n peer connected) =
      disconnect-IsNode wire outlet seals gate n peer connected v
  step-IsNode v (remembers n peer addresses now) =
      with_peers-IsNode n _ _ _ _
        (remember_peer-IsPeered (is_allowed_address wire) peer addresses now v.peered) v
  step-IsNode v (prunes n now) =
      with_peers-IsNode n _ _ _ _ (prune_discovered-IsPeered now v.peered) v
  step-IsNode v (joins n profile now clock) =
      join_node-IsNode wire outlet seals gate n profile now clock v
  step-IsNode v (leaves n now clock) = leave_node-IsNode wire outlet seals gate n now clock v
  step-IsNode v (posts n body now clock) =
      post_node-IsNode wire outlet seals gate n body now clock v
  step-IsNode v (checkpoints n connected publication now clock) =
      publish_checkpoint-IsNode wire outlet seals gate n connected publication now clock v

  -- Take a node that is made with at most 32 remembered peers. Whatever it is called for and whatever
  -- arrives by its transport, in any order, its starts and stops included: its ledger keeps its invariant,
  -- and every event in it was verified, or signed by the node itself; its queue is one of 64 tasks; its
  -- rate limits hold at most 1024, 1024 and 128 origins; it has noted at most 512 discovered peers, at most
  -- four of which it lists as being dialled; it remembers at most 32 peers and knows the protocols of at
  -- most 128.
  pub Reach-IsNode : {n : CarbonNode} → Reach wire outlet seals gate n → Good n
  Reach-IsNode (new peer_id peers queue few made) =
      new_node-IsNode wire outlet seals gate peer_id peers queue few made
  Reach-IsNode (next r step) = step-IsNode (Reach-IsNode r) step
