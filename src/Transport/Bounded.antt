-- ===== src/Transport/Bounded.antt =====
-- What a node holds of others and of work to do stays bounded, whatever arrives: the maps, the sets and
-- the queue of src/network/node.ts.
use dsh_carbonclub.Base.{
  ℕ, ◌≤◌, ◌≡◌, refl, ◌∙◌, Bool, false, not, String, List, [], ◌∷◌, ◌++◌, keep, length,
  length-keep-le, length-append, length-last, Bool-cases, inl, inr, leb, same, arith, last,
  if◌then◌else◌,
}
use dsh_carbonclub.Base.Dict.{Dict, length-delete}
use dsh_carbonclub.Base.Dict
use dsh_carbonclub.Base.Keys.{mem}
use dsh_carbonclub.Codec.{Bytes}
use dsh_carbonclub.Budget.Queue.{Queue, enqueue, end_first, end_task, Reach, admit, refuse, finish}
use dsh_carbonclub.Node.Limits.{
  Window, max_rate_limit_origins, max_sync_rate_limit_origins, allow_inbound,
  allow_transport_inbound, allow_sync,
}
use dsh_carbonclub.Node.Grants.{allow_window-bounded, allow_sync-bounded}
use dsh_carbonclub.Node.Peers.{
  RememberedPeer, IsKeyed, max_remembered_peers, max_discovered, prune_discovered, note_discovered,
  note_discovered-bounded, remember_peer,
}
use dsh_carbonclub.Node.Remembered.{remember_peer-bounded}
use dsh_carbonclub.Transport.Defs.{max_parallel_discovery_dials, max_identified}

abbrev pub ingestion_capacity : ℕ
ingestion_capacity = 64

-- A queue of 64, in a state that calls have led to.
abbrev pub IsQueued : Queue Bytes → Type 0
IsQueued q = (taken : List Bytes) × Reach q taken × (q.capacity ≡ ingestion_capacity)

pub enqueue-IsQueued : (q : Queue Bytes) (task : Bytes) → IsQueued q → IsQueued (enqueue q task).0
unfolding enqueue
enqueue-IsQueued q task (taken, r, size) =
    let same_size : (enqueue q task).0.capacity ≡ ingestion_capacity =
      elim (Bool-cases (leb q.capacity q.pending_count)) [
        | inl full ↦ rw (full, enqueue) size
        | inr free ↦ rw (free, enqueue) size
      ] in
    elim (Bool-cases (enqueue q task).1) [
      | inl accepted ↦ (taken ++ task ∷ [], admit task r accepted, same_size)
      | inr refused ↦ (taken, refuse task r refused, same_size)
    ]

capacity-end_first :
    (q : Queue Bytes) (tail : List Bytes) → (end_first q tail).capacity ≡ q.capacity
unfolding end_first
capacity-end_first q [] = refl
capacity-end_first q (task ∷ rest) = refl

pub end_task-IsQueued : (q : Queue Bytes) → IsQueued q → IsQueued (end_task q)
unfolding end_task
end_task-IsQueued q (taken, r, size) = (taken, finish r, capacity-end_first q q.tail ∙ size)

-- The three maps of rate limits.
pub record IsLimited (transport inbound : Dict Window) (syncs : Dict ℕ) : Type 0 where
  pub few_transport : length transport ≤ max_rate_limit_origins
  pub few_inbound : length inbound ≤ max_rate_limit_origins
  pub few_syncs : length syncs ≤ max_sync_rate_limit_origins

module _ (text_length : String → ℕ) {transport inbound : Dict Window} {syncs : Dict ℕ} where
  pub allow_transport_inbound-IsLimited :
      (origin : String) (now : ℕ)
      → IsLimited transport inbound syncs
      → IsLimited (allow_transport_inbound text_length transport origin now).0 inbound syncs
  unfolding allow_transport_inbound
  allow_transport_inbound-IsLimited origin now v = record {
    few_transport = allow_window-bounded text_length 120 transport origin now v.few_transport;
    few_inbound = v.few_inbound;
    few_syncs = v.few_syncs;
  }

  pub allow_inbound-IsLimited :
      (origin : String) (now : ℕ)
      → IsLimited transport inbound syncs
      → IsLimited transport (allow_inbound text_length inbound origin now).0 syncs
  unfolding allow_inbound
  allow_inbound-IsLimited origin now v = record {
    few_transport = v.few_transport;
    few_inbound = allow_window-bounded text_length 20 inbound origin now v.few_inbound;
    few_syncs = v.few_syncs;
  }

pub allow_sync-IsLimited :
    (transport inbound : Dict Window) (syncs : Dict ℕ) (origin : String) (now : ℕ)
    → IsLimited transport inbound syncs
    → IsLimited transport inbound (allow_sync syncs origin now).0
allow_sync-IsLimited transport inbound syncs origin now v = record {
  few_transport = v.few_transport;
  few_inbound = v.few_inbound;
  few_syncs = allow_sync-bounded syncs origin now v.few_syncs;
}

-- The peers that a node knows of, dials and has identified.
pub record IsPeered (discovered : Dict ℕ) (remembered : Dict RememberedPeer) (dials : List String)
    (identified : Dict (List String)) : Type 0 where
  pub few_discovered : length discovered ≤ max_discovered
  pub few_remembered : length remembered ≤ max_remembered_peers
  pub keyed : IsKeyed remembered
  pub few_dials : length dials ≤ max_parallel_discovery_dials
  pub few_identified : length identified ≤ max_identified

module _ {discovered : Dict ℕ} {remembered : Dict RememberedPeer} {dials : List String}
    {identified : Dict (List String)} where
  pub note_discovered-IsPeered :
      (peer : String) (now : ℕ)
      → IsPeered discovered remembered dials identified
      → IsPeered (note_discovered discovered peer now) remembered dials identified
  note_discovered-IsPeered peer now v = record {
    few_discovered = note_discovered-bounded discovered peer now;
    few_remembered = v.few_remembered;
    keyed = v.keyed;
    few_dials = v.few_dials;
    few_identified = v.few_identified;
  }

  pub prune_discovered-IsPeered :
      (now : ℕ)
      → IsPeered discovered remembered dials identified
      → IsPeered (prune_discovered discovered now) remembered dials identified
  unfolding prune_discovered
  prune_discovered-IsPeered now v = record {
    few_discovered = omega (arith, v.few_discovered, length-keep-le _ discovered);
    few_remembered = v.few_remembered;
    keyed = v.keyed;
    few_dials = v.few_dials;
    few_identified = v.few_identified;
  }

  pub remember_peer-IsPeered :
      (is_allowed : String → String → Bool) (peer : String) (addresses : List String) (now : ℕ)
      → IsPeered discovered remembered dials identified
      → IsPeered discovered
          (remember_peer is_allowed remembered peer addresses now)
          dials
          identified
  remember_peer-IsPeered is_allowed peer addresses now v =
      let (bounded, keyed) =
        remember_peer-bounded is_allowed remembered peer addresses now v.few_remembered v.keyed in
      record {
        few_discovered = v.few_discovered;
        few_remembered = bounded;
        keyed = keyed;
        few_dials = v.few_dials;
        few_identified = v.few_identified;
      }

  -- A dial begins where fewer than four run.
  pub dial-IsPeered :
      (peer : String)
      → leb max_parallel_discovery_dials (length dials) ≡ false
      → IsPeered discovered remembered dials identified
      → IsPeered discovered remembered
          (if mem peer dials then dials else dials ++ peer ∷ [])
          identified
  dial-IsPeered peer few v = record {
    few_discovered = v.few_discovered;
    few_remembered = v.few_remembered;
    keyed = v.keyed;
    few_dials = ground (arith, few, v.few_dials, length-append dials (peer ∷ []));
    few_identified = v.few_identified;
  }

  pub end_dial-IsPeered :
      (peer : String)
      → IsPeered discovered remembered dials identified
      → IsPeered discovered remembered (keep (λ p. not (same p peer)) dials) identified
  end_dial-IsPeered peer v = record {
    few_discovered = v.few_discovered;
    few_remembered = v.few_remembered;
    keyed = v.keyed;
    few_dials =
        omega (arith, v.few_dials, length-keep-le (λ (p : String). not (same p peer)) dials);
    few_identified = v.few_identified;
  }

  pub identify-IsPeered :
      (peer : String) (protocols : List String)
      → IsPeered discovered remembered dials identified
      → IsPeered discovered remembered dials
          (last max_identified (Dict.set peer protocols identified))
  identify-IsPeered peer protocols v = record {
    few_discovered = v.few_discovered;
    few_remembered = v.few_remembered;
    keyed = v.keyed;
    few_dials = v.few_dials;
    few_identified = length-last max_identified (Dict.set peer protocols identified);
  }

  pub delete-IsPeered :
      (peer : String)
      → IsPeered discovered remembered dials identified
      → IsPeered discovered remembered dials (Dict.delete peer identified)
  delete-IsPeered peer v = record {
    few_discovered = v.few_discovered;
    few_remembered = v.few_remembered;
    keyed = v.keyed;
    few_dials = v.few_dials;
    few_identified = ground (arith, v.few_identified, length-delete peer identified);
  }

  pub clear-IsPeered :
      IsPeered discovered remembered dials identified → IsPeered discovered remembered dials []
  clear-IsPeered v = record {
    few_discovered = v.few_discovered;
    few_remembered = v.few_remembered;
    keyed = v.keyed;
    few_dials = v.few_dials;
    few_identified = omega arith;
  }
