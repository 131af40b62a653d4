-- ===== src/Panel/Stale.antt =====
-- An answer that a call of the store (src/client/network-store.ts) has overtaken shows nothing.
use Prim.Native.Nat.{Ordering}
use dsh_carbonclub.Base.{
  ℕ, ◌≤◌, ◌<◌, ◌≡◌, refl, true, String, Option, none, some, ◌⊎◌, inl, inr, arith,
}
use dsh_carbonclub.Base.Result.{Result, ok, err}
use dsh_carbonclub.Types.{RoomMessage}
use dsh_carbonclub.Ledger.Snapshot.{RoomSnapshot}
use dsh_carbonclub.Panel.Store.{
  Store, Ticket, ticket, Fetched, threw, answered, is_obsolete, bind_network_remote,
  unbind_network_remote, show_failure, show_answer, answer_refresh, begin_hall, end_hall,
  post_network_message, begin_post, end_post, Busy, change_hall, begin_request, end_invite,
  end_connect, fail_evidence,
}

module _ (locale_compare : String → String → Ordering) where
  -- The calls of the store and the answers that reach it.
  pub data Step : Store → Store → Type 0 where
    binds : (s : Store) → Step s (bind_network_remote s)
    unbinds : (current : ℕ) (s : Store) → Step s (unbind_network_remote current s)
    refreshes :
        (t : Ticket) (f : Fetched) (s : Store) → Step s (answer_refresh locale_compare s t f)
    hall_begins : (current : ℕ) (s : Store) → Step s (begin_hall current s)
    hall_ends :
        (current : ℕ) (r : Result String RoomSnapshot) (s : Store) → Step s (end_hall current r s)
    posts : (s : Store) → Step s (post_network_message s)
    post_begins : (current : ℕ) (s : Store) → Step s (begin_post current s)
    post_ends :
        (current : ℕ) (r : Result String RoomMessage) (s : Store) → Step s (end_post current r s)
    hall_asked : (s : Store) → Step s (change_hall s)
    request_begins : (kind : Busy) (s : Store) → Step s (begin_request kind s)
    invite_ends :
        (current : ℕ) (r : Result String String) (s : Store) → Step s (end_invite current r s)
    connect_ends : (current : ℕ) (r : Option String) (s : Store) → Step s (end_connect current r s)
    evidence_fails : (current : ℕ) (m : String) (s : Store) → Step s (fail_evidence current m s)

  pub data Steps : Store → Store → Type 0 where
    here : {s : Store} → Steps s s
    next : {s t u : Store} → Steps s t → Step t u → Steps s u

  -- A later host or a later room.
  abbrev pub NotBefore : Store → Store → Type 0
  NotBefore s t = (s.binding ≤ t.binding) × (s.room_version ≤ t.room_version)

  refresh-NotBefore :
      (t : Ticket) (f : Fetched) (s : Store) → NotBefore s (answer_refresh locale_compare s t f)
  unfolding answer_refresh show_failure show_answer
  refresh-NotBefore t (threw m) s = ground arith
  refresh-NotBefore t (answered (err m) room) s = ground arith
  refresh-NotBefore t (answered (ok status) (err m)) s = ground arith
  refresh-NotBefore t (answered (ok status) (ok delta)) s = ground arith

  Step-NotBefore : {s t : Store} → Step s t → NotBefore s t
  unfolding bind_network_remote unbind_network_remote begin_hall end_hall post_network_message
      begin_post end_post change_hall begin_request end_invite end_connect fail_evidence
  Step-NotBefore (binds s) = (omega arith, omega arith)
  Step-NotBefore (unbinds current s) = ground arith
  Step-NotBefore (refreshes t f s) = refresh-NotBefore t f s
  Step-NotBefore (hall_begins current s) = ground arith
  Step-NotBefore (hall_ends current (ok room) s) = ground arith
  Step-NotBefore (hall_ends current (err m) s) = ground arith
  Step-NotBefore (posts s) = ground arith
  Step-NotBefore (post_begins current s) = ground arith
  Step-NotBefore (post_ends current (ok m) s) = ground arith
  Step-NotBefore (post_ends current (err m) s) = ground arith
  Step-NotBefore (hall_asked s) = ground arith
  Step-NotBefore (request_begins kind s) = ground arith
  Step-NotBefore (invite_ends current (ok i) s) = ground arith
  Step-NotBefore (invite_ends current (err m) s) = ground arith
  Step-NotBefore (connect_ends current none s) = ground arith
  Step-NotBefore (connect_ends current (some m) s) = ground arith
  Step-NotBefore (evidence_fails current m s) = ground arith

  Steps-NotBefore : {s t : Store} → Steps s t → NotBefore s t
  Steps-NotBefore here = (omega arith, omega arith)
  Steps-NotBefore (next steps step) =
      let before = Steps-NotBefore steps in
      let last = Step-NotBefore step in
      (omega (arith, before.0, last.0), omega (arith, before.1, last.1))

  -- What overtakes a refresh: another host, or the begin of a join, a leave or a message.
  pub data Overtakes : Store → Store → Type 0 where
    another_host : (s : Store) → Overtakes s (bind_network_remote s)
    no_host : (s : Store) → Overtakes s (unbind_network_remote s.binding s)
    in_hall_began : (s : Store) → Overtakes s (begin_hall s.binding s)
    post_began : (s : Store) → Overtakes s (begin_post s.binding s)

  Overtakes-after :
      {s t : Store}
      → Overtakes s t
      → NotBefore s t × ((s.binding < t.binding) ⊎ (s.room_version < t.room_version))
  unfolding bind_network_remote unbind_network_remote begin_hall begin_post
  Overtakes-after (another_host s) = ground arith
  Overtakes-after (no_host s) = ground arith
  Overtakes-after (in_hall_began s) = ground arith
  Overtakes-after (post_began s) = ground arith

  later-is_obsolete :
      (s t : Store)
      → (s.binding < t.binding) ⊎ (s.room_version < t.room_version)
      → is_obsolete t (ticket s) ≡ true
  unfolding is_obsolete
  later-is_obsolete s t (inl another) = ground arith
  later-is_obsolete s t (inr moved) = ground arith

  obsolete_shows_nothing :
      (s : Store) (t : Ticket) (f : Fetched)
      → is_obsolete s t ≡ true
      → answer_refresh locale_compare s t f ≡ s
  unfolding answer_refresh
  obsolete_shows_nothing s t (threw m) h = rw h refl
  obsolete_shows_nothing s t (answered status room) h = rw h refl

  -- An answer to a refresh changes nothing in the store, once another host was bound, the host was
  -- unbound, or a join, a leave or a message began, at any point between the asking and the answer,
  -- whatever else the store was called for.
  pub answer_refresh-overtaken :
      {s u v t : Store} (f : Fetched)
      → Steps s u
      → Overtakes u v
      → Steps v t
      → answer_refresh locale_compare t (ticket s) f ≡ t
  answer_refresh-overtaken {s = s} {t = t} f before overtakes after =
      let first = Steps-NotBefore before in
      let (second, moved) = Overtakes-after overtakes in
      let third = Steps-NotBefore after in
      obsolete_shows_nothing t (ticket s) f
        (later-is_obsolete s t (ground (arith, first.0, first.1, moved, third.0, third.1)))
