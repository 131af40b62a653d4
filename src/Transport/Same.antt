-- ===== src/Transport/Same.antt =====
-- What a sync and a publication leave alone: of src/network/node.ts, `requestHistory`, the answer to a
-- sync and `publishCheckpoint` change only the session and two counters.
use dsh_carbonclub.Base.{
  ℕ, zero, suc, ◌+◌, ◌≡◌, refl, Bool, ◌||◌, not, String, Option, none, some, List, [], Bool-cases,
  Option-cases, inl, inr, ltb, length,
}
use dsh_carbonclub.Base.Result.{Result, ok, err}
use dsh_carbonclub.Types.{RoomEvent}
use dsh_carbonclub.Codec.{Bytes}
use dsh_carbonclub.Node.Peers.{next_sequence}
use dsh_carbonclub.Node.Session.{Session}
use dsh_carbonclub.Transport.Defs.{CarbonNode, Wire, max_event_bytes}
use dsh_carbonclub.Transport.Sync.{
  SyncError, Connection, Remote, is_online, choose_connection, gather, max_sync_bytes, history_of,
  answer_request, accept_history, take_answer, ask_history, request_history,
}
use dsh_carbonclub.Transport.Publish.{
  Publication, threw, returned, is_ready, is_gated, settle_publication, publish_event,
}

-- Only the session and the two counters have changed.
abbrev pub IsSame : CarbonNode → CarbonNode → Type 0
IsSame n n' =
    (s : Session) × (failures drops : ℕ) × (n'
      ≡ record n { session = s; history_sync_failures = failures; silent_publish_drops = drops })

unchanged : (n : CarbonNode) → IsSame n n
unchanged n = (n.session, n.history_sync_failures, n.silent_publish_drops, refl)

one_failed :
    (n : CarbonNode) (s : Session)
    → IsSame n (record n { session = s; history_sync_failures = n.history_sync_failures + 1 })
one_failed n s = (s, n.history_sync_failures + 1, n.silent_publish_drops, refl)

module _ (wire : Wire) where
  pub answer_request-IsSame :
      (n : CarbonNode) (r : Result SyncError RoomEvent) (now : ℕ)
      → IsSame n (answer_request wire n r now).0
  unfolding answer_request
  answer_request-IsSame n (err e) now = unchanged n
  answer_request-IsSame n (ok request) now = (
    (answer_request wire n (ok request) now).0.session,
    n.history_sync_failures,
    n.silent_publish_drops,
    refl,
  )

  take_answer-IsSame :
      (n : CarbonNode) (chunks : List Bytes) (now : ℕ) → IsSame n (take_answer wire n chunks now)
  unfolding take_answer
  take_answer-IsSame n chunks now = elim (Option-cases (gather max_sync_bytes [] chunks)) [
    | inl over ↦ rw (over, take_answer) (unchanged n)
    | inr (contents, whole) ↦ elim (Option-cases (history_of wire contents)) [
      | inl other ↦ rw (whole, take_answer, other) (one_failed n n.session)
      | inr (values, read) ↦
          let taken = accept_history wire n.session.ledger values now in
          let s : Session = record n.session { ledger = taken.0 } in
          elim (Bool-cases taken.1) [
            | inl all ↦
                rw (whole, take_answer, read, all)
                  (s, n.history_sync_failures, n.silent_publish_drops, refl)
            | inr some_failed ↦ rw (whole, take_answer, read, some_failed) (one_failed n s)
          ]
    ]
  ]

  ask_history-IsSame :
      (n : CarbonNode) (s : Session) (remote : Remote) (c : Connection) (now : ℕ)
      (o : Option RoomEvent)
      → IsSame n (ask_history wire (record n { session = s }) remote c now o)
  unfolding ask_history
  ask_history-IsSame n s remote c now none = one_failed n s
  ask_history-IsSame n s remote c now (some request) =
      elim (Option-cases (remote.answers c request)) [
        | inl lost ↦ rw (lost, ask_history) (one_failed n s)
        | inr (chunks, came) ↦
            rw (came, ask_history) (take_answer-IsSame (record n { session = s }) chunks now)
      ]

  pub request_history-IsSame :
      (n : CarbonNode) (target : String) (connections : List Connection) (remote : Remote)
      (now clock : ℕ)
      → IsSame n (request_history wire n target connections remote now clock)
  unfolding request_history
  request_history-IsSame n target connections remote now clock =
      let sequence = next_sequence n.session.local_sequence clock in
      let s : Session = record n.session { local_sequence = sequence } in
      elim (Bool-cases (not n.is_running || not (is_online n.phase))) [
        | inl offline ↦ rw (offline, request_history) (unchanged n)
        | inr running ↦ elim (Option-cases (choose_connection target connections)) [
          | inl nobody ↦ rw (running, request_history, nobody) (unchanged n)
          | inr (c, chosen) ↦ elim (Bool-cases (remote.opens c)) [
            | inr closed ↦ rw (running, request_history, chosen, closed) (one_failed n n.session)
            | inl opened ↦
                rw (running, request_history, chosen, opened)
                  (ask_history-IsSame n s remote c now (remote.signs sequence))
          ]
        ]
      ]

  settle-IsSame :
      (n : CarbonNode) (s : Session) (publication : Publication)
      → (drops : ℕ) × ((settle_publication (record n { session = s }) publication).0
          ≡ record n { session = s; silent_publish_drops = drops })
  settle-IsSame n s (threw e) = (n.silent_publish_drops, refl)
  settle-IsSame n s (returned none) = (n.silent_publish_drops, refl)
  settle-IsSame n s (returned (some zero)) = (n.silent_publish_drops + 1, refl)
  settle-IsSame n s (returned (some (suc k))) = (n.silent_publish_drops, refl)

  -- A publication changes at most one counter.
  pub publish_event-IsSame :
      (n : CarbonNode) (s : Session) (gate : Option (RoomEvent → Bool)) (event : RoomEvent)
      (publication : Publication)
      → (drops : ℕ) × ((publish_event wire (record n { session = s }) gate event publication).0
          ≡ record n { session = s; silent_publish_drops = drops })
  unfolding publish_event
  publish_event-IsSame n s gate event publication = elim (Bool-cases (is_gated gate event)) [
    | inl gated ↦ rw (gated, publish_event) (n.silent_publish_drops, refl)
    | inr sent ↦ elim (Bool-cases (not (is_ready n))) [
      | inl stopped ↦ rw (sent, publish_event, stopped) (n.silent_publish_drops, refl)
      | inr running ↦
          elim (Bool-cases (ltb max_event_bytes (length (wire.print (wire.event_value event))))) [
            | inl long ↦ rw (sent, publish_event, running, long) (n.silent_publish_drops, refl)
            | inr short ↦ rw (sent, publish_event, running, short) (settle-IsSame n s publication)
          ]
    ]
  ]
