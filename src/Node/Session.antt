-- ===== src/Node/Session.antt =====
-- `joinHall`, `leaveHall` and `publishHallMessage` of a running `CarbonClubNode` (src/network/node.ts),
-- on its ledger, its presence, its heartbeat timer and its sequence number. What `signEvent` answers is
-- a parameter (Verify/Signing has it on untyped values), and so is whether `publishEvent` returns.
use Prim.Native.String.{◌++◌ as append}
use dsh_carbonclub.Base.{
  ℕ, Bool, true, false, not, ◌&&◌, String, Option, none, some, List, [], ◌∷◌, same, if◌then◌else◌,
}
use dsh_carbonclub.Base.Result.{Result, ok, err}
use dsh_carbonclub.Types.{RoomProfile, RoomEvent, RoomMessage}
use dsh_carbonclub.Ledger.Defs.{Ledger}
use dsh_carbonclub.Ledger.Accept.{Engine}
use dsh_carbonclub.Ledger.Snapshot.{HallSeat, RoomSnapshot, snapshot}
use dsh_carbonclub.Ledger.Calls.{AdmissionError, admission_error, accept}
use dsh_carbonclub.Node.Admitted.{is_own, is_admitted}
use dsh_carbonclub.Node.Peers.{PresenceAction, join, heartbeat, presence_action_for, next_sequence}

pub record LocalPresence : Type 0 where
  pub profile : RoomProfile
  pub joined_at : ℕ

pub record Session : Type 0 where
  pub peer_id : String
  pub ledger : Ledger
  pub local_presence : Option LocalPresence
  pub last_join_at : ℕ
  pub has_heartbeat : Bool
  pub local_sequence : ℕ

pub data SessionError : Type 0 where
  refused : AdmissionError → SessionError
  admission_pending not_joined not_seated profile_sync rate_limit : SessionError
  not_signed not_published : SessionError

-- What is handed to `signPresenceEvent` and `signRoomEvent`.
pub data EventInput : Type 0 where
  join_input : RoomProfile → ℕ → EventInput
  heartbeat_input : Option RoomProfile → ℕ → EventInput
  leave_input : EventInput
  message_input : String → EventInput

-- The digest of an avatar's data URL; `signs` for a sequence number and a time has nothing where
-- `signEvent` throws.
pub record Outlet : Type 0 where
  pub avatar_digest : String → String
  pub signs : EventInput → ℕ → ℕ → Option RoomEvent
  pub publishes : RoomEvent → Bool

unfoldable pub content_address_profile : Outlet → RoomProfile → RoomProfile
content_address_profile outlet profile = elim profile.avatar_url [
  | none ↦ profile
  | some url ↦ record profile { avatar_cid = some (append "sha256:" (outlet.avatar_digest url)) }
]

abbrev same_option : Option String → Option String → Bool
same_option none none = true
same_option (some a) (some b) = same a b
same_option _ _ = false

unfoldable pub profile_equals : RoomProfile → RoomProfile → Bool
profile_equals left right =
    same left.name right.name
    && same_option left.avatar_cid right.avatar_cid
    && same_option left.last_completed_session right.last_completed_session

unfoldable pub clear_local_presence : Session → Session
clear_local_presence s = record s { local_presence = none; has_heartbeat = false }

abbrev pub has_presence : Option LocalPresence → Bool
has_presence none = false
has_presence (some p) = true

-- `previousPresence?.joinedAt ?? now`
abbrev joined_at_or : ℕ → Option LocalPresence → ℕ
joined_at_or now none = now
joined_at_or now (some p) = p.joined_at

unfoldable pub is_changed : Option LocalPresence → RoomProfile → Bool
unfolding profile_equals
is_changed none profile = true
is_changed (some p) profile = not (profile_equals p.profile profile)

abbrev presence_input : PresenceAction → RoomProfile → Bool → ℕ → ℕ → EventInput
presence_input join profile changed joined_at now = join_input profile now
presence_input heartbeat profile changed joined_at now =
    heartbeat_input (if changed then some profile else none) joined_at

abbrev joined_then : PresenceAction → ℕ → ℕ → ℕ
joined_then join last_join_at now = now
joined_then heartbeat last_join_at now = last_join_at

-- `seats.find(seat => seat?.participant.peerId === localPeerId)`
abbrev pub find_own : String → List (Option HallSeat) → Option HallSeat
find_own peer [] = none
find_own peer (seat ∷ seats) = if is_own peer seat then seat else find_own peer seats

module _ (engine : Engine) (outlet : Outlet) where
  unfoldable pub room_snapshot : Session → ℕ → Session × RoomSnapshot
  room_snapshot s now =
      let shown = snapshot engine.locale_compare s.ledger now (some s.peer_id) in
      (record s { ledger = shown.0 }, shown.1)

  -- The end of `joinHall`, behind `publishEvent`.
  unfoldable pub settle : Session → ℕ → Session × Result SessionError RoomSnapshot
  unfolding room_snapshot clear_local_presence
  settle s now =
      let shown = room_snapshot s now in
      if is_admitted shown.1 s.peer_id
      then (record shown.0 { has_heartbeat = true }, ok shown.1)
      else (clear_local_presence shown.0, err admission_pending)

  -- An event that was signed is accepted and published.
  unfoldable pub announce :
      Session → Option RoomEvent → ℕ → Session × Result SessionError RoomSnapshot
  unfolding settle
  announce s none now = (s, err not_signed)
  announce s (some event) now =
      let accepted = record s { ledger = (accept engine s.ledger event).0 } in
      if outlet.publishes event then settle accepted now else (accepted, err not_published)

  -- `joinHall` from `previousPresence` on; `clock` is what `nextSequence` reads.
  unfoldable pub present :
      Session → RoomProfile → ℕ → ℕ → Session × Result SessionError RoomSnapshot
  unfolding announce presence_action_for is_changed next_sequence
  present s profile now clock =
      let joined_at = joined_at_or now s.local_presence in
      let action = presence_action_for (has_presence s.local_presence) s.last_join_at now in
      let changed = is_changed s.local_presence profile in
      let sequence = next_sequence s.local_sequence clock in
      let s' = record s {
        local_presence = some (record { profile = profile; joined_at = joined_at });
        last_join_at = joined_then action s.last_join_at now;
        local_sequence = sequence;
      } in
      announce s' (outlet.signs (presence_input action profile changed joined_at now) sequence now)
        now

  unfoldable pub join_hall :
      Session → RoomProfile → ℕ → ℕ → Session × Result SessionError RoomSnapshot
  unfolding admission_error clear_local_presence room_snapshot present content_address_profile
  join_hall s profile now clock = elim (admission_error engine s.ledger s.peer_id now) [
    | some error ↦ (clear_local_presence s, err (refused error))
    | none ↦
        let before = room_snapshot s now in
        let s' =
          if is_admitted before.1 s.peer_id then before.0 else clear_local_presence before.0 in
        present s' (content_address_profile outlet profile) now clock
  ]

  unfoldable pub leave_hall : Session → ℕ → ℕ → Session × Result SessionError RoomSnapshot
  unfolding clear_local_presence room_snapshot next_sequence
  leave_hall s now clock = elim s.local_presence [
    | none ↦ (let shown = room_snapshot s now in (shown.0, ok shown.1))
    | some presence ↦
        let sequence = next_sequence s.local_sequence clock in
        let counted = record s { local_sequence = sequence } in
        elim (outlet.signs leave_input sequence now) [
          | none ↦ (counted, err not_signed)
          | some event ↦
              let left = record counted {
                local_presence = none;
                ledger = (accept engine s.ledger event).0;
              } in
              if outlet.publishes event
              then (let shown = room_snapshot (clear_local_presence left) now in
                  (shown.0, ok shown.1))
              else (left, err not_published)
        ]
  ]

  -- `publishHallMessage` from the signing on.
  unfoldable pub speak_as : Session → String → ℕ → ℕ → Session × Result SessionError RoomMessage
  unfolding next_sequence
  speak_as s body now clock =
      let sequence = next_sequence s.local_sequence clock in
      let counted = record s { local_sequence = sequence } in
      elim (outlet.signs (message_input body) sequence now) [
        | none ↦ (counted, err not_signed)
        | some event ↦
            let accepted = accept engine s.ledger event in
            let s' = record counted { ledger = accepted.0 } in
            elim accepted.1 [
              | none ↦ (s', err rate_limit)
              | some message ↦
                  if outlet.publishes event then (s', ok message) else (s', err not_published)
            ]
      ]

  -- `publishHallMessage` with the presence that the node has.
  unfoldable pub post_with :
      Session → Option LocalPresence → String → ℕ → ℕ → Session × Result SessionError RoomMessage
  unfolding room_snapshot profile_equals speak_as
  post_with s none body now clock = (s, err not_joined)
  post_with s (some presence) body now clock =
      let shown = room_snapshot s now in
      elim (find_own s.peer_id shown.1.seats) [
        | none ↦ (shown.0, err not_seated)
        | some seat ↦
            if profile_equals seat.participant.profile presence.profile
            then speak_as shown.0 body now clock
            else (shown.0, err profile_sync)
      ]

  unfoldable pub publish_hall_message :
      Session → String → ℕ → ℕ → Session × Result SessionError RoomMessage
  unfolding post_with
  publish_hall_message s body now clock = post_with s s.local_presence body now clock
