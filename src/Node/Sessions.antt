-- ===== src/Node/Sessions.antt =====
-- What `joinHall` and `publishHallMessage` of src/network/node.ts leave a node with.
use dsh_carbonclub.Base.{
  ℕ, ◌≡◌, refl, true, false, Option, none, some, Bool-cases, Option-cases, inl, inr,
}
use dsh_carbonclub.Base.Result.{Result, ok, err}
use dsh_carbonclub.Types.{RoomProfile, RoomEvent}
use dsh_carbonclub.Ledger.Accept.{Engine}
use dsh_carbonclub.Ledger.Snapshot.{RoomSnapshot}
use dsh_carbonclub.Ledger.Calls.{admission_error, accept}
use dsh_carbonclub.Node.Admitted.{is_admitted}
use dsh_carbonclub.Node.Session.{
  Session, SessionError, refused, admission_pending, not_signed, not_published, Outlet,
  clear_local_presence, has_presence, room_snapshot, settle, announce, present, join_hall,
  content_address_profile,
}

-- No presence, and no timer that would join again.
abbrev pub IsCleared : Session → Type 0
IsCleared s = (s.local_presence ≡ none) × (s.has_heartbeat ≡ false)

-- A node in the hall that keeps joining, one that was turned away, or one whose event did not get out.
abbrev pub IsSettled : Session → Result SessionError RoomSnapshot → Type 0
IsSettled s (ok shown) =
    (is_admitted shown s.peer_id ≡ true)
    × (s.has_heartbeat ≡ true)
    × (has_presence s.local_presence ≡ true)
IsSettled s (err (refused error)) = IsCleared s
IsSettled s (err admission_pending) = IsCleared s
IsSettled s (err not_signed) = has_presence s.local_presence ≡ true
IsSettled s (err not_published) = has_presence s.local_presence ≡ true
IsSettled s (err _) = ⊥

pub not_ok :
    {A P : Type 0} (e : SessionError) (r : Result SessionError A) {a : A} → r ≡ err e → r ≡ ok a → P
not_ok e r no_message h = absurd (cc)

module _ (engine : Engine) (outlet : Outlet) where
  settle-IsSettled :
      (s : Session) (now : ℕ)
      → has_presence s.local_presence ≡ true
      → IsSettled (settle engine outlet s now).0 (settle engine outlet s now).1
  unfolding settle room_snapshot clear_local_presence
  settle-IsSettled s now here =
      elim (Bool-cases (is_admitted (room_snapshot engine outlet s now).1 s.peer_id)) [
        | inl inside ↦ rw inside (inside, refl, here)
        | inr outside ↦ rw outside (refl, refl)
      ]

  announce-IsSettled :
      (s : Session) (event : Option RoomEvent) (now : ℕ)
      → has_presence s.local_presence ≡ true
      → IsSettled (announce engine outlet s event now).0 (announce engine outlet s event now).1
  unfolding announce
  announce-IsSettled s none now here = here
  announce-IsSettled s (some event) now here = elim (Bool-cases (outlet.publishes event)) [
    | inl out ↦
        rw out (settle-IsSettled (record s { ledger = (accept engine s.ledger event).0 }) now here)
    | inr kept ↦ rw kept here
  ]

  present-IsSettled :
      (s : Session) (profile : RoomProfile) (now clock : ℕ)
      → IsSettled
          (present engine outlet s profile now clock).0
          (present engine outlet s profile now clock).1
  unfolding present
  present-IsSettled s profile now clock = announce-IsSettled _ _ now refl

  -- A call of `joinHall` returns a snapshot in which the node is admitted, with its presence kept and its
  -- heartbeat running; or it was refused or is pending, and presence and heartbeat are cleared; or its
  -- event could not be signed or published, and its presence is kept.
  pub join_hall-IsSettled :
      (s : Session) (profile : RoomProfile) (now clock : ℕ)
      → IsSettled
          (join_hall engine outlet s profile now clock).0
          (join_hall engine outlet s profile now clock).1
  unfolding join_hall clear_local_presence
  join_hall-IsSettled s profile now clock =
      elim (Option-cases (admission_error engine s.ledger s.peer_id now)) [
        | inl admitted ↦
            rw (admitted, join_hall)
              (present-IsSettled _ (content_address_profile outlet profile) now clock)
        | inr (error, turned_away) ↦ rw (turned_away, join_hall) (refl, refl)
      ]
