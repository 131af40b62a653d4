-- ===== src/Panel/Taken.antt =====
-- That a panel shows every message of the ledger's snapshot once it has taken a delta in.
use dsh_carbonclub.Base.{
  ℕ, ◌≤◌, ◌≡◌, ◌⊎◌, Bool, true, ◌&&◌, String, some, List, any, length, ltb, same,
}
use dsh_carbonclub.Base.Dict.{Dict}
use dsh_carbonclub.Base.Dict
use dsh_carbonclub.Base.Total.{total, one_if}
use dsh_carbonclub.Rules
use dsh_carbonclub.Types.{RoomEvent, RoomMessage}
use dsh_carbonclub.Ledger.Defs.{Ledger, is_chat}
use dsh_carbonclub.Ledger.Accept.{Engine}
use dsh_carbonclub.Ledger.Snapshot.{RoomSnapshot, snapshot}
use dsh_carbonclub.Ledger.Calls.{revision_of}
use dsh_carbonclub.Panel.Merged.{has_id}

-- How often messages have an id.
abbrev pub times : String → List RoomMessage → ℕ
times id messages = total (one_if (has_id id)) messages

-- A chat event of the ledger with this id, accepted behind a cursor.
abbrev pub has_behind : Ledger → ℕ → String → Bool
has_behind l after id =
    any (λ (e : RoomEvent). same e.event_id id && is_chat e.payload && ltb after (revision_of l e))
      l.events

-- Shown, or left out of as many messages as a panel shows.
abbrev pub IsShown : String → List RoomMessage → Type 0
IsShown id messages = (1 ≤ times id messages) ⊎ (length messages ≡ Rules.client_message_window)

module _ (engine : Engine) (l : Ledger) (now : ℕ) (viewer : String) where
  -- The ledger after its snapshot for the viewer, and the snapshot.
  abbrev pub kept : Ledger
  kept = (snapshot engine.locale_compare l now (some viewer)).0

  abbrev pub shown : RoomSnapshot
  shown = (snapshot engine.locale_compare l now (some viewer)).1

  -- What a panel that shows a room has of a message before it takes in what came behind its cursor: the
  -- message itself, or the ledger accepted the message behind the cursor.
  abbrev pub IsKnown : RoomSnapshot → ℕ → String → Type 0
  IsKnown previous after id = (1 ≤ times id previous.messages) ⊎ (has_behind kept after id ≡ true)
