-- ===== src/Panel/Merged.antt =====
-- What the panel shows after it has taken a delta in.
use Prim.Native.Nat.{Ordering}
use dsh_carbonclub.Base.{
  ℕ, ◌-◌, ◌≤◌, ◌≡◌, refl, Bool, true, false, String, Option, none, some, List, [], ◌∷◌, length,
  length-drop, length-keep-le, same, same_iff, arith, Bool-cases, inl, inr, if◌then◌else◌,
}
use dsh_carbonclub.Base.Dict.{Dict}
use dsh_carbonclub.Base.Dict
use dsh_carbonclub.Base.Keys.{mem, keys, values, AllDistinct, AllDistinct-snoc, keys-set}
use dsh_carbonclub.Base.Sort.{sort_by, total-sort_by}
use dsh_carbonclub.Base.Total.{total, one_if, total-drop-le}
use dsh_carbonclub.Rules
use dsh_carbonclub.Types.{RoomMessage, RoomProfile}
use dsh_carbonclub.Ledger.Defs.{Ledger}
use dsh_carbonclub.Ledger.Accept.{Engine}
use dsh_carbonclub.Ledger.Snapshot.{RoomSnapshot, snapshot}
use dsh_carbonclub.Ledger.Calls.{delta, delta_of, narrow, must_reset, changed_message_ids}
use dsh_carbonclub.Ledger.Views.{snapshot-IsView}
use dsh_carbonclub.Panel.Merge.{set_messages, message_less, merge_messages, merge_into, merge_room}

-- Each message stands under its own id, and no id stands twice.
abbrev pub AreKeyed : Dict RoomMessage → Type 0
AreKeyed [] = Unit
AreKeyed ((k, m) ∷ by_id) = (m.id ≡ k) × AreKeyed by_id

AreKeyed-set :
    (m : RoomMessage) (by_id : Dict RoomMessage) → AreKeyed by_id → AreKeyed (Dict.set m.id m by_id)
unfolding Dict.set
AreKeyed-set m [] v = (refl, tt)
AreKeyed-set m ((k, n) ∷ by_id) v = ground (arith, AreKeyed-set m by_id v.1)

AllDistinct-set :
    (m : RoomMessage) (by_id : Dict RoomMessage)
    → AllDistinct (keys by_id)
    → AllDistinct (keys (Dict.set m.id m by_id))
AllDistinct-set m by_id d = elim (Bool-cases (mem m.id (keys by_id))) [
  | inl old ↦ rw (keys-set m.id m by_id, old) d
  | inr new ↦ rw (keys-set m.id m by_id, new) (AllDistinct-snoc (keys by_id) m.id d new)
]

pub set_messages-AreKeyed :
    (by_id : Dict RoomMessage) (messages : List RoomMessage)
    → AreKeyed by_id
    → AllDistinct (keys by_id)
    → AreKeyed (set_messages by_id messages) × AllDistinct (keys (set_messages by_id messages))
unfolding set_messages
set_messages-AreKeyed by_id [] v d = (v, d)
set_messages-AreKeyed by_id (m ∷ messages) v d =
    set_messages-AreKeyed (Dict.set m.id m by_id) messages (AreKeyed-set m by_id v)
      (AllDistinct-set m by_id d)

abbrev pub has_id : String → RoomMessage → Bool
has_id id m = same m.id id

values-once :
    (id : String) (by_id : Dict RoomMessage)
    → AreKeyed by_id
    → AllDistinct (keys by_id)
    → total (one_if (has_id id)) (values by_id) ≤ (if mem id (keys by_id) then 1 else 0)
unfolding total values keys mem
values-once id [] v d = omega arith
values-once id ((k, m) ∷ by_id) v d =
    ground (arith, same_iff m.id id, same_iff k id, values-once id by_id v.1 d.1)

module _ (locale_compare : String → String → Ordering) where
  -- However often an id occurs in the room shown before and in a delta's messages, the merged
  -- messages have it at most once.
  pub merge_messages-once :
      (previous new : List RoomMessage) (id : String)
      → total (one_if (has_id id)) (merge_messages locale_compare previous new) ≤ 1
  unfolding merge_messages keys
  merge_messages-once previous new id =
      let old = set_messages-AreKeyed [] previous tt tt in
      let by_id = set_messages (set_messages [] previous) new in
      let v = set_messages-AreKeyed (set_messages [] previous) new old.0 old.1 in
      let sorted = sort_by (message_less locale_compare) (values by_id) in
      ground (
        arith,
        total-drop-le (one_if (has_id id)) (length sorted - Rules.client_message_window) sorted,
        total-sort_by (message_less locale_compare) (one_if (has_id id)) (values by_id),
        values-once id by_id v.0 v.1,
      )

-- A room that shows the same hall as a snapshot, with no more messages than a panel keeps.
pub record Shows (s room : RoomSnapshot) : Type 0 where
  pub seats : room.seats ≡ s.seats
  pub queue : room.queue ≡ s.queue
  pub queue_count : room.queue_count ≡ s.queue_count
  pub participant_count : room.participant_count ≡ s.participant_count
  pub position : room.local_queue_position ≡ s.local_queue_position
  pub cursor : room.cursor ≡ s.cursor
  pub checkpoint : room.checkpoint ≡ s.checkpoint
  pub updated_at : room.updated_at ≡ s.updated_at
  pub messages : length room.messages ≤ Rules.client_message_window

Shows-self : (s : RoomSnapshot) → length s.messages ≤ Rules.client_message_window → Shows s s
Shows-self s few = record {
  seats = refl;
  queue = refl;
  queue_count = refl;
  participant_count = refl;
  position = refl;
  cursor = refl;
  checkpoint = refl;
  updated_at = refl;
  messages = few;
}

-- What a delta leaves out does not matter.
merge_into-Shows :
    (locale_compare : String → String → Ordering) (previous s : RoomSnapshot)
    (messages : List RoomMessage) (profiles : Dict RoomProfile) (avatars : Dict String)
    (local_peer : Option String)
    → Shows s (
        merge_into locale_compare previous
          (record s { messages = messages; profiles = profiles; avatars = avatars })
          local_peer)
unfolding merge_into merge_messages
merge_into-Shows locale_compare previous s messages profiles avatars local_peer =
    let by_id = values (set_messages (set_messages [] previous.messages) messages) in
    let sorted = sort_by (message_less locale_compare) by_id in
    record {
      seats = refl;
      queue = refl;
      queue_count = refl;
      participant_count = refl;
      position = refl;
      cursor = refl;
      checkpoint = refl;
      updated_at = refl;
      messages = omega (arith, length-drop (length sorted - Rules.client_message_window) sorted);
    }

module _ (engine : Engine) (l : Ledger) (now : ℕ) (viewer : String) where
  full :
      Shows
        (snapshot engine.locale_compare l now (some viewer)).1
        (snapshot engine.locale_compare l now (some viewer)).1
  full = Shows-self _ (snapshot-IsView engine.locale_compare l now viewer).messages

  merge_room_of-Shows :
      (previous : Option RoomSnapshot) (after : Option ℕ) (reset : Bool)
      → let s = (snapshot engine.locale_compare l now (some viewer)).1 in
        let k = (snapshot engine.locale_compare l now (some viewer)).0 in
        Shows s (merge_room engine.locale_compare previous (delta_of k after reset s) (some viewer))
  unfolding merge_room narrow
  merge_room_of-Shows none none reset = full
  merge_room_of-Shows none (some after) true = full
  merge_room_of-Shows none (some after) false =
      let s = (snapshot engine.locale_compare l now (some viewer)).1 in
      let ids = changed_message_ids (snapshot engine.locale_compare l now (some viewer)).0 after in
      record {
        seats = refl;
        queue = refl;
        queue_count = refl;
        participant_count = refl;
        position = refl;
        cursor = refl;
        checkpoint = refl;
        updated_at = refl;
        messages =
            omega
              (arith, full.messages, length-keep-le (λ (m : RoomMessage). mem m.id ids) s.messages);
      }
  merge_room_of-Shows (some previous) none true = full
  merge_room_of-Shows (some previous) (some after) true = full
  merge_room_of-Shows (some previous) none false =
      let s = (snapshot engine.locale_compare l now (some viewer)).1 in
      merge_into-Shows engine.locale_compare previous s s.messages s.profiles s.avatars
        (some viewer)
  merge_room_of-Shows (some previous) (some after) false =
      let s = (snapshot engine.locale_compare l now (some viewer)).1 in
      let new = narrow (snapshot engine.locale_compare l now (some viewer)).0 after s in
      merge_into-Shows engine.locale_compare previous s new.messages new.profiles new.avatars
        (some viewer)

  -- Whatever room a panel shows and whatever cursor it asks with, once it has taken the answer in it
  -- shows the hall of the ledger's snapshot at that time: its seats, queue, counts, the viewer's
  -- position, the cursor and the checkpoint, with at most 50 messages.
  pub merge_room-Shows :
      (previous : Option RoomSnapshot) (after : Option ℕ)
      → Shows (snapshot engine.locale_compare l now (some viewer)).1 (
          merge_room engine.locale_compare previous
            (delta engine l after now (some viewer)).1
            (some viewer))
  unfolding merge_room delta
  merge_room-Shows previous after =
      merge_room_of-Shows previous after
        (must_reset (snapshot engine.locale_compare l now (some viewer)).0 after)
