-- ===== src/Panel/Merge.antt =====
-- How the panel takes a delta in: `mergeRoom` of src/client/network-store.ts. The panel holds the
-- room of its last answer, if any.
use Prim.Native.Nat.{Ordering}
use dsh_carbonclub.Base.{
  Bool, ◌&&◌, ◌||◌, String, Option, none, some, List, [], ◌∷◌, ◌++◌, map, keep, last, ltb, ◌==◌,
  if◌then◌else◌,
}
use dsh_carbonclub.Base.Dict.{Dict}
use dsh_carbonclub.Base.Dict
use dsh_carbonclub.Base.Keys.{mem, values}
use dsh_carbonclub.Base.Sort.{sort_by}
use dsh_carbonclub.Rules
use dsh_carbonclub.Types.{RoomMessage}
use dsh_carbonclub.Hall.Derive.{is_less, is_equal}
use dsh_carbonclub.Ledger.Defs.{to_list}
use dsh_carbonclub.Ledger.Snapshot.{RoomSnapshot, avatar_cids}
use dsh_carbonclub.Ledger.Calls.{RoomDelta, shown_ids}

-- `for (const message of messages) byId.set(message.id, message)`
unfoldable pub set_messages : Dict RoomMessage → List RoomMessage → Dict RoomMessage
set_messages by_id [] = by_id
set_messages by_id (m ∷ messages) = set_messages (Dict.set m.id m by_id) messages

-- `{ ...left, ...right }`
unfoldable pub spread : {V : Type 0} → Dict V → Dict V → Dict V
spread left [] = left
spread left ((key, value) ∷ right) = spread (Dict.set key value left) right

-- The entries of some keys.
unfoldable pub restrict : {V : Type 0} → List String → Dict V → Dict V
restrict ids entries = keep (λ entry. mem entry.0 ids) entries

module _ (locale_compare : String → String → Ordering) where
  -- `left.sentAt - right.sentAt || left.origin.localeCompare(right.origin) || ...` is negative.
  unfoldable pub message_less : RoomMessage → RoomMessage → Bool
  message_less left right =
      ltb left.sent_at right.sent_at
      || (left.sent_at == right.sent_at)
        && (is_less (locale_compare left.origin right.origin)
            || is_equal (locale_compare left.origin right.origin)
              && ltb left.sequence right.sequence)

  unfoldable pub merge_messages : List RoomMessage → List RoomMessage → List RoomMessage
  unfolding message_less set_messages
  merge_messages previous new =
      last Rules.client_message_window
        (sort_by message_less (values (set_messages (set_messages [] previous) new)))

  -- A delta that is no reset onto a room.
  unfoldable pub merge_into : RoomSnapshot → RoomSnapshot → Option String → RoomSnapshot
  unfolding merge_messages spread restrict
  merge_into previous new local_peer =
      let messages = merge_messages previous.messages new.messages in
      let relevant =
        shown_ids new.seats
        ++ (map (λ p. p.peer_id) new.queue
            ++ (map (λ m. m.origin) messages ++ to_list local_peer)) in
      let profiles = restrict relevant (spread previous.profiles new.profiles) in
      record new {
        messages = messages;
        profiles = profiles;
        avatars = restrict (avatar_cids profiles) (spread previous.avatars new.avatars);
      }

  unfoldable pub merge_room : Option RoomSnapshot → RoomDelta → Option String → RoomSnapshot
  unfolding merge_into
  merge_room none d local_peer = d.snapshot
  merge_room (some previous) d local_peer =
      if d.reset then d.snapshot else merge_into previous d.snapshot local_peer
