-- ===== src/Panel/Store.antt =====
-- The store of src/client/network-store.ts: what the panel shows of the host that it is bound to, and
-- the answers that come later than they were asked for. A call is cut where it awaits the host, and a
-- call in the chain of `hallActions` begins where its turn comes.
use Prim.Native.Nat.{Ordering}
use dsh_carbonclub.Base.{
  ℕ, ◌+◌, Bool, true, false, ◌||◌, not, String, Option, none, some, List, [], ◌∷◌, ◌++◌, any, last,
  max, ◌==◌, same, if◌then◌else◌,
}
use dsh_carbonclub.Base.Result.{Result, ok, err}
use dsh_carbonclub.Types.{RoomMessage, Phase, starting, failed}
use dsh_carbonclub.Ledger.Snapshot.{RoomSnapshot}
use dsh_carbonclub.Ledger.Calls.{RoomDelta}
use dsh_carbonclub.Rules
use dsh_carbonclub.Panel.Merge.{merge_room}

pub data Busy : Type 0 where
  inviting connecting in_hall : Busy

pub record NetworkStatus : Type 0 where
  pub phase : Phase
  pub local_peer_id : Option String
  pub dial_addresses : List String
  pub connected_peers : ℕ
  pub discovered_peers : ℕ
  pub bootstrap_configured : ℕ
  pub relay_addresses : ℕ
  pub failure : Option String

-- `NetworkSnapshot`, whose invite is a text here, with the two counters and whether a host is bound.
pub record Store : Type 0 where
  pub status : NetworkStatus
  pub room : Option RoomSnapshot
  pub invite : Option String
  pub busy : Option Busy
  pub posting : Bool
  pub action_error : Option String
  pub binding : ℕ
  pub room_version : ℕ
  pub has_remote : Bool

abbrev initial_status : NetworkStatus
initial_status = record {
  phase = starting;
  local_peer_id = none;
  dial_addresses = [];
  connected_peers = 0;
  discovered_peers = 0;
  bootstrap_configured = 0;
  relay_addresses = 0;
  failure = none;
}

abbrev initial_store : ℕ → ℕ → Bool → Store
initial_store binding version has_remote = record {
  status = initial_status;
  room = none;
  invite = none;
  busy = none;
  posting = false;
  action_error = none;
  binding = binding;
  room_version = version;
  has_remote = has_remote;
}

unfoldable pub bind_network_remote : Store → Store
bind_network_remote s = initial_store (s.binding + 1) s.room_version true

-- What `bindNetworkRemote` returned, of the binding `current`.
unfoldable pub unbind_network_remote : ℕ → Store → Store
unbind_network_remote current s =
    if s.binding == current then initial_store (s.binding + 1) s.room_version false else s

-- What a refresh notes before it asks the host, and what becomes of the two requests.
pub record Ticket : Type 0 where
  pub of_binding : ℕ
  pub of_version : ℕ

abbrev pub ticket : Store → Ticket
ticket s = record { of_binding = s.binding; of_version = s.room_version }

pub data Fetched : Type 0 where
  threw : String → Fetched
  answered : Result String NetworkStatus → Result String RoomDelta → Fetched

unfoldable pub is_obsolete : Store → Ticket → Bool
is_obsolete s t = not (t.of_binding == s.binding) || not (t.of_version == s.room_version)

abbrev is_in_hall : Option Busy → Bool
is_in_hall (some in_hall) = true
is_in_hall _ = false

unfoldable pub show_failure : Store → String → Store
show_failure s message = record s {
  status = record s.status { phase = failed; failure = some message };
}

module _ (locale_compare : String → String → Ordering) where
  unfoldable pub show_answer : Store → Result String NetworkStatus → Result String RoomDelta → Store
  unfolding show_failure merge_room
  show_answer s (err message) room = show_failure s message
  show_answer s (ok status) (err message) = show_failure s message
  show_answer s (ok status) (ok delta) = record s {
    status = status;
    room = some (merge_room locale_compare s.room delta status.local_peer_id);
  }

  -- The end of `refreshCurrentNetwork`.
  unfoldable pub answer_refresh : Store → Ticket → Fetched → Store
  unfolding is_obsolete show_failure show_answer
  answer_refresh s t (threw message) = if is_obsolete s t then s else show_failure s message
  answer_refresh s t (answered status room) =
      if is_obsolete s t || is_in_hall s.busy || s.posting then s else show_answer s status room

-- A join or a leave, where its turn comes and where the host answers.
unfoldable pub begin_hall : ℕ → Store → Store
begin_hall current s =
    if s.binding == current
    then record s { room_version = s.room_version + 1; busy = some in_hall; action_error = none }
    else s

unfoldable pub end_hall : ℕ → Result String RoomSnapshot → Store → Store
end_hall current (ok room) s =
    if s.binding == current
    then record s {
      room = some room;
      action_error = none;
      room_version = s.room_version + 1;
      busy = none;
    }
    else s
end_hall current (err message) s =
    if s.binding == current
    then record s { action_error = some message; room_version = s.room_version + 1; busy = none }
    else s

-- A message, where it is posted, where its turn comes and where the host answers.
unfoldable pub post_network_message : Store → Store
post_network_message s =
    if not s.has_remote
    then record s { action_error = some "HOST_UNAVAILABLE" }
    else if s.posting
    then s
    else record s { posting = true; action_error = none }

unfoldable pub begin_post : ℕ → Store → Store
begin_post current s =
    if s.binding == current then record s { room_version = s.room_version + 1 } else s

unfoldable pub add_message : RoomMessage → RoomSnapshot → RoomSnapshot
add_message message room = record room {
  messages =
      if any (λ m. same m.id message.id) room.messages
      then room.messages
      else last Rules.client_message_window (room.messages ++ message ∷ []);
  updated_at = max room.updated_at message.sent_at;
}

abbrev with_message : RoomMessage → Store → Store
with_message message s = elim s.room [
  | none ↦ s
  | some room ↦ record s { room = some (add_message message room); action_error = none }
]

unfoldable pub end_post : ℕ → Result String RoomMessage → Store → Store
end_post current (ok message) s =
    if s.binding == current
    then record (with_message message s) { room_version = s.room_version + 1; posting = false }
    else s
end_post current (err message) s =
    if s.binding == current
    then record s {
      action_error = some message;
      room_version = s.room_version + 1;
      posting = false;
    }
    else s

abbrev unavailable : Store → Store
unavailable s = record s { action_error = some "HOST_UNAVAILABLE" }

-- A join or a leave that is asked for with no host; else its turn comes later.
unfoldable pub change_hall : Store → Store
change_hall s = if s.has_remote then s else unavailable s

-- `requestInvite` and `connectWithInvite` up to the request; one that is busy asks nothing.
unfoldable pub begin_request : Busy → Store → Store
begin_request kind s =
    if not s.has_remote
    then unavailable s
    else elim s.busy [ some other ↦ s | none ↦ record s { busy = some kind; action_error = none } ]

unfoldable pub end_invite : ℕ → Result String String → Store → Store
end_invite current (ok invite) s =
    if s.binding == current
    then record s { invite = some invite; busy = none; action_error = none }
    else s
end_invite current (err message) s =
    if s.binding == current then record s { busy = none; action_error = some message } else s

-- The answer of `connect`; the refresh that follows is one like any other.
unfoldable pub end_connect : ℕ → Option String → Store → Store
end_connect current none s =
    if s.binding == current then record s { busy = none; action_error = none } else s
end_connect current (some message) s =
    if s.binding == current then record s { busy = none; action_error = some message } else s

-- Evidence that could not be had.
unfoldable pub fail_evidence : ℕ → String → Store → Store
fail_evidence current message s =
    if s.binding == current then record s { action_error = some message } else s
