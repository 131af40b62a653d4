-- ===== src/Transport/Examples.antt =====
-- A node that gossip reaches, that answers a sync and asks for one, and the theorems at it.
use Prim.Native.Nat.{Ordering}
use dsh_carbonclub.Base.{
  ℕ, ◌≡◌, refl, Bool, true, false, Option, none, some, List, [], ◌∷◌, map, keep, any, find, every,
  same, arith, ap, if◌then◌else◌,
}
use dsh_carbonclub.Base.Dict.{get, has, set, delete}
use dsh_carbonclub.Base.Sort.{sort_by}
use dsh_carbonclub.Base.Result.{ok}
use dsh_carbonclub.Types.{RoomEvent, HallCheckpoint}
use dsh_carbonclub.Codec.{Byte, byte, Bytes}
use dsh_carbonclub.Budget.Queue.{Queue, new_queue, enqueue, end_first, end_task}
use dsh_carbonclub.Base.Keys.{mem}
use dsh_carbonclub.Hall.Defs.{advance, has_participant}
use dsh_carbonclub.Hall.Derive.{derive}
use dsh_carbonclub.Ledger.Defs.{expire_presence_indexes}
use dsh_carbonclub.Ledger.Accept.{is_admissible, store_event}
use dsh_carbonclub.Ledger.Calls.{accept, events_for_sync}
use dsh_carbonclub.Verify.Values.{
  pos, Value, array, integer, text, object, Values, end, item, closed, field, property, look_up,
}
use dsh_carbonclub.Verify.Payloads.{
  has_leading_zero_bits, zero_bytes, assert_profile, assert_admission, assert_presence,
  assert_payload,
}
use dsh_carbonclub.Verify.Events.{assert_unsigned, canonical, verify_room_event}
use dsh_carbonclub.Verify.Typed.{
  read_event, read_content, read_presence, read_join, read_profile, read_admission,
}
use dsh_carbonclub.Verify.Examples.{outside, keys, join_at}
use dsh_carbonclub.Invite.Examples.{dialer}
use dsh_carbonclub.Node.Limits.{
  allow_window, allow_inbound, allow_transport_inbound, sweep, has_id_length, allow_sync,
  sweep_sync,
}
use dsh_carbonclub.Node.Session.{Outlet}
use dsh_carbonclub.Transport.Defs.{
  CarbonNode, Wire, hall_topic, verify_event, receive, take_in, ingest, ingest_first, run_task,
}
use dsh_carbonclub.Transport.Sync.{
  max_sync_bytes, gather, is_envelope, is_request_for, requested, read_request, answer_request,
  answer_sync, history_of, event_values, answer_value,
}
use dsh_carbonclub.Transport.Publish.{Poll}
use dsh_carbonclub.Transport.Answered.{IsAnswer, answer_sync-IsAnswer}
use dsh_carbonclub.Transport.Exchange.{IsPrinted, history_of-answer_sync}
use dsh_carbonclub.Rules
use dsh_carbonclub.Transport.Calls.{load_peers, new_node, begin_start, come_up}
use dsh_carbonclub.Transport.Runs.{new, next, begins, comes_up, receives, runs}
use dsh_carbonclub.Transport.Sound.{IsNode}
use dsh_carbonclub.Transport.Reached.{Reach-IsNode}

-- The byte of an event in an answer, of a join, and of a request.
abbrev event_byte : Byte
event_byte = byte true false false false false false false false

abbrev pub join_byte : Byte
join_byte = byte false true false false false false false false

abbrev pub request_byte : Byte
request_byte = byte false false false false false false false false

-- Ann's request for the events of Bob.
abbrev request : Value
request = object (
    field "version" (integer (pos 1)) (
      field "roomId" (text "hall") (
        field "eventId" (text "r1") (
          field "origin" (text "ann") (
            field "sequence" (integer (pos 2)) (
              field "issuedAt" (integer (pos 1_000_500)) (
                field "publicKey" (text "key") (
                  field "signature" (text "signature") (
                    field "kind" (text "room.sync.request") (
                      field "payload" (object (field "targetPeerId" (text "bob") closed))
                        closed))))))))))

abbrev envelope : Value
envelope = object (
    field "version" (integer (pos 1))
      (field "topic" (text hall_topic) (field "request" request closed)))

-- As many joins as there are bytes.
abbrev values_of : Bytes → Values
values_of [] = end
values_of (b ∷ bytes) = item (join_at 995_000) (values_of bytes)

-- An answer of these values.
abbrev answer_of : Values → Value
answer_of values = object (
    field "version" (integer (pos 1))
      (field "topic" (text hall_topic) (field "events" (array values) closed)))

-- A byte for each of the values, but for their texts.
abbrev bytes_of : Values → Bytes
bytes_of end = []
bytes_of (item value values) = event_byte ∷ bytes_of values

abbrev print_value : Value → Bytes
print_value (object (field version one (field topic hall (field events (array vs) closed)))) =
    bytes_of vs
print_value _ = join_byte ∷ []

abbrev parse_bytes : Bytes → Option Value
parse_bytes [] = some (answer_of end)
parse_bytes (byte true _ _ _ _ _ _ _ ∷ bytes) =
    some (answer_of (item (join_at 995_000) (values_of bytes)))
parse_bytes (byte false true _ _ _ _ _ _ ∷ bytes) = some (join_at 995_000)
parse_bytes (byte false false _ _ _ _ _ _ ∷ bytes) = some envelope

abbrev pub wire : Wire
wire = record {
  outside = outside;
  keys = keys;
  engine = record {
    locale_compare = λ a b. if same a b then Ordering.eq else Ordering.lt;
    text_less = λ a b. false;
    digest = λ c. "sha256";
  };
  dialer = dialer;
  parse = parse_bytes;
  print = print_value;
  event_value = λ e. join_at 995_000;
}

abbrev outlet : Outlet
outlet = record {
  avatar_digest = λ url. "sha256";
  signs = λ input sequence now. none;
  publishes = λ e. true;
}

abbrev seals : HallCheckpoint → ℕ → ℕ → Option RoomEvent
seals payload sequence now = none

abbrev gate : Option (RoomEvent → Bool)
gate = none

unfoldable pub program : Unit {0}
unfolding same any find keep every look_up property get has set delete zero_bytes
    has_leading_zero_bits assert_profile assert_admission assert_presence assert_payload
    assert_unsigned canonical verify_room_event read_event read_content read_presence read_join
    read_profile read_admission new_queue enqueue end_first end_task sweep has_id_length
    allow_window allow_inbound allow_transport_inbound sweep_sync allow_sync verify_event receive
    take_in ingest ingest_first run_task gather is_envelope is_request_for requested read_request
    answer_request answer_value answer_sync history_of load_peers new_node begin_start come_up
program = tt

abbrev pub queue : Queue Bytes
queue = record { capacity = 64; pending_count = 0; tail = []; ended = [] }

queue_made : new_queue 64 ≡ some queue
unfolding program
queue_made = refl

abbrev bob : CarbonNode
bob = new_node "bob" [] queue

-- Bob's node starts and comes up.
abbrev started : CarbonNode
started = come_up (begin_start bob) true true

-- It gets Ann's join by gossip, and a task of its queue takes it in.
abbrev heard : CarbonNode
heard =
    receive wire started
      (record { topic = hall_topic; contents = join_byte ∷ []; signed_by = some "ann" }) 1_000_900

abbrev told : CarbonNode
told = run_task wire heard 1_001_000 1_001_000

-- Its ledger has the join.
told_of_ann : map (λ (e : RoomEvent). e.origin) told.session.ledger.events ≡ "ann" ∷ []
unfolding program accept is_admissible expire_presence_indexes store_event
told_of_ann = refl

Reach-IsNode_example : IsNode wire outlet seals gate told
Reach-IsNode_example = Reach-IsNode wire outlet seals gate (
    next
      (next
        (next (next (new "bob" [] queue (omega arith) queue_made) (begins bob))
          (comes_up (begin_start bob) true true))
        (receives started _ 1_000_900))
      (runs heard 1_001_000 1_001_000))

-- Ann asks Bob's node, which has her join.
asked :
    (answer_sync wire told "ann" ((request_byte ∷ []) ∷ []) 1_001_000 1_001_000).1
    ≡ ok (event_byte ∷ [])
unfolding program accept is_admissible expire_presence_indexes store_event events_for_sync sort_by
    mem derive advance has_participant
asked = refl

answer_sync-IsAnswer_example :
    IsAnswer wire told "ann" ((request_byte ∷ []) ∷ []) 1_001_000 1_001_000 (event_byte ∷ [])
answer_sync-IsAnswer_example =
    answer_sync-IsAnswer wire told "ann" ((request_byte ∷ []) ∷ []) 1_001_000 1_001_000
      (event_byte ∷ []) asked

values_of-bytes_of :
    (events : List RoomEvent)
    → values_of (bytes_of (event_values wire events)) ≡ event_values wire events
values_of-bytes_of [] = refl
values_of-bytes_of (e ∷ events) = ap (item (join_at 995_000)) (values_of-bytes_of events)

wire-IsPrinted : (events : List RoomEvent) → IsPrinted wire (answer_value wire events)
unfolding program
wire-IsPrinted [] = refl
wire-IsPrinted (e ∷ events) =
    ap (λ (vs : Values). some (answer_of (item (join_at 995_000) vs))) (values_of-bytes_of events)

history_of-answer_sync_example :
    (gather max_sync_bytes [] ((event_byte ∷ []) ∷ []) ≡ some (event_byte ∷ []))
    × (history_of wire (event_byte ∷ [])
        ≡ some (
            event_values wire
              (events_for_sync wire.engine told.session.ledger Rules.max_sync_events 1_001_000).1))
history_of-answer_sync_example =
    history_of-answer_sync wire told "ann" ((request_byte ∷ []) ∷ []) ((event_byte ∷ []) ∷ [])
      1_001_000 1_001_000 (event_byte ∷ []) wire-IsPrinted asked refl

-- Two rounds, the second of which finds a subscriber.
abbrev polls : List Poll
polls =
    record { at = 1_000; has_subscriber = false; is_connected = true }
    ∷ record { at = 1_025; has_subscriber = true; is_connected = true }
    ∷ []
