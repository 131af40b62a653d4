-- ===== src/Hall/Chat.antt =====
-- The message list of `derive` (src/network/room-events.ts): its length and its runs of one origin.
use Prim.Native.Nat.{Ordering}
use dsh_carbonclub.Base.{
  ℕ, zero, suc, inl, inr, ◌-◌, ◌≤◌, ◌≡◌, refl, Bool, false, String, Option, none, some, List, [],
  ◌∷◌, ◌++◌, length, length-drop, drop, same_iff, Bool-cases, Option-cases, every, max, arith,
}
use dsh_carbonclub.Base.Sort.{sort_by}
use dsh_carbonclub.Rules
use dsh_carbonclub.Types.{
  join, heartbeat, leave, Payload, chat_message, hall_presence, hall_checkpoint, room_sync_request,
  RoomEvent, RoomMessage, RoomProfile,
}
use dsh_carbonclub.Hall.Defs.{
  Hall, empty_hall, fill_seats, remove_participant, advance, has_participant,
}
use dsh_carbonclub.Hall.Derive
use dsh_carbonclub.Hall.Expiry.{advance_ind}

-- No three messages in a row have one origin.
abbrev pub NobodyAlone : List RoomMessage → Type 0
NobodyAlone [] = Unit
NobodyAlone (a ∷ []) = Unit
NobodyAlone (a ∷ b ∷ []) = Unit
NobodyAlone (a ∷ b ∷ c ∷ rest) =
    ¬ ((a.origin ≡ c.origin) × (b.origin ≡ c.origin)) × NobodyAlone (b ∷ c ∷ rest)

NobodyAlone-tail : (m : RoomMessage) (ms : List RoomMessage) → NobodyAlone (m ∷ ms) → NobodyAlone ms
NobodyAlone-tail m [] h = tt
NobodyAlone-tail m (a ∷ []) h = tt
NobodyAlone-tail m (a ∷ b ∷ rest) h = h.1

NobodyAlone-drop : (n : ℕ) (ms : List RoomMessage) → NobodyAlone ms → NobodyAlone (drop n ms)
NobodyAlone-drop zero ms h = h
NobodyAlone-drop (suc n) [] h = tt
NobodyAlone-drop (suc n) (m ∷ ms) h = NobodyAlone-drop n ms (NobodyAlone-tail m ms h)

talks_alone-cons :
    (a b c : RoomMessage) (rest : List RoomMessage) (origin : String)
    → Derive.talks_alone (a ∷ b ∷ c ∷ rest) origin ≡ Derive.talks_alone (b ∷ c ∷ rest) origin
unfolding Derive.talks_alone
talks_alone-cons a b c rest origin =
    let long : suc (suc (suc (length rest))) - 2 ≡ suc (length rest) = omega arith in
    let short : suc (suc (length rest)) - 2 ≡ length rest = omega arith in rw (long, short)

-- A message of another origin than the last two keeps the list in order.
NobodyAlone-append :
    (ms : List RoomMessage) (m : RoomMessage)
    → NobodyAlone ms
    → Derive.talks_alone ms m.origin ≡ false
    → NobodyAlone (ms ++ m ∷ [])
unfolding Derive.talks_alone every
NobodyAlone-append [] m h e = tt
NobodyAlone-append (a ∷ []) m h e = tt
NobodyAlone-append (a ∷ b ∷ []) m h e =
    (λ both. ground (arith, same_iff a.origin m.origin, same_iff b.origin m.origin), tt)
NobodyAlone-append (a ∷ b ∷ c ∷ rest) m h e =
    (h.0, NobodyAlone-append (b ∷ c ∷ rest) m h.1 (rw (talks_alone-cons a b c rest m.origin) at e))

pub record IsChat (h : Hall) : Type 0 where
  pub retained : length h.messages ≤ Rules.max_retained_messages
  pub shared : NobodyAlone h.messages

-- Only the messages count.
IsChat-same : (h k : Hall) → k.messages ≡ h.messages → IsChat h → IsChat k
IsChat-same h k e v = record { retained = rw e v.retained; shared = rw e v.shared }

remove_participant-IsChat :
    (h : Hall) (peer : String) (at : ℕ) (cooldown : Bool)
    → IsChat h
    → IsChat (remove_participant h peer at cooldown)
unfolding remove_participant
remove_participant-IsChat h peer at cooldown v = IsChat-same h _ refl v

module _ (h : Hall) (e : RoomEvent) (v : IsChat h) where
  refresh-IsChat :
      (profile : Option RoomProfile) → IsChat (Derive.refresh h e.origin profile e.issued_at)
  unfolding Derive.refresh
  refresh-IsChat none = IsChat-same h (Derive.refresh h e.origin none e.issued_at) (ground arith) v
  refresh-IsChat (some given) =
      IsChat-same h (Derive.refresh h e.origin (some given) e.issued_at) (ground arith) v

  heard-IsChat :
      (m : RoomMessage) (k : Hall)
      → Derive.talks_alone h.messages m.origin ≡ false
      → k.messages ≡ Derive.retain (h.messages ++ m ∷ [])
      → IsChat k
  unfolding Derive.retain
  heard-IsChat m k other s = record {
    retained =
        rw s
          (omega (arith, length-drop (length (h.messages ++ m ∷ []) - 200) (h.messages ++ m ∷ [])));
    shared = rw s (
        NobodyAlone-drop (length (h.messages ++ m ∷ []) - 200) (h.messages ++ m ∷ [])
          (NobodyAlone-append h.messages m v.shared other));
  }

  on_chat-IsChat : (body : String) → IsChat (Derive.on_chat h e body)
  unfolding Derive.on_chat
  on_chat-IsChat body = elim (Option-cases (Derive.seat_of e.origin h.seats)) [
    | inl unseated ↦ rw (unseated, Derive.on_chat) v
    | inr (s, found) ↦ elim (Bool-cases (Derive.is_too_soon s e.issued_at)) [
      | inl soon ↦ rw (found, Derive.on_chat, soon) v
      | inr late ↦ elim (Bool-cases (Derive.talks_alone h.messages e.origin)) [
        | inl alone ↦ rw (found, Derive.on_chat, late, alone) v
        | inr other ↦ rw (found, Derive.on_chat, late, other) (heard-IsChat _ _ other refl)
      ]
    ]
  ]

  module _ (locale_compare : String → String → Ordering) where
    on_join-IsChat :
        (profile : RoomProfile) (joined_at : ℕ)
        → IsChat (Derive.on_join locale_compare h e profile joined_at)
    unfolding Derive.on_join Derive.admit fill_seats
    on_join-IsChat profile joined_at =
        IsChat-same h (Derive.on_join locale_compare h e profile joined_at) (ground arith) v

    on_payload-IsChat : (payload : Payload) → IsChat (Derive.on_payload locale_compare h e payload)
    unfolding Derive.on_payload Derive.on_presence
    on_payload-IsChat (chat_message body) = on_chat-IsChat body
    on_payload-IsChat (hall_presence (join profile joined_at _)) = on_join-IsChat profile joined_at
    on_payload-IsChat (hall_presence (heartbeat profile joined_at)) =
        elim (Bool-cases (has_participant h e.origin)) [
          | inl known ↦ rw (known, Derive.on_payload) (refresh-IsChat profile)
          | inr new ↦ rw (new, Derive.on_payload) v
        ]
    on_payload-IsChat (hall_presence leave) =
        remove_participant-IsChat h e.origin e.issued_at false v
    on_payload-IsChat (hall_checkpoint _) = v
    on_payload-IsChat (room_sync_request _) = v

module _ (locale_compare : String → String → Ordering) where
  run-IsChat :
      (h : Hall) (events : List RoomEvent) → IsChat h → IsChat (Derive.run locale_compare h events)
  unfolding Derive.run Derive.step
  run-IsChat h [] v = v
  run-IsChat h (e ∷ events) v =
      let later = advance h e.issued_at in
      let h' = record later { updated_at = max later.updated_at e.issued_at } in
      run-IsChat (Derive.step locale_compare h e) events (
        on_payload-IsChat h' e
          (IsChat-same later h' refl (advance_ind IsChat remove_participant-IsChat h e.issued_at v))
          locale_compare e.payload)

  -- The derived hall keeps at most 200 messages, and no three of them in a row have one origin.
  pub derive-IsChat :
      (events : List RoomEvent) (now : ℕ) → IsChat (Derive.derive locale_compare events now)
  unfolding Derive.derive
  derive-IsChat events now =
      let sorted = sort_by (Derive.event_less locale_compare) events in
      advance_ind IsChat remove_participant-IsChat (Derive.run locale_compare empty_hall sorted) now
        (run-IsChat empty_hall sorted (record { retained = omega arith; shared = tt }))
