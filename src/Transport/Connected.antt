-- ===== src/Transport/Connected.antt =====
-- What a node has done when `connect` of src/network/node.ts returns.
use dsh_carbonclub.Base.{
  ℕ, ◌≡◌, refl, sym, ap, ◌∙◌, Bool, true, String, List, [], ◌∷◌, keep, take, some, false, same_self,
  Bool-cases, ◌⊎◌, inl, inr, arith,
}
use dsh_carbonclub.Base.Result.{Result, ok, err, ◌>>◌, guard-eq-ok, bind-eq-ok, ok_injective}
use dsh_carbonclub.Base.Keys.{mem}
use dsh_carbonclub.Codec.{Codec}
use dsh_carbonclub.Invite.Dial.{InviteError}
use dsh_carbonclub.Invite.Defs.{InvitePayload, SigningKeys, decode_invite}
use dsh_carbonclub.Node.Peers.{is_nil}
use dsh_carbonclub.Node.Recalled.{IsEarlier, get-remember_peer}
use dsh_carbonclub.Base.Dict
use dsh_carbonclub.Transport.Defs.{CarbonNode, Wire, is_allowed_address}
use dsh_carbonclub.Transport.Publish.{is_ready}
use dsh_carbonclub.Transport.Calls.{remember}
use dsh_carbonclub.Transport.Connect.{
  ConnectError, not_running, no_address, no_allowed_address, refused_invite, not_connected,
  protocol_mismatch, check_timeout, not_dialled, not_remembered, could_not_connect, Attempt,
  verify_peer_protocol, attempt, after_attempt, try_addresses, connect_to, connect,
}
use dsh_carbonclub.Transport.Told.{IsSpeaking, verify_peer_protocol-IsSpeaking}

-- An address that was dialled and whose peer passed the check of its protocol and was remembered.
pub record IsReached (a : Attempt) : Type 0 where
  pub dialled : a.dials ≡ true
  pub checked : IsSpeaking a.node a.is_connected a.checked_at a.rounds

attempt-IsReached : (a : Attempt) → attempt a ≡ ok tt → IsReached a
unfolding attempt
attempt-IsReached a h =
    let (dialled, h1) = guard-eq-ok a.dials not_dialled _ h in
    let (u, checked, h2) =
      bind-eq-ok (verify_peer_protocol a.node a.is_connected a.checked_at a.rounds) _ h1 in
    record {
      dialled = dialled;
      checked = verify_peer_protocol-IsSpeaking a.node a.is_connected a.checked_at a.rounds checked;
    }

after_attempt-ok :
    (r : Result ConnectError (Unit {0})) (rest : Bool × Result ConnectError (Unit {0}))
    → (after_attempt r rest).1 ≡ ok tt
    → (r ≡ ok tt) ⊎ (rest.1 ≡ ok tt)
after_attempt-ok (ok u) rest h = inl refl
after_attempt-ok (err not_remembered) rest h = inr h
after_attempt-ok (err protocol_mismatch) rest h = absurd (cc)
after_attempt-ok (err check_timeout) rest h = absurd (cc)
after_attempt-ok (err not_running) rest h = inr h
after_attempt-ok (err no_address) rest h = inr h
after_attempt-ok (err no_allowed_address) rest h = inr h
after_attempt-ok (err (refused_invite e)) rest h = inr h
after_attempt-ok (err not_connected) rest h = inr h
after_attempt-ok (err not_dialled) rest h = inr h
after_attempt-ok (err could_not_connect) rest h = inr h

after_attempt-remembered :
    (r : Result ConnectError (Unit {0})) (rest : Bool × Result ConnectError (Unit {0}))
    → (rest.1 ≡ ok tt → rest.0 ≡ true)
    → (after_attempt r rest).1 ≡ ok tt
    → (after_attempt r rest).0 ≡ true
after_attempt-remembered (ok u) rest before h = refl
after_attempt-remembered (err not_remembered) rest before h = refl
after_attempt-remembered (err protocol_mismatch) rest before h = absurd (cc)
after_attempt-remembered (err check_timeout) rest before h = absurd (cc)
after_attempt-remembered (err not_running) rest before h = before h
after_attempt-remembered (err no_address) rest before h = before h
after_attempt-remembered (err no_allowed_address) rest before h = before h
after_attempt-remembered (err (refused_invite e)) rest before h = before h
after_attempt-remembered (err not_connected) rest before h = before h
after_attempt-remembered (err not_dialled) rest before h = before h
after_attempt-remembered (err could_not_connect) rest before h = before h

-- Some address of an invite was reached.
abbrev pub IsFound : (String → Attempt) → List String → Type 0
IsFound attempts addresses =
    (address : String) × (mem address addresses ≡ true) × IsReached (attempts address)

try_addresses-remembered :
    (attempts : String → Attempt) (addresses : List String)
    → (try_addresses attempts addresses).1 ≡ ok tt
    → (try_addresses attempts addresses).0 ≡ true
unfolding try_addresses
try_addresses-remembered attempts [] h = absurd (cc)
try_addresses-remembered attempts (address ∷ addresses) h =
    after_attempt-remembered (attempt (attempts address)) (try_addresses attempts addresses)
      (try_addresses-remembered attempts addresses) h

mem-later :
    (first found : String) (addresses : List String)
    → mem found addresses ≡ true
    → mem found (first ∷ addresses) ≡ true
unfolding mem
mem-later first found addresses h = ground (arith, h)

try_addresses-IsFound :
    (attempts : String → Attempt) (addresses : List String)
    → (try_addresses attempts addresses).1 ≡ ok tt
    → IsFound attempts addresses
unfolding try_addresses mem
try_addresses-IsFound attempts [] h = absurd (cc)
try_addresses-IsFound attempts (address ∷ addresses) h =
    elim (after_attempt-ok (attempt (attempts address)) (try_addresses attempts addresses) h) [
      | inl reached ↦
          (address, rw (same_self address) refl, attempt-IsReached (attempts address) reached)
      | inr others ↦
          let (found, is_in, reached) = try_addresses-IsFound attempts addresses others in
          (found, mem-later address found addresses is_in, reached)
    ]

module _ (wire : Wire) {Public Private : Type 0} (codec : Codec)
    (keys : SigningKeys Public Private) where
  -- A ready node, an invite that it decoded, and an address of it that was reached.
  pub record IsConnected (n : CarbonNode) (code : String) (attempts : String → Attempt)
      (now later : ℕ) (peer : String) : Type 0 where
    pub ready : is_ready n ≡ true
    pub invite : InvitePayload
    pub decoded : decode_invite codec keys wire.dialer code now ≡ ok invite
    pub named : invite.unsigned.peer_id ≡ peer
    pub found : IsFound attempts invite.unsigned.addresses
    pub remembered :
        Dict.get peer (connect wire codec keys n code attempts now later).0.remembered
        ≡ some (record {
          peer_id = peer;
          addresses = take 4 (
              keep
                (λ (address : String). is_allowed_address wire address peer)
                invite.unsigned.addresses);
          remembered_at = later;
        })

  connect_error :
      {P : Type 0} (e : ConnectError) (r : Result ConnectError String) {peer : String}
      → r ≡ err e
      → r ≡ ok peer
      → P
  connect_error e r is_error h = absurd (cc)

  connect_to-ok :
      (n : CarbonNode) (r : Result InviteError InvitePayload) (attempts : String → Attempt)
      (now : ℕ) (peer : String)
      → (connect_to wire codec keys n r attempts now).1 ≡ ok peer
      → (invite : InvitePayload) × (r ≡ ok invite)
        × (invite.unsigned.peer_id ≡ peer)
        × IsFound attempts invite.unsigned.addresses
        × (is_nil (
              keep
                (λ (address : String). is_allowed_address wire address peer)
                invite.unsigned.addresses)
            ≡ false)
        × ((connect_to wire codec keys n r attempts now).0
            ≡ remember wire n peer invite.unsigned.addresses now)
  unfolding connect_to
  connect_to-ok n (err e) attempts now peer h = absurd (cc)
  connect_to-ok n (ok invite) attempts now peer h =
      let own = invite.unsigned.peer_id in
      let addresses = invite.unsigned.addresses in
      let r = (connect_to wire codec keys n (ok invite) attempts now).1 in
      let tried = try_addresses attempts addresses in
      elim (Bool-cases
        (is_nil (keep (λ (address : String). is_allowed_address wire address own) addresses))) [
          | inl nothing ↦ connect_error no_allowed_address r (rw (nothing, connect_to) refl) h
          | inr allowed ↦
              let all_tried : tried.1 >> ok own ≡ ok peer =
                sym (rw (allowed, connect_to) refl) ∙ h in
              let (u, reached, same_peer) = bind-eq-ok tried.1 _ all_tried in
              let remembered = try_addresses-remembered attempts addresses reached in
              (
                invite,
                refl,
                ok_injective same_peer,
                try_addresses-IsFound attempts addresses reached,
                ap
                      (λ (q : String).
                        is_nil (
                          keep (λ (address : String). is_allowed_address wire address q) addresses))
                      (sym (ok_injective same_peer))
                    ∙ allowed,
                rw (allowed, connect_to, remembered)
                    (ap (λ (p : String). remember wire n p addresses now) (ok_injective same_peer)),
              )
        ]

  -- A node that connects by a code was ready, decoded it to an invite of the peer that it returns, dialled
  -- an address of the invite, and was told in time that the peer speaks its protocol. Where all
  -- peers that it had, each once and under its own id, were remembered before that, it remembers the peer
  -- from then on, with the first four of the invite's addresses that it allows.
  pub connect-IsConnected :
      (n : CarbonNode) (code : String) (attempts : String → Attempt) (now later : ℕ) (peer : String)
      → IsEarlier later n.remembered
      → (connect wire codec keys n code attempts now later).1 ≡ ok peer
      → IsConnected n code attempts now later peer
  unfolding connect remember
  connect-IsConnected n code attempts now later peer earlier h =
      let r = decode_invite codec keys wire.dialer code now in
      let all = connect wire codec keys n code attempts now later in
      elim (Bool-cases (is_ready n)) [
        | inr stopped ↦ connect_error not_running all.1 (rw (stopped, connect) refl) h
        | inl ready ↦
            let same_call : all ≡ connect_to wire codec keys n r attempts later =
              rw (ready, connect) refl in
            let (invite, decoded, named, found, allowed, kept) =
              connect_to-ok n r attempts later peer
                (sym (ap (λ (a : CarbonNode × Result ConnectError String). a.1) same_call) ∙ h) in
            record {
              ready = ready;
              invite = invite;
              decoded = decoded;
              named = named;
              found = found;
              remembered =
                  ap (λ (a : CarbonNode × Result ConnectError String). Dict.get peer a.0.remembered)
                    same_call
                  ∙ ap (λ (m : CarbonNode). Dict.get peer m.remembered) kept
                  ∙ get-remember_peer (is_allowed_address wire) n.remembered peer
                      invite.unsigned.addresses later earlier allowed;
            }
      ]
