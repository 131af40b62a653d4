-- ===== src/Transport/Told.antt =====
-- What the check of a peer's protocol found: `verifyPeerProtocol` of src/network/node.ts.
use dsh_carbonclub.Base.{
  ℕ, ◌+◌, ◌≡◌, refl, sym, ◌∙◌, Bool, true, ◌&&◌, String, none, some, List, [], ◌∷◌, ltb, Bool-cases,
  Option-cases, inl, inr,
}
use dsh_carbonclub.Base.Result.{Result, ok, err, guard-eq-ok}
use dsh_carbonclub.Base.Keys.{mem}
use dsh_carbonclub.Transport.Defs.{CarbonNode, hall_sync_protocol}
use dsh_carbonclub.Transport.Publish.{is_ready}
use dsh_carbonclub.Transport.Connect.{
  dial_timeout_ms, ConnectError, not_running, not_connected, protocol_mismatch, check_timeout,
  CheckRound, check_rounds, verify_peer_protocol,
}

-- A round before the deadline in which Identify had told the protocols of the peer, the hall's
-- among them; in the rounds before it Identify had told none and the peer was connected.
pub data IsTold (deadline : ℕ) : List CheckRound → Type 0 where
  told :
      (r : CheckRound) (rounds : List CheckRound) (protocols : List String)
      → (ltb r.at deadline && r.is_same_node) ≡ true
      → r.protocols ≡ some protocols
      → mem hall_sync_protocol protocols ≡ true
      → IsTold deadline (r ∷ rounds)
  waited :
      (r : CheckRound) (rounds : List CheckRound)
      → (ltb r.at deadline && r.is_same_node) ≡ true
      → r.protocols ≡ none
      → r.is_connected ≡ true
      → IsTold deadline rounds
      → IsTold deadline (r ∷ rounds)

failed_check :
    {P : Type 0} (e : ConnectError) (r : Result ConnectError (Unit {0})) → r ≡ err e → r ≡ ok tt → P
failed_check e r is_error h = absurd (cc)

check_rounds-IsTold :
    (deadline : ℕ) (rounds : List CheckRound)
    → check_rounds deadline rounds ≡ ok tt
    → IsTold deadline rounds
unfolding check_rounds
check_rounds-IsTold deadline [] h = absurd (cc)
check_rounds-IsTold deadline (r ∷ rounds) h =
    let result = check_rounds deadline (r ∷ rounds) in
    elim (Bool-cases (ltb r.at deadline && r.is_same_node)) [
      | inr late ↦ failed_check check_timeout result (rw (late, check_rounds) refl) h
      | inl early ↦ elim (Option-cases r.protocols) [
        | inl none_yet ↦ elim (Bool-cases r.is_connected) [
          | inl connected ↦ waited r rounds early none_yet connected (
              check_rounds-IsTold deadline rounds
                (sym (rw (early, none_yet, connected, check_rounds) refl) ∙ h))
          | inr gone ↦
              failed_check not_connected result (rw (early, none_yet, gone, check_rounds) refl) h
        ]
        | inr (protocols, known) ↦ elim (Bool-cases (mem hall_sync_protocol protocols)) [
          | inl speaks ↦ told r rounds protocols early known speaks
          | inr other ↦
              failed_check protocol_mismatch result (rw (early, known, other, check_rounds) refl) h
        ]
      ]
    ]

-- A check that passed was of a node that was online and connected to the peer.
pub record IsSpeaking (n : CarbonNode) (is_connected : Bool) (now : ℕ) (rounds : List CheckRound)
    : Type 0 where
  pub ready : is_ready n ≡ true
  pub connected : is_connected ≡ true
  pub is_told : IsTold (now + dial_timeout_ms) rounds

pub verify_peer_protocol-IsSpeaking :
    (n : CarbonNode) (is_connected : Bool) (now : ℕ) (rounds : List CheckRound)
    → verify_peer_protocol n is_connected now rounds ≡ ok tt
    → IsSpeaking n is_connected now rounds
unfolding verify_peer_protocol
verify_peer_protocol-IsSpeaking n is_connected now rounds h =
    let (ready, h1) = guard-eq-ok (is_ready n) not_running _ h in
    let (connected, h2) = guard-eq-ok is_connected not_connected _ h1 in
    record {
      ready = ready;
      connected = connected;
      is_told = check_rounds-IsTold (now + dial_timeout_ms) rounds h2;
    }
