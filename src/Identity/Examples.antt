-- ===== src/Identity/Examples.antt =====
-- A node's credentials, and the theorems at them.
use dsh_carbonclub.Base.{◌≡◌, refl, String, none, some, [], ◌∷◌, same, arith}
use dsh_carbonclub.Base.Sort.{sort_by}
use dsh_carbonclub.Base.Result.{ok}
use dsh_carbonclub.Verify.Values.{pos, array}
use dsh_carbonclub.Codec.{Codec}
use dsh_carbonclub.Codec.Sample.{sample}
use dsh_carbonclub.Identity.Defs.{
  StoredPeer, Credentials, PrivateKeys, load_or_create_private_key, newest, peer_values,
  load_remembered_peers, save_remembered_peers,
}
use dsh_carbonclub.Identity.Stored.{load-save_remembered_peers, load_or_create_private_key-twice}

abbrev ann : StoredPeer
ann = record { peer_id = "ann"; addresses = "a" ∷ []; remembered_at = pos 1_000 }

abbrev bob : StoredPeer
bob = record { peer_id = "bob"; addresses = "b" ∷ "c" ∷ []; remembered_at = pos 2_000 }

abbrev empty_store : Credentials
empty_store = record { identity = none; known_peers = none }

abbrev codec : Codec
codec = sample (array (peer_values (bob ∷ ann ∷ [])))

bob_first : newest (ann ∷ bob ∷ []) ≡ bob ∷ ann ∷ []
unfolding newest sort_by
bob_first = refl

load-save_remembered_peers_example :
    load_remembered_peers codec (save_remembered_peers codec empty_store (ann ∷ bob ∷ []))
    ≡ newest (ann ∷ bob ∷ [])
unfolding newest sort_by same
load-save_remembered_peers_example =
    load-save_remembered_peers codec empty_store (ann ∷ bob ∷ [])
      (
        record { some_addresses = omega arith; few_addresses = omega arith; safe = refl },
        (record { some_addresses = omega arith; few_addresses = omega arith; safe = refl }, tt),
      )
      refl

abbrev keys : PrivateKeys String
keys = record { to_text = λ key. key; from_text = some }

abbrev with_key : Credentials
with_key = record { identity = some "first"; known_peers = none }

created : load_or_create_private_key keys "first" empty_store ≡ ok ("first", with_key)
unfolding load_or_create_private_key
created = refl

load_or_create_private_key-twice_example :
    load_or_create_private_key keys "second" with_key ≡ ok ("first", with_key)
load_or_create_private_key-twice_example =
    load_or_create_private_key-twice keys "first" "second" "first" empty_store with_key (λ k. refl)
      created
