-- ===== src/Identity/Defs.antt =====
-- The functions of src/network/identity.ts. The credential store of the host is a pair of texts that
-- may be missing; JSON, base64 and the private keys of libp2p are parameters.
use dsh_carbonclub.Base.{
  ℕ, Bool, true, false, String, Option, none, some, List, [], ◌∷◌, take, ltb, if◌then◌else◌,
}
use dsh_carbonclub.Base.Sort.{sort_by}
use dsh_carbonclub.Base.Result.{Result, ok, from_option, ◌>>=◌}
use dsh_carbonclub.Verify.Values.{
  ℤ, pos, negsuc, Value, integer, text, array, object, Values, end, item, closed, field, property,
  is_safe,
}
use dsh_carbonclub.Codec.{Codec}

abbrev pub max_stored_peers : ℕ
max_stored_peers = 32

-- `RememberedPeer`, whose time is any safe integer when it comes from the store.
pub record StoredPeer : Type 0 where
  pub peer_id : String
  pub addresses : List String
  pub remembered_at : ℤ

-- What the host keeps under `IDENTITY_CREDENTIAL` and `KNOWN_PEERS_CREDENTIAL`.
pub record Credentials : Type 0 where
  pub identity : Option String
  pub known_peers : Option String

pub data IdentityError : Type 0 where
  invalid_identity : IdentityError

-- `base64` and the protobuf of private keys; a text that holds no key has none.
pub record PrivateKeys (Private : Type 0) : Type 0 where
  pub to_text : Private → String
  pub from_text : String → Option Private

-- `generated` is what `generateKeyPair` returns.
unfoldable pub load_or_create_private_key :
    {Private : Type 0}
    → PrivateKeys Private
    → Private
    → Credentials
    → Result IdentityError (Private × Credentials)
load_or_create_private_key keys generated credentials = elim credentials.identity [
  | none ↦ ok (generated, record credentials { identity = some (keys.to_text generated) })
  | some stored ↦ do
    private_key ← from_option (keys.from_text stored) invalid_identity
    ok (private_key, credentials)
]

abbrev pub less_than : ℤ → ℤ → Bool
less_than (pos m) (pos n) = ltb m n
less_than (pos m) (negsuc n) = false
less_than (negsuc m) (pos n) = true
less_than (negsuc m) (negsuc n) = ltb n m

-- `right.rememberedAt - left.rememberedAt` is negative.
abbrev pub newer : StoredPeer → StoredPeer → Bool
newer left right = less_than right.remembered_at left.remembered_at

unfoldable pub newest : List StoredPeer → List StoredPeer
newest peers = take max_stored_peers (sort_by newer peers)

-- `addresses.filter(address => typeof address === 'string')`
abbrev pub only_texts : Values → List String
only_texts end = []
only_texts (item (text t) rest) = t ∷ only_texts rest
only_texts (item _ rest) = only_texts rest

abbrev pub add_peer : String → List String → ℤ → List StoredPeer → List StoredPeer
add_peer peer_id [] remembered_at rest = rest
add_peer peer_id addresses remembered_at rest =
    record { peer_id = peer_id; addresses = addresses; remembered_at = remembered_at } ∷ rest

-- The peer of one candidate, before those of the rest.
abbrev read_peer : Value → Value → Value → List StoredPeer → List StoredPeer
read_peer (text peer_id) (array addresses) (integer remembered_at) rest =
    if is_safe remembered_at
    then add_peer peer_id (take 4 (only_texts addresses)) remembered_at rest
    else rest
read_peer _ _ _ rest = rest

-- The callback of `flatMap`, over all candidates. A value that is no object has no such properties.
unfoldable pub read_peers : Values → List StoredPeer
read_peers end = []
read_peers (item candidate candidates) =
    let rest = read_peers candidates in
    read_peer (property "peerId" candidate) (property "addresses" candidate)
      (property "rememberedAt" candidate) rest

unfoldable pub items_or_none : Value → List StoredPeer
unfolding read_peers newest
items_or_none (array candidates) = newest (read_peers candidates)
items_or_none _ = []

abbrev pub texts_values : List String → Values
texts_values [] = end
texts_values (t ∷ ts) = item (text t) (texts_values ts)

abbrev pub peer_value : StoredPeer → Value
peer_value peer = object (
    field "peerId" (text peer.peer_id) (
      field "addresses" (array (texts_values peer.addresses))
        (field "rememberedAt" (integer peer.remembered_at) closed)))

abbrev pub peer_values : List StoredPeer → Values
peer_values [] = end
peer_values (peer ∷ peers) = item (peer_value peer) (peer_values peers)

module _ (codec : Codec) where
  unfoldable pub load_remembered_peers : Credentials → List StoredPeer
  unfolding items_or_none
  load_remembered_peers credentials = elim credentials.known_peers [
    | none ↦ []
    | some stored ↦ elim (codec.parse stored) [ none ↦ [] | some value ↦ items_or_none value ]
  ]

  unfoldable pub save_remembered_peers : Credentials → List StoredPeer → Credentials
  unfolding newest
  save_remembered_peers credentials peers = record credentials {
    known_peers = some (codec.stringify (array (peer_values (newest peers))));
  }
