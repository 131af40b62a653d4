-- ===== src/Invite/Dial.antt =====
-- `assertDialAddress` of src/network/invite.ts: which addresses of an invite may be dialled. The
-- parsers of multiaddrs and peer ids, `Number` and `toLowerCase` are parameters.
use Prim.Native.String.{slice, len}
use package.text.Mathlib.Text.{starts_with, find?}
use dsh_carbonclub.Base.{
  ℕ, zero, suc, ◌-◌, ◌≤◌, ◌≡◌, refl, ap, Bool, true, false, ◌&&◌, ◌||◌, not, String, Option, none,
  some, List, [], ◌∷◌, length, any, leb, ltb, ◌==◌, same, same_iff, arith, if◌then◌else◌, and_true,
  not-true,
}
use dsh_carbonclub.Base.Result.{
  Result, ok, ◌>>=◌, ◌>>◌, guard, from_option, bind-eq-ok, guard-eq-ok, guard-ok, from_option-eq-ok,
}
use dsh_carbonclub.Verify.Values.{ℤ, pos, negsuc}

-- What the functions of src/network/invite.ts throw.
pub data InviteError : Type 0 where
  bad_address bad_dial_identity unparsed_address not_bound bad_port not_dialable link_local :
      InviteError
  bad_invite protocol_mismatch unsupported bad_identity no_addresses bad_lifetime bad_signature :
      InviteError
  expired too_long_lived bad_public_key other_key not_verified not_own_key : InviteError

pub record Component : Type 0 where
  pub name : String
  pub value : Option String

-- What `Number` makes of a text: `between n` lies strictly between `n` and `n + 1`.
pub data Number : Type 0 where
  not_finite : Number
  whole between : ℤ → Number

-- `multiaddr(address).getComponents()` has nothing where it throws.
pub record Dialer : Type 0 where
  pub text_length : String → ℕ
  pub is_peer_id : String → Bool
  pub components : String → Option (List Component)
  pub number : String → Number
  pub lower_case : String → String

abbrev max_address_length : ℕ
max_address_length = 512

abbrev pub component_at : ℕ → List Component → Option Component
component_at n [] = none
component_at zero (c ∷ cs) = some c
component_at (suc n) (c ∷ cs) = component_at n cs

-- `components[n]?.value`
abbrev pub value_at : ℕ → List Component → Option String
value_at n cs = elim (component_at n cs) [ none ↦ none | some c ↦ c.value ]

-- `names.includes(components[n].name)`
abbrev is_one_of : List String → ℕ → List Component → Bool
is_one_of names n cs = elim (component_at n cs) [ none ↦ false | some c ↦ any (same c.name) names ]

unfoldable pub is_websocket_base : List Component → Bool
unfolding any
is_websocket_base cs =
    is_one_of ("ip4" ∷ "ip6" ∷ "dns4" ∷ "dns6" ∷ []) 0 cs
    && is_one_of ("tcp" ∷ []) 1 cs
    && is_one_of ("ws" ∷ "wss" ∷ []) 2 cs
    && is_one_of ("p2p" ∷ []) 3 cs

unfoldable pub is_direct : List Component → Bool
unfolding is_websocket_base
is_direct cs = (length cs == 4) && is_websocket_base cs

unfoldable pub is_relayed : List Component → Bool
unfolding is_websocket_base any
is_relayed cs =
    (length cs == 6)
    && is_websocket_base cs
    && is_one_of ("p2p-circuit" ∷ []) 4 cs
    && is_one_of ("p2p" ∷ []) 5 cs

-- `components[relayed ? 5 : 3]?.value`
unfoldable pub identity_of : List Component → Option String
unfolding is_relayed
identity_of cs = if is_relayed cs then value_at 5 cs else value_at 3 cs

abbrev is_text_of : String → Option String → Bool
is_text_of t none = false
is_text_of t (some u) = same u t

-- `Number(components[1]?.value)`
unfoldable pub port_of : Dialer → List Component → Number
port_of dialer cs = elim (value_at 1 cs) [ none ↦ not_finite | some t ↦ dialer.number t ]

unfoldable pub is_allowed_port : List Component → Number → Bool
unfolding any
is_allowed_port cs (whole (pos port)) =
    (((port == 443) && is_one_of ("wss" ∷ []) 2 cs) || leb 1_024 port) && leb port 65_535
is_allowed_port cs _ = false

abbrev ends_with : String → String → Bool
ends_with t suffix = leb (len suffix) (len t) && same (slice t (len t - len suffix) (len t)) suffix

unfoldable pub is_no_host : String → Bool
unfolding any
is_no_host host =
    any (same host) ("0.0.0.0" ∷ "::" ∷ "255.255.255.255" ∷ "localhost" ∷ [])
    || ends_with host ".localhost"

-- `n >= 224 && n <= 239`
abbrev is_multicast : Number → Bool
is_multicast (whole (pos n)) = leb 224 n && leb n 239
is_multicast (between (pos n)) = leb 224 n && ltb n 239
is_multicast _ = false

-- `host.split('.')[0]`
abbrev before_dot : String → String
before_dot host = elim (find? host ".") [ none ↦ host | some n ↦ slice host 0 n ]

unfoldable pub is_link_local : Dialer → List Component → String → Bool
unfolding any
is_link_local dialer cs host =
    (is_one_of ("ip4" ∷ []) 0 cs
      && (is_multicast (dialer.number (before_dot host)) || starts_with host "169.254."))
    || (is_one_of ("ip6" ∷ []) 0 cs
        && any (starts_with host) ("ff" ∷ "fe8" ∷ "fe9" ∷ "fea" ∷ "feb" ∷ []))

module _ (dialer : Dialer) where
  unfoldable pub assert_dial_address : String → String → Result InviteError (Unit {0})
  unfolding is_direct is_relayed identity_of port_of is_allowed_port is_no_host is_link_local
  assert_dial_address address expected_peer_id = do
    guard (leb (dialer.text_length address) max_address_length) bad_address
    guard (dialer.is_peer_id expected_peer_id) bad_dial_identity
    cs ← from_option (dialer.components address) unparsed_address
    guard ((is_direct cs || is_relayed cs) && is_text_of expected_peer_id (identity_of cs))
        not_bound
    guard (is_allowed_port cs (port_of dialer cs)) bad_port
    value ← from_option (value_at 0 cs) not_dialable
    let host = dialer.lower_case value
    guard (not (is_no_host host)) not_dialable
    guard (not (is_link_local dialer cs host)) link_local

  -- What a dialled address is parsed to: a direct or a relayed WebSocket endpoint that ends in the
  -- identity of the peer, at a port of 443 or 1024 and up, on a host that may be dialled.
  pub record IsEndpoint (peer : String) (cs : List Component) : Type 0 where
    pub shape : (is_direct cs || is_relayed cs) ≡ true
    pub bound : identity_of cs ≡ some peer
    pub host : String
    pub hosted : value_at 0 cs ≡ some host
    pub public : is_no_host (dialer.lower_case host) ≡ false
    pub routed : is_link_local dialer cs (dialer.lower_case host) ≡ false
    pub port : ℕ
    pub has_port : port_of dialer cs ≡ whole (pos port)
    pub above : ((port == 443) || leb 1_024 port) ≡ true
    pub below : port ≤ 65_535

  is_text_of-eq : (t : String) (o : Option String) → is_text_of t o ≡ true → o ≡ some t
  is_text_of-eq t none h = absurd (cc)
  is_text_of-eq t (some u) h = ap some ((same_iff u t).0 h)

  allowed_port :
      (cs : List Component) (number : Number)
      → is_allowed_port cs number ≡ true
      → (port : ℕ) × (number ≡ whole (pos port))
        × (((port == 443) || leb 1_024 port) ≡ true)
        × (port ≤ 65_535)
  unfolding is_allowed_port
  allowed_port cs (whole (pos port)) h = (port, refl, ground (arith, h), ground (arith, h))
  allowed_port cs (whole (negsuc n)) h = absurd (cc)
  allowed_port cs not_finite h = absurd (cc)
  allowed_port cs (between n) h = absurd (cc)

  -- An address that may be dialled is parsed to such an endpoint.
  pub assert_dial_address-IsEndpoint :
      (address peer : String) {u : Unit {0}}
      → assert_dial_address address peer ≡ ok u
      → (cs : List Component) × (dialer.components address ≡ some cs) × IsEndpoint peer cs
  unfolding assert_dial_address
  assert_dial_address-IsEndpoint address peer h0 =
      let (short, h1) =
        guard-eq-ok (leb (dialer.text_length address) max_address_length) bad_address _ h0 in
      let (a_peer, h2) = guard-eq-ok (dialer.is_peer_id peer) bad_dial_identity _ h1 in
      let (cs, parsed, h3) =
        bind-eq-ok (from_option (dialer.components address) unparsed_address) _ h2 in
      let (shaped, h4) =
        guard-eq-ok ((is_direct cs || is_relayed cs) && is_text_of peer (identity_of cs)) not_bound
          _ h3 in
      let (allowed, h5) = guard-eq-ok (is_allowed_port cs (port_of dialer cs)) bad_port _ h4 in
      let (host, hosted, h6) = bind-eq-ok (from_option (value_at 0 cs) not_dialable) _ h5 in
      let (public, h7) =
        guard-eq-ok (not (is_no_host (dialer.lower_case host))) not_dialable _ h6 in
      let routed =
        guard-ok (not (is_link_local dialer cs (dialer.lower_case host))) link_local h7 in
      let (port, has_port, above, below) = allowed_port cs _ allowed in
      (
        cs,
        from_option-eq-ok _ _ parsed,
        record {
          shape = (and_true _ _ shaped).0;
          bound = is_text_of-eq peer (identity_of cs) (and_true _ _ shaped).1;
          host = host;
          hosted = from_option-eq-ok _ _ hosted;
          public = not-true _ public;
          routed = not-true _ routed;
          port = port;
          has_port = has_port;
          above = above;
          below = below;
        },
      )
