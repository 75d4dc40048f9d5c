-- ===== src/Client.antt =====
-- The addresses of an outbound call: pkg/sip/client.go, from the request to the URI of the INVITE and
-- its From and To headers. `net.SplitHostPort` and the parser of the SIP library are parameters; of
-- the parameters of a URI only the transport that is added here is kept, and the errors are without
-- the values that they print.
use sip_server.Prelude.{
  ℕ, ℤ, pos, Bool, true, false, not, ◌&&◌, ◌||◌, ◌⊎◌, inl, inr, Option, none, some, List, [], ◌∷◌,
  ◌++◌, leb, ◌==◌, if◌then◌else◌, Text, text, is_empty, contains, strip_prefix, is_some, has_byte,
  Parsed, exact, parse_int,
}
use sip_server.Errors.{Err, plain, wrapped, rpc, invalid_argument}
pub mod Headers
mod Tests

-- livekit.SIPTransport
pub data Transport : Type 0 where
  auto udp tcp tls : Transport

pub record Uri : Type 0 where
  pub user : Text
  pub host : Text
  pub port : ℤ
  pub transport : Transport

-- livekit.SIPUri
pub record Values : Type 0 where
  pub v_user : Text
  pub v_host : Text
  pub v_ip : Text
  pub v_port : ℕ
  pub v_transport : Transport

-- livekit.SIPRequestDest and SIPNamedDest: the raw form, the values, or neither.
pub data Dest : Type 0 where
  raw : Text → Dest
  values : Values → Dest
  other : Dest

-- A From or To header.
pub record Named : Type 0 where
  pub address : Uri
  pub display_name : Text

unfoldable pub set_uri_transport : Transport → Uri → Uri
set_uri_transport auto u = u
set_uri_transport t u = record u { transport = t }

invalid : Text → Err ⊎ Uri
invalid m = inl (plain m)

-- One byte of `isSIPUserToken`.
token_byte : ℕ → Bool
token_byte c =
    (leb b'0' c && leb c b'9')
    || (leb b'a' c && leb c b'z')
    || (leb b'A' c && leb c b'Z')
    || has_byte c (text "-.!%*_+`'~")

unfoldable pub is_sip_user_token : Text → Bool
unfolding token_byte
is_sip_user_token [] = true
is_sip_user_token (c ∷ s) = let rest = is_sip_user_token s in if token_byte c then rest else false

starts_with : Text → Text → Bool
starts_with p s = is_some (strip_prefix p s)

-- The address between angle brackets, if they are there.
last_byte : ℕ → Text → ℕ
last_byte c [] = c
last_byte c (d ∷ s) = last_byte d s

drop_last : Text → Text
drop_last [] = []
drop_last (c ∷ []) = []
drop_last (c ∷ d ∷ s) = c ∷ drop_last (d ∷ s)

unbracket : Text → Text
unfolding last_byte drop_last
unbracket [] = []
unbracket (c ∷ s) = if c == b'<' && last_byte c s == b'>' then drop_last s else c ∷ s

same_transport : Transport → Transport → Bool
same_transport auto auto = true
same_transport udp udp = true
same_transport tcp tcp = true
same_transport tls tls = true
same_transport _ _ = false

-- The transport of a request and that of its URI: one of them may be left open.
merge : Transport → Transport → Option Transport
unfolding same_transport
merge auto t = some t
merge t auto = some t
merge s t = if same_transport s t then some s else none

abbrev dest_of : Option (Dest × Text) → Option Dest
dest_of none = none
dest_of (some (d, n)) = some d

abbrev name_of : Option (Dest × Text) → Text
name_of none = []
name_of (some (d, n)) = n

-- What is read of rpc.InternalCreateSIPParticipantRequest.
pub record Call : Type 0 where
  pub request_uri : Option Dest
  pub to_header : Option (Dest × Text)
  pub from_header : Option (Dest × Text)
  pub from_name : Option Text
  pub call_to : Text
  pub call_address : Text
  pub number : Text
  pub hostname : Text
  pub to_user_override : Text
  pub call_transport : Transport

-- The host of a legacy address: with a port, or as it is.
legacy_port : Text → Parsed ℤ → Uri → Err ⊎ Uri
unfolding invalid
legacy_port host (exact n) u = inr (record u { host = host; port = n })
legacy_port host _ u = invalid (text "invalid port in hostname")

legacy_host : Text → Option (Text × Text) → Uri → Err ⊎ Uri
unfolding legacy_port
legacy_host addr (some (host, (c ∷ s))) u = legacy_port host (parse_int 64 (c ∷ s)) u
legacy_host addr _ u = inr (record u { host = addr })

with_transport : Transport → Option Uri → Err ⊎ Uri
unfolding invalid
with_transport tr none = invalid (text "invalid request URI")
with_transport tr (some u) = inr (set_uri_transport tr u)

has_port : Option (Text × Text) → Bool
has_port (some (host, (c ∷ s))) = true
has_port _ = false

from_named : Option (Dest × Text) → Option Text → Err ⊎ Uri → Err ⊎ Named
from_named u name (inl e) = inl e
from_named (some (d, shown)) name (inr a) = inr (record { address = a; display_name = shown })
from_named none (some name) (inr a) = inr (record { address = a; display_name = name })
from_named none none (inr a) = inr (record { address = a; display_name = a.user })

to_named : Option (Dest × Text) → Text → Err ⊎ Uri → Err ⊎ Named
to_named u override (inl e) = inl e
to_named u override (inr a) =
    let named : Named = record { address = a; display_name = name_of u } in
    if is_empty override
    then inr named
    else if is_sip_user_token override
    then inr (record named { address = record a { user = override } })
    else inl
        (plain (text "to user override should be a phone number or SIP user, not a full SIP URI"))

-- The three, in the order of the code; each error is an invalid argument.
third : Uri → Named → Err ⊎ Named → Err ⊎ (Uri × Named × Named)
third uri to (inl e) = inl (rpc invalid_argument (wrapped (text "invalid From header: ") e))
third uri to (inr from) = inr (uri, from, to)

module _ (split_host_port : Text → Option (Text × Text)) (parse_uri : Text → Option Uri) where
  unfoldable pub build_legacy_uri : Text → Text → Transport → Err ⊎ Uri
  unfolding invalid legacy_host starts_with
  build_legacy_uri user addr tr =
      let u : Uri = record { user = user; host = []; port = pos 0; transport = auto } in
      if is_empty user
      then invalid (text "number must be set")
      else if contains (text "@") user
      then invalid (text "should be a phone number or SIP user, not a full SIP URI")
      else if is_empty addr
      then invalid (text "address must be set")
      else if starts_with (text "sip:") addr || starts_with (text "sips:") addr
      then invalid (text "address must be a hostname without 'sip:' prefix")
      else if contains (text "transport=") addr
      then invalid (text "legacy address must not contain parameters; use transport field")
      else if has_byte b';' addr || has_byte b'=' addr
      then invalid (text "legacy address must not contain parameters")
      else legacy_host addr (split_host_port addr) (set_uri_transport tr u)

  unfoldable pub build_raw_uri : Text → Transport → Err ⊎ Uri
  unfolding with_transport unbracket
  build_raw_uri r tr = with_transport tr (parse_uri (unbracket r))

  with_values : Values → Option Transport → Err ⊎ Uri
  unfolding invalid has_port
  with_values v none = invalid (text "different transports specified")
  with_values v (some tr) =
      let host = if is_empty v.v_host then v.v_ip else v.v_host in
      let u : Uri = record {
        user = v.v_user;
        host = host;
        port = pos v.v_port;
        transport = auto;
      } in
      if is_empty v.v_user
      then invalid (text "username or number must be set")
      else if is_empty v.v_host && is_empty v.v_ip
      then invalid (text "host or ip must be set")
      else if has_port (split_host_port host)
      then invalid (text "host or ip must not contain port")
      else inr (set_uri_transport tr u)

  unfoldable pub build_values_uri : Values → Transport → Err ⊎ Uri
  unfolding with_values merge
  build_values_uri v tr = with_values v (merge tr v.v_transport)

  -- `buildRequestURI` and `buildFromToURI` differ in the text of one error.
  build_uri : Text → Option Dest → Text → Text → Transport → Err ⊎ Uri
  unfolding invalid
  build_uri m none user addr tr = build_legacy_uri user addr tr
  build_uri m (some (raw r)) user addr tr = build_raw_uri r tr
  build_uri m (some (values v)) user addr tr = build_values_uri v tr
  build_uri m (some other) user addr tr = invalid m

  unfoldable pub build_request_uri : Option Dest → Text → Text → Transport → Err ⊎ Uri
  unfolding build_uri
  build_request_uri d user addr tr = build_uri (text "invalid request URI type") d user addr tr

  unfoldable pub build_from_to_uri : Option Dest → Text → Text → Transport → Err ⊎ Uri
  unfolding build_uri
  build_from_to_uri d user addr tr = build_uri (text "invalid URI type") d user addr tr

  unfoldable pub build_from_header :
      Option (Dest × Text) → Option Text → Text → Text → Transport → Err ⊎ Named
  unfolding from_named
  build_from_header u name user addr tr =
      from_named u name (build_from_to_uri (dest_of u) user addr tr)

  unfoldable pub build_to_header :
      Option (Dest × Text) → Text → Text → Text → Transport → Err ⊎ Named
  unfolding to_named
  build_to_header u override user addr tr =
      if is_some u && not (is_empty user)
      then inl (plain (text "cannot use both CallTo and SipToHeader"))
      else to_named u override (build_from_to_uri (dest_of u) user addr tr)

  second : Call → Text → Uri → Err ⊎ Named → Err ⊎ (Uri × Named × Named)
  unfolding third
  second q host uri (inl e) = inl (rpc invalid_argument (wrapped (text "invalid To header: ") e))
  second q host uri (inr to) = third uri to (
      build_from_header q.from_header q.from_name q.number
        (if is_empty q.hostname then host else q.hostname) q.call_transport)

  first : Call → Text → Err ⊎ Uri → Err ⊎ (Uri × Named × Named)
  unfolding second
  first q host (inl e) = inl (rpc invalid_argument (wrapped (text "invalid request URI: ") e))
  first q host (inr uri) =
      second q host uri
        (build_to_header q.to_header q.to_user_override q.call_to q.call_address q.call_transport)

  unfoldable pub build_outbound_headers : Call → Text → Err ⊎ (Uri × Named × Named)
  unfolding first
  build_outbound_headers q host =
      first q host (build_request_uri q.request_uri q.call_to q.call_address q.call_transport)
