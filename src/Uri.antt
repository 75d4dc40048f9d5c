-- ===== src/Uri.antt =====
-- Addresses and transports: URI of pkg/sip/types.go, with the transports of requests and the contact of
-- pkg/sip/protocol.go. `net.SplitHostPort` is a parameter; letters are those of ASCII. An address of
-- netip is its text, and of a URI of the SIP library the transport is the one parameter that is kept.
use sip_server.Prelude.{
  ℕ, ◌%◌, Bool, true, false, not, ◌&&◌, ◌||◌, Option, none, some, [], ◌∷◌, ◌++◌, ◌==◌,
  if◌then◌else◌, Text, text, text_eq, is_empty, itoa, to_lower, Parsed, exact, parse_int, ℤ, pos,
  negsuc, ◌-◌,
}
use sip_server.Client.{Transport, auto, udp, tcp, tls, Values}
pub mod Trips
mod Tests

unfoldable pub transport_from : Transport → Text
transport_from udp = text "udp"
transport_from tcp = text "tcp"
transport_from tls = text "tls"
transport_from auto = []

unfoldable pub sip_transport_from : Text → Transport
sip_transport_from t =
    if text_eq t (text "udp")
    then udp
    else if text_eq t (text "tcp")
    then tcp
    else if text_eq t (text "tls")
    then tls
    else auto

-- `addr` is none for the address that is not valid.
pub record Uri : Type 0 where
  pub user : Text
  pub host : Text
  pub addr : Option Text
  pub port : ℕ
  pub transport : Text

-- sip.Uri
pub record SipUri : Type 0 where
  pub sip_user : Text
  pub sip_host : Text
  pub sip_port : ℕ
  pub transport_param : Option Text

abbrev lower_or_empty : Option Text → Text
lower_or_empty none = []
lower_or_empty (some t) = to_lower t

unfoldable pub transport_from_uri : SipUri → Text
transport_from_uri u = lower_or_empty u.transport_param

-- `uint16(port)` of an int.
abbrev as_port : ℤ → ℕ
as_port (pos n) = n % 65536
as_port (negsuc n) = 65535 - n % 65536

with_port : Text → Parsed ℤ → Uri → Uri
with_port host (exact n) u = record u { host = host; port = as_port n }
with_port host _ u = u

with_split : Option (Text × Text) → Uri → Uri
unfolding with_port
with_split none u = u
with_split (some (host, port)) u = with_port host (parse_int 64 port) u

abbrev addr_text : Option Text → Text
addr_text none = text "invalid IP"
addr_text (some a) = a

unfoldable pub get_host : Uri → Text
get_host u = if is_empty u.host then addr_text u.addr else u.host

unfoldable pub get_port : Uri → ℕ
get_port u =
    if u.port == 0 then (if text_eq u.transport (text "tls") then 5061 else 5060) else u.port

unfoldable pub get_port_or_none : Uri → ℕ
unfolding get_port
get_port_or_none u = if get_port u == 5060 then 0 else get_port u

unfoldable pub get_host_port : Uri → Text
unfolding get_host get_port
get_host_port u = get_host u ++ (text ":" ++ itoa (get_port u))

abbrev dest_host : Option Text → Text → Text
dest_host none host = host
dest_host (some a) host = a

unfoldable pub get_dest : Uri → Text
unfolding get_port
get_dest u = dest_host u.addr u.host ++ (text ":" ++ itoa (get_port u))

unfoldable pub get_uri : Uri → SipUri
unfolding get_host
get_uri u = record {
  sip_user = u.user;
  sip_host = get_host u;
  sip_port = u.port;
  transport_param = if is_empty u.transport then none else some u.transport;
}

-- An IP instead of a name for TCP and UDP.
unfoldable pub get_contact_uri : Uri → SipUri
unfolding get_uri
get_contact_uri u =
    if text_eq u.transport (text "udp") || text_eq u.transport (text "tcp")
    then record (get_uri u) { sip_host = dest_host u.addr (get_host u) }
    else get_uri u

abbrev or_empty : Option Text → Text
or_empty none = []
or_empty (some a) = a

-- `ToSIPUri`
unfoldable pub to_sip_uri : Uri → Values
unfolding get_host get_port sip_transport_from
to_sip_uri u = record {
  v_user = u.user;
  v_host = get_host u;
  v_ip = or_empty u.addr;
  v_port = get_port u;
  v_transport = sip_transport_from u.transport;
}

-- What is read of a request: of its To, the URI and the transport parameter; the transport of its
-- Via; and its recipient.
pub record Sender : Type 0 where
  pub to : Option (SipUri × Option Text)
  pub via : Option Text
  pub recipient : SipUri

of_to : Option (SipUri × Option Text) → Text
unfolding transport_from_uri
of_to none = []
of_to (some (u, param)) =
    if is_empty (transport_from_uri u) then lower_or_empty param else transport_from_uri u

abbrev first_of : Text → Text → Text
first_of t u = if is_empty t then u else t

unfoldable pub call_transport_from_req : Sender → Text
unfolding of_to
call_transport_from_req r = first_of (of_to r.to) (lower_or_empty r.via)

unfoldable pub leg_transport_from_req : Sender → Text
unfolding of_to transport_from_uri
leg_transport_from_req r = elim r.via [
  | some t ↦ to_lower t
  | none ↦ first_of (transport_from_uri r.recipient) (of_to r.to)
]

-- What is read of the configuration: the port of TLS if it is configured, and that of SIP.
pub record Ports : Type 0 where
  pub tls_port : Option ℕ
  pub plain_port : ℕ
  pub hostname : Text

unfoldable pub transport_port : Ports → Text → ℕ
transport_port c t =
    if text_eq t (text "tls")
    then elim c.tls_port [ none ↦ c.plain_port | some p ↦ p ]
    else c.plain_port

-- `getContactURI`
unfoldable pub contact_uri : Ports → Text → Text → Uri
unfolding transport_port
contact_uri c ip t = record {
  user = [];
  host = if text_eq t (text "tls") then c.hostname else [];
  addr = some ip;
  port = transport_port c t % 65536;
  transport = t;
}

module _ (split_host_port : Text → Option (Text × Text)) where
  unfoldable pub normalize : Uri → Uri
  unfolding with_split
  normalize u = with_split (split_host_port u.host) u

  unfoldable pub convert_uri : SipUri → Uri
  unfolding normalize transport_from_uri
  convert_uri u = normalize (record {
    user = u.sip_user;
    host = u.sip_host;
    addr = none;
    port = u.sip_port % 65536;
    transport = first_of (transport_from_uri u) (text "udp");
  })

  unfoldable pub create_uri_from_user_and_address : Text → Text → Text → Uri
  unfolding normalize
  create_uri_from_user_and_address user address transport =
      normalize
        (record { user = user; host = address; addr = none; port = 0; transport = transport })
