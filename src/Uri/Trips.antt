-- ===== src/Uri/Trips.antt =====
-- Addresses that are converted and converted back (pkg/sip/types.go, pkg/sip/client.go).
use sip_server.Prelude.{
  some, ℕ, ◌%◌, ◌<◌, ◌≡◌, ◌≢◌, refl, true, false, inr, Option, none, arith, pos, Text, text,
  text_eq, is_empty, to_lower,
}
use sip_server.Client.{Transport, auto, udp, tcp, tls, Values, build_values_uri, set_uri_transport}
use sip_server.Client as Client
use sip_server.Uri.{
  Uri, transport_from, sip_transport_from, get_host, get_port, get_uri, to_sip_uri, with_split,
  convert_uri,
}

-- The two names of a transport.
pub sip_transport_from-transport_from : (t : Transport) → sip_transport_from (transport_from t) ≡ t
unfolding sip_transport_from transport_from text text_eq
sip_transport_from-transport_from auto = refl
sip_transport_from-transport_from udp = refl
sip_transport_from-transport_from tcp = refl
sip_transport_from-transport_from tls = refl

-- The SIP URI that an address comes back as: the host name, or the IP if there is none; the port that
-- is given, or 5061 for TLS and 5060 for all else; and one of the four transports by its name.
pub record IsReturned (u : Uri) (v : Client.Uri) : Type 0 where
  same_user : v.user ≡ u.user
  host_name : is_empty u.host ≡ false → v.host ≡ u.host
  host_ip : is_empty u.host ≡ true → (a : Text) → u.addr ≡ some a → v.host ≡ a
  given_port : u.port ≢ 0 → v.port ≡ pos u.port
  tls_port : u.port ≡ 0 → text_eq u.transport (text "tls") ≡ true → v.port ≡ pos 5061
  other_port : u.port ≡ 0 → text_eq u.transport (text "tls") ≡ false → v.port ≡ pos 5060
  over : (t : Transport) → u.transport ≡ transport_from t → v.transport ≡ t

set_transport_auto :
    (t : Transport) (user host : Text) (n : ℕ)
    → set_uri_transport t (record { user = user; host = host; port = pos n; transport = auto })
      ≡ record { user = user; host = host; port = pos n; transport = t }
unfolding set_uri_transport
set_transport_auto auto user host n = refl
set_transport_auto udp user host n = refl
set_transport_auto tcp user host n = refl
set_transport_auto tls user host n = refl

-- `GetHost`, `GetPort` and the transport, as they are sent.
abbrev sent_as : Uri → Client.Uri
sent_as u = record {
  user = u.user;
  host = get_host u;
  port = pos (get_port u);
  transport = sip_transport_from u.transport;
}

sent_as-IsReturned : (u : Uri) → IsReturned u (sent_as u)
unfolding get_host get_port
sent_as-IsReturned u = record {
  same_user = refl;
  host_name = λ h. rw h refl;
  host_ip = λ h a e. rw (h, e) refl;
  given_port = λ n. ground (arith, n);
  tls_port = λ n t. rw (n, t) refl;
  other_port = λ n t. rw (n, t) refl;
  over = λ t e. rw e (sip_transport_from-transport_from t);
}

module _ (split_host_port : Text → Option (Text × Text)) where
  -- An address with a host name that holds no port, a port of 16 bits and a transport in lower case
  -- comes back from a SIP URI as it was, but for its IP.
  pub convert_uri-get_uri :
      (u : Uri)
      → is_empty u.host ≡ false
      → split_host_port u.host ≡ none
      → u.port < 65536
      → is_empty u.transport ≡ false
      → to_lower u.transport ≡ u.transport
      → convert_uri split_host_port (get_uri u) ≡ record u { addr = none }
  unfolding convert_uri get_uri with_split
  convert_uri-get_uri u h s p t l =
      let e : u.port % 65536 ≡ u.port = omega arith in rw (h, s, t, l, t, e)

  -- An address with a user and a host name or an IP, whose host holds no port and whose port has 16
  -- bits, is sent to another service and comes back with a request of it: as a URI of that user at the
  -- host name, or at the IP if there is no name, with the port of the address, or if that is 0 with 5061
  -- for TLS and 5060 else, and over the transport of the address if that is UDP, TCP or TLS.
  pub build_values_uri-to_sip_uri :
      (parse_uri : Text → Option Client.Uri) (u : Uri)
      → is_empty u.user ≡ false
      → is_empty (get_host u) ≡ false
      → split_host_port (get_host u) ≡ none
      → u.port < 65536
      → (v : Client.Uri) × (build_values_uri split_host_port parse_uri (to_sip_uri u) auto ≡ inr v)
        × IsReturned u v
  unfolding build_values_uri to_sip_uri
  build_values_uri-to_sip_uri parse_uri u n h s p =
      let k =
        set_transport_auto (sip_transport_from u.transport) u.user (get_host u) (get_port u) in
      (sent_as u, rw (h, n, s, k) refl, sent_as-IsReturned u)
