-- ===== src/Uri/Tests.antt =====
-- An address that is converted.
use sip_server.Prelude.{◌≡◌, refl, inr, Option, none, some, Text, text, to_lower, arith}
use sip_server.Client as Client
use sip_server.Client.{auto, build_values_uri, set_uri_transport}
use sip_server.Uri.{Uri, get_host, get_uri, to_sip_uri, convert_uri}
use sip_server.Uri.Trips.{IsReturned, convert_uri-get_uri, build_values_uri-to_sip_uri}

abbrev no_port : Text → Option (Text × Text)
no_port a = none

abbrev no_uri : Text → Option Client.Uri
no_uri t = none

abbrev alice : Uri
alice = record {
  user = text "alice";
  host = text "example.com";
  addr = some (text "10.0.0.1");
  port = 0;
  transport = text "tls";
}

convert_uri-get_uri_example : convert_uri no_port (get_uri alice) ≡ record alice { addr = none }
unfolding text to_lower
convert_uri-get_uri_example = convert_uri-get_uri no_port alice refl refl (omega arith) refl refl

build_values_uri-to_sip_uri_example :
    (v : Client.Uri) × (build_values_uri no_port no_uri (to_sip_uri alice) auto ≡ inr v)
    × IsReturned alice v
unfolding text get_host
build_values_uri-to_sip_uri_example =
    build_values_uri-to_sip_uri no_port no_uri alice refl refl refl (omega arith)
