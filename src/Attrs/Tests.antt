-- ===== src/Attrs/Tests.antt =====
-- An attribute of a call that comes from a header.
use sip_server.Prelude.{◌≡◌, refl, ◌⊎◌, none, some, [], ◌∷◌, text, text_eq, has_prefix, to_lower}
use sip_server.Attrs.{
  x_headers, Names, Signaling, Attrs, header_to_attr, headers_to_attrs, set, get_header,
}
use sip_server.Attrs.Origin.{FromCall, FromMapped, FromHeader, headers_to_attrs-origin}

abbrev names : Names
names = record { sip_prefix = text "s."; header_prefix = text "h." }

abbrev no_attrs : Attrs
no_attrs k = none

abbrev call : Signaling
call = record {
  remote_headers = (text "X-A", text "1") ∷ (text "B", text "2") ∷ [];
  tag = text "t";
  call_id = text "c";
}

headers_to_attrs-origin_example :
    FromCall names (some call) (text "h.x-a") (text "1")
    ⊎ FromMapped to_lower call.remote_headers [] (text "h.x-a") (text "1")
    ⊎ FromMapped to_lower call.remote_headers (header_to_attr names) (text "h.x-a") (text "1")
    ⊎ FromHeader to_lower names x_headers call.remote_headers (text "h.x-a") (text "1")
    ⊎ (no_attrs (text "h.x-a") ≡ some (text "1"))
unfolding headers_to_attrs text text_eq to_lower has_prefix set get_header
headers_to_attrs-origin_example =
    headers_to_attrs-origin to_lower names no_attrs [] x_headers (some call) [] (text "h.x-a")
      (text "1") refl
