-- ===== src/Client/Tests.antt =====
-- Runs of the addresses of an outbound call.
use sip_server.Prelude.{◌≡◌, refl, false, none, Text, text, [], ◌∷◌, has_byte, Option}
use sip_server.Client.{is_sip_user_token, token_byte, Call, auto, Uri}

token_space : is_sip_user_token (32 ∷ []) ≡ false
unfolding is_sip_user_token token_byte has_byte text
token_space = refl

-- No port, and no address that parses.
abbrev no_port : Text → Option (Text × Text)
no_port a = none

abbrev no_uri : Text → Option Uri
no_uri a = none

abbrev redirected : Call
redirected = record {
  request_uri = none;
  to_header = none;
  from_header = none;
  from_name = none;
  call_to = text "100";
  call_address = text "sip.example.com";
  number = text "200";
  hostname = [];
  to_user_override = text "300";
  call_transport = auto;
}
