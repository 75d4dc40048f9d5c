-- ===== src/Dispatch/Tests.antt =====
-- Runs of the answers of the RPC service: a trunk with a password, and an INVITE that knows it.
use sip_server.Prelude.{◌≡◌, refl, inr, true, false, some, [], ◌∷◌, Text, is_empty}
use sip_server.Inbound.Call.Waits.{request_pin}
use sip_server.Inbound.Auth.{Credentials, get_invite}
use sip_server.Server.Invite.Tests.{env, server, invite, parse, digest, let_in}
use sip_server.Dispatch.{
  RuleResponse, legacy_accept_or_pin, dispatch_call, by_result, TrunkResponse, no_error,
  get_auth_credentials, by_code, by_password,
}
use sip_server.Dispatch.Credentials.{process_invite-get_auth_credentials}

abbrev asks_pin : RuleResponse
asks_pin = record { result = legacy_accept_or_pin; needs_pin = true; room_name = 1 ∷ [] }

dispatch_pin : dispatch_call (inr asks_pin) ≡ (request_pin, false)
unfolding dispatch_call by_result
dispatch_pin = refl

abbrev trunk : TrunkResponse
trunk = record {
  error_code = no_error;
  drop = false;
  resp_username = 65 ∷ [];
  resp_password = 66 ∷ [];
  resp_realm = 67 ∷ [];
}

trunk_verdict : env.auth ≡ get_auth_credentials (inr trunk)
unfolding get_auth_credentials by_code by_password
trunk_verdict = refl

process_invite-get_auth_credentials_example :
    (h : Text) × (cred : Credentials) × (response : Text) × (invite.auth_req.proxy_authorization
      ≡ some h)
    × (parse h ≡ some cred)
    × (cred.cred_username ≡ trunk.resp_username)
    × (cred.cred_response ≡ response)
    × (let challenge = (get_invite invite.auth_req.req_call_id server.in_progress).0.challenge in
        (is_empty challenge.realm ≡ false)
        × (digest challenge invite.auth_req.method cred.uri trunk.resp_username trunk.resp_password
            ≡ some response))
process_invite-get_auth_credentials_example =
    process_invite-get_auth_credentials parse digest server env invite trunk tt trunk_verdict refl
      let_in
