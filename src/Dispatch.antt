-- ===== src/Dispatch.antt =====
-- pkg/service/psrpc.go: what the answers of the RPC service say about an INVITE and about a call. The
-- fields that are only passed on are left out.
use sip_server.Prelude.{
  Bool, true, false, not, ◌&&◌, ◌⊎◌, inl, inr, [], if◌then◌else◌, Text, is_empty,
}
use sip_server.Errors.{Err}
use sip_server.Server.{
  AuthResult, auth_drop, auth_password, auth_accept, auth_quota_exceeded, auth_no_trunk_found,
}
use sip_server.Inbound.Auth.{InboundAuth}
use sip_server.Inbound.Call.Waits.{
  DispatchResult, accepted, request_pin, no_rule_reject, no_rule_drop, service_unavailable,
  Dispatched,
}
pub mod Credentials
mod Tests

-- rpc.SIPTrunkAuthenticationError: the two values that are told apart, and any other.
pub data TrunkError : Type 0 where
  quota_exceeded no_trunk_found no_error : TrunkError

-- rpc.GetSIPTrunkAuthenticationResponse
pub record TrunkResponse : Type 0 where
  pub error_code : TrunkError
  pub drop : Bool
  pub resp_username : Text
  pub resp_password : Text
  pub resp_realm : Text

abbrev pub no_auth : InboundAuth
no_auth = record { username = []; password = []; auth_realm = [] }

by_password : TrunkResponse → AuthResult × InboundAuth
by_password r =
    if not (is_empty r.resp_username) && not (is_empty r.resp_password)
    then (
      auth_password,
      record { username = r.resp_username; password = r.resp_password; auth_realm = r.resp_realm },
    )
    else (auth_accept, no_auth)

by_code : TrunkError → TrunkResponse → AuthResult × InboundAuth
unfolding by_password
by_code quota_exceeded r = (auth_quota_exceeded, no_auth)
by_code no_trunk_found r = (auth_no_trunk_found, no_auth)
by_code no_error r = if r.drop then (auth_drop, no_auth) else by_password r

unfoldable pub get_auth_credentials : Err ⊎ TrunkResponse → Err ⊎ (AuthResult × InboundAuth)
unfolding by_code
get_auth_credentials (inl e) = inl e
get_auth_credentials (inr r) = inr (by_code r.error_code r)

-- rpc.SIPDispatchResult
pub data RuleResult : Type 0 where
  legacy_accept_or_pin rule_accept rule_request_pin rule_reject rule_drop unexpected : RuleResult

-- rpc.EvaluateSIPDispatchRulesResponse
pub record RuleResponse : Type 0 where
  pub result : RuleResult
  pub needs_pin : Bool
  pub room_name : Text

-- A result with whether it names a room.
into_room : RuleResponse → Dispatched
into_room r = (accepted, not (is_empty r.room_name))

by_result : RuleResult → RuleResponse → Dispatched
unfolding into_room
by_result legacy_accept_or_pin r = if r.needs_pin then (request_pin, false) else into_room r
by_result rule_accept r = into_room r
by_result rule_request_pin r = (request_pin, false)
by_result rule_reject r = (no_rule_reject, false)
by_result rule_drop r = (no_rule_drop, false)
by_result unexpected r = (no_rule_reject, false)

unfoldable pub dispatch_call : Err ⊎ RuleResponse → Dispatched
unfolding by_result
dispatch_call (inl e) = (service_unavailable, false)
dispatch_call (inr r) = by_result r.result r
