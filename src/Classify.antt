-- ===== src/Classify.antt =====
-- pkg/sip/errors.go: how a failed outbound INVITE is recorded, counted and reported back, with
-- `EndCall` of pkg/sip/protocol.go. The self-classifying errors are three constructors of `Err`.
use sip_server.Prelude.{
  ℕ, ◌+◌, ◌-◌, ◌*◌, Bool, true, false, ◌&&◌, ◌||◌, Option, none, some, List, [], ◌∷◌, ◌++◌, ltb,
  leb, ◌==◌, if◌then◌else◌, is_some, Text, text, text_eq, to_lower, contains, itoa,
}
use sip_server.Stats.{
  TerminationResult, server_failure, Termination, server_error, client_error, indeterminate,
  upstream_error,
}
use sip_server.Status.{
  CallStatus, call_dropped, call_unavailable, call_rejected, DisconnectReason, unknown_reason,
  user_unavailable, user_rejected, sip_trunk_failure, media_failure,
}
use sip_server.Errors.{
  SipStatus, canceled, deadline_exceeded, failed_precondition, invalid_argument, unavailable,
  sip_request_timeout, auth_max_retry, auth_missing_creds, auth_no_header, context_deadline,
  context_canceled, no_common_media, no_common_crypto, Err, plain, wrapped, rpc, sip_status,
  sdp_error, transaction_timeout, carrier_blocked, is, find_status, find_classifier, has_addr_error,
  has_dns_error, has_op_error,
}
pub mod Blame
pub mod Retry
pub mod Returns
mod Tests

pub record EndCall : Type 0 where
  pub report : Option Err
  pub status : CallStatus
  pub term : Termination
  pub reason : DisconnectReason
  pub headers : List (Text × Text)

pub record InviteFailure : Type 0 where
  pub end : EndCall
  pub return_err : Option Err

-- A result with its four fields of the switch.
abbrev pub verdict :
    CallStatus → Termination → DisconnectReason → Option Err → Option Err → InviteFailure
verdict s t r report ret = record {
  end = record { report = report; status = s; term = t; reason = r; headers = [] };
  return_err = ret;
}

-- `afterInvite`: what was sent once must not be dialled again.
unfoldable pub after_invite : InviteFailure → InviteFailure
after_invite f = elim f.end.term.result [
  | server_failure ↦ record f {
    return_err = some (
        rpc failed_precondition
          (elim f.return_err [ none ↦ plain f.end.term.reason | some e ↦ e ]));
  }
  | _ ↦ f
]

sdp_term : Err → Termination
sdp_term e =
    if is no_common_media e
    then client_error (text "no-common-codec")
    else if is no_common_crypto e
    then client_error (text "encryption-required")
    else client_error (text "sdp-error")

-- `ClassifyInvite` of the three types; no other error reaches it (`find_classifier`).
classify_invite : Err → InviteFailure
unfolding sdp_term
classify_invite (sdp_error e) =
    verdict call_rejected (sdp_term e) media_failure (some e) (some (sdp_error e))
classify_invite (transaction_timeout n) =
    verdict call_unavailable
      (if ltb 0 n
        then client_error (text "no-final-response")
        else indeterminate (text "upstream-no-response"))
      sip_trunk_failure (some (transaction_timeout n)) (some (rpc canceled (transaction_timeout n)))
classify_invite (carrier_blocked st p n) =
    verdict call_rejected (client_error (text "carrier-blocked")) user_rejected
      (some (carrier_blocked st p n)) (some (sip_status st))
classify_invite e =
    verdict call_dropped (server_error (text "invite-failed")) unknown_reason (some e) (some e)

-- The 5xx case: a customer's own limit is told from the carrier's failure by the status text.
limit_verdict : SipStatus → Err → InviteFailure
limit_verdict st e =
    let body = to_lower st.status in
    if contains (text "cps limit exceeded") body
    then verdict call_rejected (client_error (text "cps-limit-exceeded")) sip_trunk_failure (some e)
        (some e)
    else if contains (text "concurrent call limit exceeded") body
    then verdict call_rejected (client_error (text "concurrent-limit-exceeded")) sip_trunk_failure
        (some e) (some e)
    else verdict call_dropped (upstream_error (text "upstream-server-error-" ++ itoa st.code))
        sip_trunk_failure (some e) (some e)

-- The `default` of the switch on the code: by class.
class_verdict : SipStatus → Err → InviteFailure
unfolding limit_verdict
class_verdict st e =
    let code = st.code in
    if leb 400 code && ltb code 500
    then verdict call_rejected (client_error (text "client-error-" ++ itoa code)) user_unavailable
        none (some e)
    else if leb 500 code && ltb code 600
    then limit_verdict st e
    else if leb 600 code && ltb code 700
    then verdict call_rejected (client_error (text "global-decline-" ++ itoa code)) user_rejected
        none (some e)
    else verdict call_dropped (server_error (text "invite-failed")) unknown_reason (some e) (some e)

-- The switch on the code of a SIP status found in the chain of `e`.
status_verdict : SipStatus → Err → InviteFailure
unfolding class_verdict
status_verdict st e =
    let code = st.code in
    if code == 401 || code == 407
    then verdict call_rejected (client_error (text "auth-required")) user_rejected none (some e)
    else if code == 403
    then verdict call_rejected (client_error (text "forbidden")) user_rejected none (some e)
    else if code == 404
    then verdict call_unavailable (client_error (text "not-found")) user_unavailable none (some e)
    else if code == 408
    then verdict call_unavailable (client_error (text "request-timeout")) user_unavailable none
        (some e)
    else if code == 480
    then verdict call_unavailable (client_error (text "unavailable")) user_unavailable none (some e)
    else if code == 486
    then verdict call_rejected (client_error (text "busy")) user_rejected none (some e)
    else if code == 488
    then verdict call_rejected (client_error (text "not-acceptable")) user_rejected none (some e)
    else class_verdict st e

-- What is left when the chain holds neither a self-classifying error nor a SIP status.
residual_verdict : Err → InviteFailure
residual_verdict e =
    if is sip_request_timeout e
    then verdict call_unavailable (client_error (text "no-answer")) user_unavailable none (some e)
    else if is context_deadline e
    then verdict call_dropped (server_error (text "deadline-exceeded")) unknown_reason (some e)
        (some (rpc deadline_exceeded e))
    else if is context_canceled e
    then verdict call_rejected (client_error (text "canceled")) user_unavailable none
        (some (rpc canceled e))
    else if has_addr_error e
    then verdict call_dropped (client_error (text "address-error")) sip_trunk_failure (some e)
        (some (rpc invalid_argument e))
    else if has_dns_error e
    then verdict call_dropped (client_error (text "dns-resolution")) sip_trunk_failure (some e)
        (some (rpc invalid_argument e))
    else if has_op_error e
    then verdict call_dropped (server_error (text "network-error")) sip_trunk_failure (some e)
        (some (rpc unavailable e))
    else if is auth_max_retry e || is auth_missing_creds e || is auth_no_header e
    then verdict call_rejected (client_error (text "auth-failed")) user_rejected (some e) (some e)
    else verdict call_dropped (server_error (text "invite-failed")) unknown_reason (some e) (some e)

-- The order of the three: a self-classifying error, a SIP status, the rest.
by_kind : Option Err → Option SipStatus → Err → InviteFailure
by_kind (some c) s e = classify_invite c
by_kind none (some st) e = status_verdict st e
by_kind none none e = residual_verdict e

unfoldable pub classify_invite_error : Err → InviteFailure
unfolding by_kind classify_invite status_verdict residual_verdict
classify_invite_error e = by_kind (find_classifier e) (find_status e) e
