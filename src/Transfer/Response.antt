-- ===== src/Transfer/Response.antt =====
-- How the outcome of a transfer is reported (pkg/sip/service.go): in the response, as the error of the
-- request (through ApplySIPStatus of pkg/errors/errors.go), and as the label of a counter. The names of
-- the SIP status codes and the error code of a SIP status belong to the libraries and are parameters.
use sip_server.Prelude.{
  ℕ, Bool, true, false, Option, none, some, [], Text, text, to_lower, if◌then◌else◌,
}
use sip_server.Errors.{
  Err, SipStatus, ErrorCode, rpc, canceled, deadline_exceeded, invalid_argument, not_found,
  internal, transfer_call_ended, refer_subscription_terminated, context_deadline, context_canceled,
  is, find_status, find_rpc,
}
use sip_server.Transfer.{Outcome}
pub mod Ends

pub data TransferStatus : Type 0 where
  transfer_successful transfer_failed : TransferStatus

pub data TransferReason : Type 0 where
  completed unspecified call_ended subscription_terminated rejected ringing_timeout : TransferReason

-- rpc.InternalTransferSIPParticipantResponse
pub record Response : Type 0 where
  pub transfer_id : Text
  pub status : TransferStatus
  pub reason : TransferReason
  pub sip_status : Option SipStatus

-- The switch on the error of a failed transfer: the reason, and the status that is passed on.
failure_reason : Err → TransferReason × Option SipStatus
failure_reason e =
    if is transfer_call_ended e
    then (call_ended, none)
    else if is refer_subscription_terminated e
    then (subscription_terminated, none)
    else elim (find_status e) [
      | some st ↦ (rejected, some st)
      | none ↦ if is context_deadline e then (ringing_timeout, none) else (unspecified, none)
    ]

response_to : Text → Option Err → Response
unfolding failure_reason
response_to id none = record {
  transfer_id = id;
  status = transfer_successful;
  reason = completed;
  sip_status = none;
}
response_to id (some e) = record {
  transfer_id = id;
  status = transfer_failed;
  reason = (failure_reason e).0;
  sip_status = (failure_reason e).1;
}

unfoldable pub transfer_response : Outcome → Response
unfolding response_to
transfer_response out = response_to out.transfer_id out.err

-- What ends the `select` of a request: an outcome, or its context with ctx.Err().
pub data Ended : Type 0 where
  out_received : Outcome → Ended
  ctx_ended : Err → Ended

abbrev pub failed_with : Err → Outcome
failed_with e = record { transfer_id = []; err = some e }

-- What `transferSIPParticipant` returns at the end of its wait, and for a request that is refused.
unfoldable pub answer_request : Ended → Response × Option Err
answer_request (out_received out) = (transfer_response out, out.err)
answer_request (ctx_ended e) = let c = rpc canceled e in (transfer_response (failed_with c), some c)

unfoldable pub answer_refused : Err → Response × Option Err
answer_refused e = (transfer_response (failed_with e), some e)

is_call_ended : Option Err → Bool
is_call_ended none = false
is_call_ended (some e) = is transfer_call_ended e

-- An error with the SIP status that it wraps, if any, gets the RPC code of that status.
with_status : (SipStatus → ErrorCode) → Err → Option SipStatus → Err
with_status error_code e none = e
with_status error_code e (some st) = rpc (error_code st) e

-- `ApplySIPStatus`; `error_code` is psrpc.ErrorCodeFromGRPC of the status's GRPCStatus().Code().
unfoldable pub apply_sip_status : (SipStatus → ErrorCode) → Option Err → Option Err
unfolding with_status
apply_sip_status error_code none = none
apply_sip_status error_code (some e) = some (with_status error_code e (find_status e))

-- `TransferSIPParticipant`
unfoldable pub answer_rpc : (SipStatus → ErrorCode) → Response × Option Err → Response × Option Err
unfolding is_call_ended
answer_rpc error_code (resp, e) =
    if is_call_ended e then (resp, none) else (resp, apply_sip_status error_code e)

-- The label of an RPC error.
rpc_label : ErrorCode → Text
rpc_label not_found = text "not_found"
rpc_label canceled = text "canceled"
rpc_label deadline_exceeded = text "timeout"
rpc_label invalid_argument = text "invalid_argument"
rpc_label internal = text "internal_error"
rpc_label _ = text "psrpc_error"

context_label : Err → Text
context_label e =
    if is context_canceled e
    then text "canceled"
    else if is context_deadline e
    then text "timeout"
    else text "other"

unstatus_label : Err → Text
unfolding rpc_label context_label
unstatus_label e =
    if is transfer_call_ended e
    then text "call_ended"
    else if is refer_subscription_terminated e
    then text "refer_terminated"
    else elim (find_rpc e) [ some c ↦ rpc_label c | none ↦ context_label e ]

unfoldable pub extract_transfer_error_reason : (ℕ → Text) → Option Err → Text
unfolding unstatus_label
extract_transfer_error_reason short_name none = text "unknown"
extract_transfer_error_reason short_name (some e) = elim (find_status e) [
  | some st ↦ to_lower (short_name st.code)
  | none ↦ unstatus_label e
]
