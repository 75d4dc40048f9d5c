-- ===== src/Errors.antt =====
-- The errors that the calls return, as chains: the sentinels of pkg/sip/protocol.go, the error types
-- of pkg/sip/errors.go, and the wrappers of the libraries (psrpc errors, fmt.Errorf, net.*), which
-- errors.Is and errors.As look through.
use sip_server.Prelude.{ℕ, Text, Bool, true, false, Option, none, some}
pub mod Wrap

-- livekit.SIPStatus
pub record SipStatus : Type 0 where
  pub code : ℕ
  pub status : Text

-- psrpc.ErrorCode: the codes that the program names, and any other.
pub data ErrorCode : Type 0 where
  ok canceled unknown invalid_argument malformed_request deadline_exceeded : ErrorCode
  not_found not_acceptable already_exists aborted permission_denied : ErrorCode
  resource_exhausted failed_precondition out_of_range unimplemented : ErrorCode
  unavailable unauthenticated internal malformed_response data_loss : ErrorCode
  upstream_server_error upstream_client_error : ErrorCode
  other_code : Text → ErrorCode

-- Errors that are matched by identity: of this package, of context, of the SDP library.
pub data Sentinel : Type 0 where
  sip_request_timeout auth_max_retry auth_missing_creds auth_no_header : Sentinel
  transfer_call_ended refer_subscription_terminated no_ack dtls_sdp : Sentinel
  context_deadline context_canceled no_common_media no_common_crypto : Sentinel

pub data Err : Type 0 where
  sentinel : Sentinel → Err
  -- errors.New, or an error of a library that the program does not look into
  plain : Text → Err
  -- fmt.Errorf with %w
  wrapped : Text → Err → Err
  -- psrpc.NewError; psrpc.NewErrorf wraps a `plain` or a `wrapped` error
  rpc : ErrorCode → Err → Err
  sip_status : SipStatus → Err
  sdp_error : Err → Err
  transaction_timeout : ℕ → Err
  carrier_blocked : SipStatus → Text → ℕ → Err
  addr_error : Text → Err
  dns_error : Err → Err
  op_error : Err → Err

unfoldable pub same_sentinel : Sentinel → Sentinel → Bool
same_sentinel sip_request_timeout sip_request_timeout = true
same_sentinel auth_max_retry auth_max_retry = true
same_sentinel auth_missing_creds auth_missing_creds = true
same_sentinel auth_no_header auth_no_header = true
same_sentinel transfer_call_ended transfer_call_ended = true
same_sentinel refer_subscription_terminated refer_subscription_terminated = true
same_sentinel no_ack no_ack = true
same_sentinel dtls_sdp dtls_sdp = true
same_sentinel context_deadline context_deadline = true
same_sentinel context_canceled context_canceled = true
same_sentinel no_common_media no_common_media = true
same_sentinel no_common_crypto no_common_crypto = true
same_sentinel _ _ = false

-- errors.Is for a sentinel, along Unwrap.
unfoldable pub is : Sentinel → Err → Bool
unfolding same_sentinel
is s (sentinel t) = same_sentinel s t
is s (plain m) = false
is s (wrapped m e) = is s e
is s (rpc c e) = is s e
is s (sip_status st) = false
is s (sdp_error e) = is s e
is s (transaction_timeout n) = false
is s (carrier_blocked st p n) = false
is s (addr_error m) = false
is s (dns_error e) = is s e
is s (op_error e) = is s e

-- errors.AsType[*livekit.SIPStatus]: a `carrierBlockedError` unwraps to its status.
unfoldable pub find_status : Err → Option SipStatus
find_status (sentinel t) = none
find_status (plain m) = none
find_status (wrapped m e) = find_status e
find_status (rpc c e) = find_status e
find_status (sip_status st) = some st
find_status (sdp_error e) = find_status e
find_status (transaction_timeout n) = none
find_status (carrier_blocked st p n) = some st
find_status (addr_error m) = none
find_status (dns_error e) = find_status e
find_status (op_error e) = find_status e

-- errors.As for psrpc.Error, and the code of what it finds.
unfoldable pub find_rpc : Err → Option ErrorCode
find_rpc (sentinel t) = none
find_rpc (plain m) = none
find_rpc (wrapped m e) = find_rpc e
find_rpc (rpc c e) = some c
find_rpc (sip_status st) = none
find_rpc (sdp_error e) = find_rpc e
find_rpc (transaction_timeout n) = none
find_rpc (carrier_blocked st p n) = none
find_rpc (addr_error m) = none
find_rpc (dns_error e) = find_rpc e
find_rpc (op_error e) = find_rpc e

-- errors.AsType[inviteClassifier]: the first error of the chain that classifies itself.
unfoldable pub find_classifier : Err → Option Err
find_classifier (sentinel t) = none
find_classifier (plain m) = none
find_classifier (wrapped m e) = find_classifier e
find_classifier (rpc c e) = find_classifier e
find_classifier (sip_status st) = none
find_classifier (sdp_error e) = some (sdp_error e)
find_classifier (transaction_timeout n) = some (transaction_timeout n)
find_classifier (carrier_blocked st p n) = some (carrier_blocked st p n)
find_classifier (addr_error m) = none
find_classifier (dns_error e) = find_classifier e
find_classifier (op_error e) = find_classifier e

-- The remaining errors.AsType of classifyInviteError, by the type that they look for.
unfoldable pub has_addr_error : Err → Bool
has_addr_error (addr_error m) = true
has_addr_error (wrapped m e) = has_addr_error e
has_addr_error (rpc c e) = has_addr_error e
has_addr_error (sdp_error e) = has_addr_error e
has_addr_error (dns_error e) = has_addr_error e
has_addr_error (op_error e) = has_addr_error e
has_addr_error _ = false

unfoldable pub has_dns_error : Err → Bool
has_dns_error (dns_error e) = true
has_dns_error (wrapped m e) = has_dns_error e
has_dns_error (rpc c e) = has_dns_error e
has_dns_error (sdp_error e) = has_dns_error e
has_dns_error (op_error e) = has_dns_error e
has_dns_error _ = false

unfoldable pub has_op_error : Err → Bool
has_op_error (op_error e) = true
has_op_error (wrapped m e) = has_op_error e
has_op_error (rpc c e) = has_op_error e
has_op_error (sdp_error e) = has_op_error e
has_op_error (dns_error e) = has_op_error e
has_op_error _ = false
