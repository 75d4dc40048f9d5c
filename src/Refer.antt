-- ===== src/Refer.antt =====
-- The outcome of a REFER, as its NOTIFY requests report it, and how errors are answered:
-- pkg/sip/protocol.go. What code the RPC library gives to a SIP status is a parameter.
use sip_server.Prelude.{
  ℕ, ◌+◌, Bool, true, false, not, ◌&&◌, ◌||◌, Option, none, some, List, [], ◌∷◌, ◌++◌, ltb, leb,
  ◌==◌, if◌then◌else◌, Text, text, text_eq, is_empty, to_lower, to_upper, cut, split_on, trim_space,
  trim_suffix, strip_prefix, ℤ, pos, negsuc, digits, Parsed, exact, syntax_error, range_error,
  value, parse_int, parse_uint, itoa,
}
use sip_server.Errors.{
  ErrorCode, SipStatus, Err, plain, wrapped, rpc, sip_status, sentinel, transfer_call_ended,
  refer_subscription_terminated, find_rpc, ok, canceled, unknown, invalid_argument,
  malformed_request, deadline_exceeded, not_found, not_acceptable, already_exists, aborted,
  permission_denied, resource_exhausted, failed_precondition, out_of_range, unimplemented,
  unavailable, unauthenticated, internal, malformed_response, data_loss, upstream_server_error,
  upstream_client_error, other_code,
}
pub mod Body
pub mod Outcome
pub mod Answer
mod Tests

-- A result or an error.
pub data Parse (A : Type 0) : Type 0 where
  fine : A → Parse A
  failed : Err → Parse A

abbrev bad_body : Text → Err
bad_body m = rpc invalid_argument (plain m)

check_code : Option Text → Parsed ℤ → Parse (ℕ × Text)
check_code reason (exact (pos c)) =
    if ltb c 100 || ltb 699 c
    then failed (bad_body (text "invalid notify body: status out of range"))
    else fine (
      c,
      elim reason [
        | none ↦ []
        | some r ↦ elim (cut b'\n' r) [ none ↦ r | some (line, _) ↦ trim_suffix b'\r' line ]
      ],
    )
check_code reason (exact (negsuc n)) =
    failed (bad_body (text "invalid notify body: status out of range"))
check_code reason syntax_error = failed (rpc invalid_argument (plain (text "invalid syntax")))
check_code reason (range_error n) =
    failed (rpc invalid_argument (plain (text "value out of range")))

-- The tokens of the status line: the version, the code, and the phrase if there is one.
check_version : Text → Text × Option Text → Parse (ℕ × Text)
unfolding check_code
check_version version (code, reason) =
    if not (text_eq (to_upper version) (text "SIP/2.0"))
    then failed (bad_body (text "invalid notify body: wrong prefix or SIP version"))
    else check_code reason (parse_int 32 code)

second_token : Text → Text × Option Text
second_token rest = elim (cut b' ' rest) [ none ↦ (rest, none) | some (a, b) ↦ (a, some b) ]

tokens : Option (Text × Text) → Parse (ℕ × Text)
unfolding check_version second_token
tokens none = failed (bad_body (text "invalid notify body: not enough tokens"))
tokens (some (version, rest)) = check_version version (second_token rest)

unfoldable pub parse_notify_body : Text → Parse (ℕ × Text)
unfolding tokens
parse_notify_body body = tokens (cut b' ' body)

pub record SubscriptionState : Type 0 where
  pub state : Text
  pub sub_reason : Text
  pub expires : ℤ

-- One parameter of the header.
add_param : SubscriptionState → Option (Text × Text) → SubscriptionState
add_param st none = st
add_param st (some (k, v)) =
    let key = to_lower (trim_space k) in
    let val = trim_space v in
    if text_eq key (text "reason")
    then record st { sub_reason = to_lower val }
    else if text_eq key (text "expires")
    then record st { expires = value (pos 0) (parse_int 64 val) }
    else st

add_params : List Text → SubscriptionState → SubscriptionState
unfolding add_param
add_params [] st = st
add_params (line ∷ lines) st = add_params lines (add_param st (cut b'=' (trim_space line)))

parse_parts : List Text → SubscriptionState
unfolding add_params
parse_parts [] = record { state = []; sub_reason = []; expires = pos 0 }
parse_parts (first ∷ params) =
    add_params params
      (record { state = to_lower (trim_space first); sub_reason = []; expires = pos 0 })

unfoldable pub parse_subscription_state : Text → SubscriptionState
unfolding parse_parts
parse_subscription_state header = parse_parts (split_on b';' header)

abbrev pub no_subscription : SubscriptionState
no_subscription = record { state = []; sub_reason = []; expires = pos 0 }

unfoldable pub terminated : SubscriptionState → Bool
terminated s = text_eq s.state (text "terminated")

-- `notifyInfo`; its method is always REFER.
pub record NotifyInfo : Type 0 where
  pub cseq : ℕ
  pub status : ℕ
  pub reason : Text
  pub sub : SubscriptionState

-- What is read of a NOTIFY request.
pub record Notify : Type 0 where
  pub event : Option Text
  pub short_event : Option Text
  pub subscription : Option Text
  pub body : Text

-- `referIdRegexp`: the digits of the id, which are empty where there is no id.
match_id : Option Text → Option Text
match_id none = none
match_id (some []) = some []
match_id (some (c ∷ s)) = elim (strip_prefix (text ";id=") (c ∷ s)) [
  | none ↦ none
  | some [] ↦ none
  | some (d ∷ ds) ↦ elim (digits 0 (d ∷ ds)) [ none ↦ none | some _ ↦ some (d ∷ ds) ]
]

unfoldable pub match_refer : Text → Option Text
unfolding match_id
match_refer event = match_id (strip_prefix (text "refer") event)

with_body : NotifyInfo → Parse (ℕ × Text) → Parse NotifyInfo
with_body info (fine (status, reason)) = fine (record info { status = status; reason = reason })
with_body info (failed e) = failed e

with_event : Notify → Option Text → Parse NotifyInfo
unfolding with_body
with_event n none = failed (rpc unimplemented (plain (text "unknown event")))
with_event n (some id) =
    let info : NotifyInfo = record {
      cseq = value 0 (parse_uint 32 id);
      status = 0;
      reason = [];
      sub = elim n.subscription [ none ↦ no_subscription | some h ↦ parse_subscription_state h ];
    } in
    let body = trim_space n.body in
    if is_empty body then fine info else with_body info (parse_notify_body body)

header_of : Option Text → Option Text → Option Text
header_of (some h) short = some h
header_of none short = short

from_event : Notify → Option Text → Parse NotifyInfo
unfolding with_event
from_event n none = failed (rpc malformed_request (plain (text "no event in NOTIFY request")))
from_event n (some h) = with_event n (match_refer (to_lower h))

unfoldable pub handle_notify : Notify → Parse NotifyInfo
unfolding from_event header_of
handle_notify n = from_event n (header_of n.event n.short_event)

abbrev or_unspecified : Text → Text
or_unspecified r = if is_empty r then text "unspecified" else r

module _ (get_error_code : SipStatus → ErrorCode) where
  -- The code of a failure: internal and unavailable are told apart by the class of the status.
  unfoldable pub failure_code : ℕ → ErrorCode → ErrorCode
  failure_code status internal =
      if ltb status 500 || leb 600 status then upstream_client_error else upstream_server_error
  failure_code status unavailable =
      if ltb status 500 || leb 600 status then upstream_client_error else upstream_server_error
  failure_code status c = c

  -- What `handleReferNotify` hands over: nothing, success (`none`) or an error.
  unfoldable pub handle_refer_notify : NotifyInfo → ℕ → Option (Option Err)
  handle_refer_notify info refer_cseq =
      let st : SipStatus = record { code = info.status; status = info.reason } in
      if not (info.cseq == 0) && not (info.cseq == refer_cseq)
      then none
      else if info.status == 200
      then some none
      else if info.status == 0 || (leb 100 info.status && ltb info.status 200)
      then if terminated info.sub
        then some (
            some (
              rpc upstream_server_error (
                wrapped (or_unspecified info.sub.sub_reason)
                  (sentinel refer_subscription_terminated))))
        else none
      else some (
          some (
            rpc (failure_code info.status (get_error_code st))
              (wrapped (text "call transfer failed") (sip_status st))))
