-- ===== src/Classify/Blame.antt =====
-- Whom a failed INVITE is blamed on (classifyInviteError of pkg/sip/errors.go).
use sip_server.Prelude.{
  ◌≡◌, ◌≤◌, ◌<◌, ◌||◌, refl, ◌&&◌, Option, none, some, arith, List, ltb, leb, if◌then◌else◌, text,
  contains, to_lower, Bool, false,
}
use sip_server.Stats.{TerminationResult, server_failure, upstream_failure, client_failure}
use sip_server.Errors.{SipStatus, Err, find_status, find_classifier}
use sip_server.Errors.Wrap.{
  Wrapper, wrap, is-wrap, find_status-wrap, find_classifier-wrap, has_addr_error-wrap,
  has_dns_error-wrap, has_op_error-wrap,
}
use sip_server.Classify.{
  InviteFailure, class_verdict, status_verdict, residual_verdict, by_kind, classify_invite_error,
}

-- The two phrases by which an upstream says that the customer's own limit was met.
pub is_limit : SipStatus → Bool
is_limit st =
    contains (text "cps limit exceeded") (to_lower st.status)
    || contains (text "concurrent call limit exceeded") (to_lower st.status)

-- Whom a SIP status is blamed on, by its class alone.
pub blame : SipStatus → TerminationResult
blame st =
    if ltb st.code 400 || leb 700 st.code
    then server_failure
    else if leb 500 st.code && ltb st.code 600
    then (if is_limit st then client_failure else upstream_failure)
    else client_failure

-- Whether the error is reported to the customer: not for an ordinary refusal.
pub is_reported : SipStatus → Bool
is_reported st = ltb st.code 400 || leb 700 st.code || (leb 500 st.code && ltb st.code 600)

class_verdict-blame :
    (st : SipStatus) (e : Err)
    → let f = (class_verdict st e).end in
      (f.term.result ≡ blame st) × (f.report ≡ (if is_reported st then some e else none))
unfolding class_verdict blame is_reported is_limit
class_verdict-blame st e = ground arith

blame-4xx :
    (st : SipStatus)
    → 400 ≤ st.code
    → st.code < 500
    → (blame st ≡ client_failure) × (is_reported st ≡ false)
unfolding blame is_reported
blame-4xx st lo hi = ground arith

status_verdict-blame :
    (st : SipStatus) (e : Err)
    → let f = (status_verdict st e).end in
      (f.term.result ≡ blame st) × (f.report ≡ (if is_reported st then some e else none))
unfolding status_verdict
status_verdict-blame st e = ground (arith, blame-4xx st, class_verdict-blame st e)

-- An error that does not classify itself and holds a SIP status: a status below 400 or from 700 on
-- is blamed on the server, a 5xx on the upstream unless it names one of the customer's limits, and
-- all others on the client; the error is reported for the first two classes (limits included), and
-- dropped for the last.
pub classify-blame :
    (e : Err) {st : SipStatus}
    → find_classifier e ≡ none
    → find_status e ≡ some st
    → let f = (classify_invite_error e).end in
      (f.term.result ≡ blame st) × (f.report ≡ (if is_reported st then some e else none))
unfolding classify_invite_error
classify-blame e {st} c s = ground (arith, status_verdict-blame st e)

-- What a verdict leaves in the record of the call.
abbrev pub SameRecord : InviteFailure → InviteFailure → Type 0
SameRecord f g =
    (f.end.status ≡ g.end.status) × (f.end.term ≡ g.end.term) × (f.end.reason ≡ g.end.reason)

class_verdict-SameRecord :
    (st : SipStatus) (e d : Err) → SameRecord (class_verdict st e) (class_verdict st d)
unfolding class_verdict
class_verdict-SameRecord st e d = ground arith

status_verdict-SameRecord :
    (st : SipStatus) (e d : Err) → SameRecord (status_verdict st e) (status_verdict st d)
unfolding status_verdict
status_verdict-SameRecord st e d = ground (arith, class_verdict-SameRecord st e d)

residual_verdict-SameRecord :
    (ws : List Wrapper) (e : Err) → SameRecord (residual_verdict (wrap ws e)) (residual_verdict e)
unfolding residual_verdict
residual_verdict-SameRecord ws e =
    simp (is-wrap, has_addr_error-wrap, has_dns_error-wrap, has_op_error-wrap) (ground arith)

by_kind-SameRecord :
    (ws : List Wrapper) (c : Option Err) (s : Option SipStatus) (e : Err)
    → SameRecord (by_kind c s (wrap ws e)) (by_kind c s e)
unfolding by_kind
by_kind-SameRecord ws (some c) s e = (refl, refl, refl)
by_kind-SameRecord ws none (some st) e = status_verdict-SameRecord st (wrap ws e) e
by_kind-SameRecord ws none none e = residual_verdict-SameRecord ws e

classify_lem : (e : Err) → classify_invite_error e ≡ by_kind (find_classifier e) (find_status e) e
unfolding classify_invite_error
classify_lem e = refl

-- Wrapping an error in messages and RPC codes changes neither the recorded status, nor the
-- termination, nor the disconnect reason.
pub classify-wrap :
    (ws : List Wrapper) (e : Err)
    → SameRecord (classify_invite_error (wrap ws e)) (classify_invite_error e)
classify-wrap ws e =
    rw (classify_lem (wrap ws e), classify_lem e, find_classifier-wrap ws e, find_status-wrap ws e)
      (by_kind-SameRecord ws (find_classifier e) (find_status e) e)
