-- ===== src/Classify/Returns.antt =====
-- A failed INVITE is an error for the caller (pkg/sip/errors.go).
use sip_server.Prelude.{◌≡◌, true, Option, none, some, is_some, arith}
use sip_server.Errors.{Err, SipStatus, find_classifier, find_status}
use sip_server.Classify.{
  InviteFailure, after_invite, classify_invite, limit_verdict, class_verdict, status_verdict,
  residual_verdict, by_kind, classify_invite_error,
}

abbrev Returns : InviteFailure → Type 0
Returns f = is_some f.return_err ≡ true

classify_invite-Returns : (e : Err) → Returns (classify_invite e)
unfolding classify_invite
classify_invite-Returns e = ground arith

limit_verdict-Returns : (st : SipStatus) (e : Err) → Returns (limit_verdict st e)
unfolding limit_verdict
limit_verdict-Returns st e = ground arith

class_verdict-Returns : (st : SipStatus) (e : Err) → Returns (class_verdict st e)
unfolding class_verdict
class_verdict-Returns st e = ground (arith, limit_verdict-Returns st e)

status_verdict-Returns : (st : SipStatus) (e : Err) → Returns (status_verdict st e)
unfolding status_verdict
status_verdict-Returns st e = ground (arith, class_verdict-Returns st e)

residual_verdict-Returns : (e : Err) → Returns (residual_verdict e)
unfolding residual_verdict
residual_verdict-Returns e = ground arith

by_kind-Returns : (c : Option Err) (s : Option SipStatus) (e : Err) → Returns (by_kind c s e)
unfolding by_kind
by_kind-Returns (some c) s e = classify_invite-Returns c
by_kind-Returns none (some st) e = status_verdict-Returns st e
by_kind-Returns none none e = residual_verdict-Returns e

-- Every error of an INVITE is returned as an error, and so is what `afterInvite` makes of it.
pub classify_invite_error_returns : (e : Err) → is_some (classify_invite_error e).return_err ≡ true
unfolding classify_invite_error
classify_invite_error_returns e = by_kind-Returns (find_classifier e) (find_status e) e

pub after_invite_returns :
    (f : InviteFailure) → is_some f.return_err ≡ true → is_some (after_invite f).return_err ≡ true
unfolding after_invite
after_invite_returns f h = ground (arith, h)
