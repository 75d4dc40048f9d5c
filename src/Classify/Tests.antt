-- ===== src/Classify/Tests.antt =====
-- Runs of the classification.
use sip_server.Prelude.{List, ◌∷◌, [], text}
use sip_server.Errors.{Err, SipStatus, canceled, sip_status}
use sip_server.Errors.Wrap.{Wrapper, say, code, wrap}

abbrev capped : SipStatus
capped = record { code = 503; status = text "Account CPS Limit Exceeded" }

abbrev failed : Err
failed = wrap (say (text "unexpected status from INVITE response: ") ∷ []) (sip_status capped)

abbrev layers : List Wrapper
layers = say (text "dial: ") ∷ code canceled ∷ []
