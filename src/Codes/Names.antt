-- ===== src/Codes/Names.antt =====
-- What every response that the bridge makes of a `Result` carries (pkg/sip/protocol.go).
use sip_server.Prelude.{ℕ, ◌≡◌, ◌≢◌, arith, false, ◌++◌, text, is_empty, itoa}
use sip_server.Codes.{sip_status_text, Result, new_response}

prefixed : (c : ℕ) → is_empty (text "Status " ++ itoa c) ≡ false
unfolding text
prefixed c = ground arith

sip_status_text-nonempty : (c : ℕ) → is_empty (sip_status_text c) ≡ false
unfolding sip_status_text
sip_status_text-nonempty c = ground (arith, prefixed c)

-- The response that is made of a result always has a code other than 0 and a reason phrase that is
-- not empty; a code other than 0 and a phrase that is not empty are kept.
pub new_response_lem :
    (r : Result)
    → ((new_response r).code ≢ 0)
      × (is_empty (new_response r).status ≡ false)
      × (r.code ≢ 0 → (new_response r).code ≡ r.code)
      × (is_empty r.status ≡ false → (new_response r).status ≡ r.status)
unfolding new_response
new_response_lem r = ground (arith, sip_status_text-nonempty r.code, sip_status_text-nonempty 503)
