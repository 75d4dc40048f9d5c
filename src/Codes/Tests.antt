-- ===== src/Codes/Tests.antt =====
-- Runs of the tables.
use sip_server.Prelude.{◌≡◌, refl, text, itoa}
use sip_server.Codes.{sip_status_text, status_name}

sip_status_text-486 : sip_status_text 486 ≡ text "Busy Here"
unfolding sip_status_text text
sip_status_text-486 = refl

status_name-486 : status_name 486 ≡ text "486-BusyHere"
unfolding status_name text itoa
status_name-486 = refl

status_name-499 : status_name 499 ≡ text "status-499"
unfolding status_name text itoa
status_name-499 = refl
