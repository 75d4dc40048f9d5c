-- ===== src/Inbound/Leg/Unacked.antt =====
-- `Accept` of pkg/sip/inbound.go against a peer that never sends an ACK.
use sip_server.Prelude.{◌≡◌, Option, none, some}
use sip_server.Inbound.Leg.{Leg, unacknowledged, Attempt}

-- How the loop ends if no ACK comes, where it is waited for.
abbrev Unacked : Option Attempt → Type 0
Unacked none = Unit {0}
Unacked (some a) = a.ending ≡ unacknowledged
