-- ===== src/Inbound.antt =====
-- The inbound side of pkg/sip/inbound.go: the SIP leg of a call, the digest authentication of an
-- INVITE, and the life of a call.
pub mod Leg
pub mod Auth
pub mod Call
