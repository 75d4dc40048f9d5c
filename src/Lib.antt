-- ===== src/Lib.antt =====
-- A model of the core of the SIP bridge (pkg/sip, pkg/stats), and theorems about it.
--
-- The bridge connects SIP calls to LiveKit rooms. An inbound INVITE is authenticated by the server,
-- becomes a SIP leg (`sipInbound`) and a call (`inboundCall`), whose `handleInvite` runs from the first
-- dispatch to the end of the call. An outbound call sends an INVITE itself (`sipOutbound`), classifies
-- how it fails, and reports that. Both can be transferred by a REFER, whose outcome the peer reports in
-- NOTIFY requests. Counters and terminations of all calls go to the statistics.
--
-- Which file models which part:
--   Prelude    shared: Boolean tests, lists, Go strings as bytes, `strconv` and `strings`
--   Stats      pkg/stats/termination.go, the CallMonitor of pkg/stats/monitor.go
--   Status     pkg/sip/participant.go: call statuses and the reasons of a closed room
--   Errors     error chains: sentinels of pkg/sip/protocol.go, types of pkg/sip/errors.go, errors.Is/As
--   Classify   classifyInviteError and afterInvite of pkg/sip/errors.go
--   Codes      response codes and NewResponse of pkg/sip/protocol.go
--   Reason     ReasonHeader and ParseReasonHeader of pkg/sip/protocol.go
--   Refer      NOTIFY bodies, REFER outcomes, answers to errors: pkg/sip/protocol.go
--   Inbound    pkg/sip/inbound.go. Leg: sipInbound, one function per method; Auth: getInvite,
--              handleInviteAuth and the timer of a challenge (with pkg/sip/server.go); Call:
--              inboundCall with every way to close it, its waits, and handleInvite
--   Dispatch   GetAuthCredentials and DispatchCall of pkg/service/psrpc.go
--   Uri        addresses and transports: pkg/sip/types.go, pkg/sip/protocol.go
--   Attrs      headers as attributes and back: pkg/sip/types.go
--   Codecs     the codecs of a call: pkg/sip/media_codecs.go
--   Dtls       DTLS-SRTP in offers and answers: pkg/sip/dtls_sdp.go
--   Client     the URIs and headers of an outbound call: pkg/sip/client.go
--   Server     processInvite of pkg/sip/inbound.go up to the call that it starts; Routing: ACK, BYE,
--              NOTIFY and OPTIONS, with OnRequest of pkg/sip/client.go and Stop of pkg/sip/server.go
--   Outbound   pkg/sip/outbound.go: sipResponse, the INVITE with authentication, the leg's methods
--   Outbound/Call, Outbound/Create   outboundCall of pkg/sip/outbound.go from newCall to its end, and
--              createSIPParticipant of pkg/sip/client.go
--   Tone       transferCall of pkg/sip/inbound.go and pkg/sip/outbound.go, around the leg
--   Transfer   the pending transfers of pkg/sip/service.go, what their requests are answered (with
--              ApplySIPStatus of pkg/errors/errors.go), and the transfer counters of pkg/stats/monitor.go (in Stats/Transfers)
--   Analytics  CallState of pkg/sip/analytics.go
--   Media      pkg/media/rtpconn/conn.go, pkg/sip/silence_filler.go, rtpStreamStats of
--              pkg/sip/media.go, LatencyStats of pkg/sip/media_latency.go
--
-- How the code is modelled. A struct is a record of the fields that a decision reads; a method is a
-- function on it, named as in the code. Messages are a list of what was sent, latest first; pointers to
-- messages that are only copied into others are kept as whether they are set. Methods that hold a mutex
-- throughout are atomic, so that a history is a list of operations; TransferCall of the inbound leg numbers
-- its REFER under the mutex and sends it later, in two operations. Machine integers wrap around
-- explicitly (CSeq at 2^32, RTP numbers at 2^16 and 2^32, counters at 2^64); other numbers are natural.
-- A `select` takes an event of the environment, and a loop around it takes a list of them. Libraries
-- (the digest, the RPC codes, the audio sinks, the frames in a second) are parameters.
--
-- Bounds and fuel. The retry loop of `Accept` is given one round more than its retries,
-- which is as many as it has transmissions. The loop of
-- the outbound `Invite` recurs on its five tries. The digits of a number are written with one round more
-- than the number, and a longer run changes nothing. All other functions recur on their data.
--
-- What is not modelled: the bodies of SDP and RTP, the SDKs of LiveKit and Prometheus, logging, tracing,
-- durations, most headers of messages, how audio is coded, the DTLS transport and TLS, configuration
-- and start-up; and, so far, the media ports and the LiveKit room.
pub mod Prelude
pub mod Stats
pub mod Status
pub mod Errors
pub mod Classify
pub mod Codes
pub mod Reason
pub mod Refer
pub mod Inbound
pub mod Server
pub mod Dispatch
pub mod Client
pub mod Uri
pub mod Attrs
pub mod Codecs
pub mod Dtls
pub mod Outbound
pub mod Tone
pub mod Analytics
pub mod Transfer
pub mod Media
