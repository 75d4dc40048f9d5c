-- ===== src/Status.antt =====
-- pkg/sip/participant.go: call statuses, and how a closed LiveKit room is read as a termination.
use sip_server.Prelude.{ℕ, Text, text}
use sip_server.Stats.{Termination, success_term, server_error, client_error}
pub mod Rooms
mod Tests

pub data CallStatus : Type 0 where
  call_dropped call_flood call_dialing call_ringing call_automation call_active : CallStatus
  call_hangup call_cancelled call_unavailable call_rejected call_media_failed : CallStatus
  call_accept_failed call_no_ack call_hangup_media : CallStatus

-- livekit.DisconnectReason, an enumeration of the protocol library: the values that the code names,
-- and any other number.
pub data DisconnectReason : Type 0 where
  unknown_reason client_initiated duplicate_identity server_shutdown : DisconnectReason
  participant_removed room_deleted state_mismatch join_failure migration : DisconnectReason
  signal_close room_closed user_unavailable user_rejected : DisconnectReason
  sip_trunk_failure connection_timeout media_failure agent_error : DisconnectReason
  other_reason : ℕ → DisconnectReason

unfoldable pub attribute : CallStatus → Text
attribute call_dialing = text "dialing"
attribute call_ringing = text "ringing"
attribute call_automation = text "automation"
attribute call_active = text "active"
attribute call_hangup = text "hangup"
attribute call_hangup_media = text "hangup"
attribute call_cancelled = text "hangup"
attribute _ = text ""

unfoldable pub disconnect_reason : CallStatus → DisconnectReason
disconnect_reason call_hangup = client_initiated
disconnect_reason call_hangup_media = client_initiated
disconnect_reason call_cancelled = client_initiated
disconnect_reason call_unavailable = user_unavailable
disconnect_reason call_rejected = user_rejected
disconnect_reason _ = unknown_reason

unfoldable pub termination_from_room_disconnect : DisconnectReason → Termination
termination_from_room_disconnect client_initiated = success_term (text "removed")
termination_from_room_disconnect room_closed = success_term (text "removed")
termination_from_room_disconnect room_deleted = success_term (text "removed")
termination_from_room_disconnect participant_removed = success_term (text "removed")
termination_from_room_disconnect join_failure = server_error (text "room-failed")
termination_from_room_disconnect signal_close = server_error (text "room-failed")
termination_from_room_disconnect state_mismatch = server_error (text "room-failed")
termination_from_room_disconnect server_shutdown = server_error (text "server-shutdown")
termination_from_room_disconnect connection_timeout = server_error (text "connection-timeout")
termination_from_room_disconnect migration = server_error (text "migration")
termination_from_room_disconnect sip_trunk_failure = server_error (text "sip-trunk-failure")
termination_from_room_disconnect media_failure = server_error (text "media-failure")
termination_from_room_disconnect agent_error = server_error (text "agent-error")
termination_from_room_disconnect duplicate_identity = client_error (text "duplicate-identity")
termination_from_room_disconnect user_unavailable = client_error (text "user-unavailable")
termination_from_room_disconnect user_rejected = client_error (text "user-rejected")
termination_from_room_disconnect _ = server_error (text "room-disconnected")

unfoldable pub disconnect_reason_from_room_close : DisconnectReason → DisconnectReason
disconnect_reason_from_room_close unknown_reason = client_initiated
disconnect_reason_from_room_close r = r
