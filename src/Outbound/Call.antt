-- ===== src/Outbound/Call.antt =====
-- `outboundCall` of pkg/sip/outbound.go: how a call is dialled, awaited and closed. The LiveKit room and
-- the media port are other components: here they are whether they are open, what they return, and the
-- statuses that were set as an attribute of the room's participant. Errors stand for their messages.
use sip_server.Prelude.{
  ℕ, Bool, true, false, not, ◌&&◌, Option, none, some, List, [], ◌∷◌, ◌⊎◌, inl, inr, leb, ltb,
  if◌then◌else◌, is_empty, Text, text,
}
use sip_server.Stats.{
  Termination, CallMonitor, new_call, call_start, call_end, call_terminate, success_term,
  server_error, indeterminate,
}
use sip_server.Status.{
  CallStatus, call_dropped, call_ringing, call_automation, call_active, call_hangup, attribute,
  DisconnectReason, unknown_reason, client_initiated, server_shutdown,
  termination_from_room_disconnect, disconnect_reason_from_room_close,
}
use sip_server.Errors.{
  Err, SipStatus, plain, wrapped, rpc, deadline_exceeded, internal, find_status,
}
use sip_server.Classify.{EndCall, InviteFailure, classify_invite_error, after_invite}
use sip_server.Analytics.{CallState, update, defer_update, force_flush}
use sip_server.Outbound.{
  Answer, OutLeg, after_invite_loop, invite_result, close_leg, ack_invite_ok, accept_bye,
}
pub mod Dial
pub mod Closing

-- livekit.SIPCallStatus
pub data InfoStatus : Type 0 where
  call_incoming participant_joined info_active info_error info_disconnected : InfoStatus

-- What the call writes of livekit.SIPCallInfo.
pub record CallInfo : Type 0 where
  pub call_status : InfoStatus
  pub error : Option Err
  pub info_reason : DisconnectReason
  pub status_code : Option SipStatus
  pub started_at : Bool
  pub ended_at : Bool

pub record Call : Type 0 where
  pub leg : OutLeg
  pub mon : CallMonitor
  pub state : CallState CallInfo
  pub started : Bool
  pub stopped : Bool
  pub closing : Bool
  -- an INVITE was sent
  pub invite_time : Bool
  pub media_open : Bool
  -- `lkRoom` is set; and is not closed yet
  pub has_room : Bool
  pub room_open : Bool
  pub attributes : List CallStatus
  -- the call is in `activeCalls`, and registered for transfers. It is registered under the call ID of
  -- the participant's attributes and removed under the ID of the leg, which are taken to be the same.
  pub is_listed : Bool
  pub transferable : Bool
  -- the reasons passed to `OnSessionEnd`
  pub session_ends : List Text

unfoldable pub set_status : CallStatus → Call → Call
set_status s c =
    if is_empty (attribute s)
    then c
    else if c.has_room
    then record c { attributes = s ∷ c.attributes }
    else c

abbrev or_error : Option Err → Option Err → Option Err
or_error (some f) e = some f
or_error none e = e

-- The first error of a call is kept.
abbrev report_end : EndCall → CallInfo → CallInfo
report_end e i = elim e.report [
  | none ↦ record i { info_reason = e.reason }
  | some x ↦ elim i.error [
    | none ↦ record i { error = some x; call_status = info_error; info_reason = e.reason }
    | some f ↦ record i { info_reason = e.reason }
  ]
]

-- `stopSIP`; whether the client is shutting down decides how the leg is closed.
unfoldable pub stop_sip : Bool → Termination → Call → Call
stop_sip down t c = record c { mon = call_terminate c.mon t; leg = close_leg down c.leg }

-- What `close` does once.
close_body : Bool → EndCall → Call → Call
close_body down e c =
    let c1 : Call = set_status e.status (record c { stopped = true }) in
    let c2 : Call = record c1 { state = update (report_end e) c1.state } in
    let c3 : Call = stop_sip down e.term c2 in
    record c3 {
      media_open = false;
      room_open = false;
      is_listed = false;
      transferable = false;
      session_ends = e.term.reason ∷ c3.session_ends;
    }

-- `close`, and whether it was the one that closed the call.
unfoldable pub close : Bool → EndCall → Call → Call × Bool
unfolding close_body
close down e c =
    let c' : Call = record c { closing = true } in
    if c.stopped then (c', false) else (close_body down e c', true)

abbrev pub end_as : Option Err → CallStatus → Termination → DisconnectReason → EndCall
end_as report s t r = record { report = report; status = s; term = t; reason = r; headers = [] }

abbrev pub shutdown_end : EndCall
shutdown_end = end_as none call_dropped (server_error (text "shutdown")) server_shutdown

-- `Close`
unfoldable pub shutdown : Bool → Call → Call
shutdown down c = (close down shutdown_end c).0

abbrev pub timeout_end : EndCall
timeout_end =
    end_as (some (rpc deadline_exceeded (plain (text "media-timeout")))) call_dropped
      (indeterminate (text "media-timeout")) unknown_reason

unfoldable pub close_with_timeout : Bool → Call → Call
close_with_timeout down c = (close down timeout_end c).0

abbrev pub rpc_end : EndCall
rpc_end = end_as none call_hangup (success_term (text "rpc")) client_initiated

-- `EndCall` of the call interface.
unfoldable pub end_call : Bool → Call → Call × Option Err
end_call down c =
    let (c', done) = close down rpc_end c in
    (c', if done then none else some (plain (text "call already ended")))

-- What the client does with a BYE: the leg answers it, then the call is closed.
unfoldable pub bye : Bool → Call → Call
bye down c =
    (close down (end_as none call_hangup (success_term (text "bye")) client_initiated)
      (record c { leg = accept_bye c.leg })).0

-- One second after a transfer.
unfoldable pub transferred : Bool → Call → Call
transferred down c =
    (close down (end_as none call_hangup (success_term (text "call transferred")) client_initiated)
      c).0

set_closed : CallInfo → CallInfo
set_closed i = elim i.error [
  | none ↦ record i { call_status = info_disconnected; ended_at = true }
  | some e ↦ record i { call_status = info_error; ended_at = true }
]

unfoldable pub ensure_closed : Call → Call
unfolding set_closed
ensure_closed c = record c { state = update set_closed c.state }

set_error : Err → CallInfo → CallInfo
set_error e i = elim i.error [
  | none ↦ record i { error = some e; call_status = info_error }
  | some f ↦ i
]

unfoldable pub set_err_status : Option Err → Call → Call
unfolding set_error
set_err_status none c = c
set_err_status (some e) c = record c { state = update (set_error e) c.state }
