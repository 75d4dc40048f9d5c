-- ===== src/Inbound/Call.antt =====
-- `inboundCall` of pkg/sip/inbound.go: how a call is closed. The LiveKit room, the media port and the
-- handler of the service are other components: here they are what the call has opened and not closed.
use sip_server.Prelude.{
  ℕ, Bool, true, false, not, ◌&&◌, Option, none, some, List, [], ◌∷◌, ◌++◌, if◌then◌else◌, Text,
  text, is_empty, to_lower, pos,
}
use sip_server.Stats.{
  Termination, CallMonitor, call_terminate, success_term, server_error, client_error, indeterminate,
}
use sip_server.Status.{
  CallStatus, call_dropped, call_media_failed, call_cancelled, call_hangup, call_hangup_media,
  call_no_ack, DisconnectReason, unknown_reason, client_initiated,
}
use sip_server.Errors.{Err, rpc, sentinel, no_ack, deadline_exceeded}
use sip_server.Classify.{EndCall}
use sip_server.Codes.{Result}
use sip_server.Reason.{ReasonHeader, is_zero, is_normal, reason_string, int_text}
use sip_server.Inbound.Leg.{Leg, close_with_status, accept_bye}
pub mod Closing
pub mod Waits
pub mod Pin
pub mod Invite
pub mod Life
mod Tests

-- What is recorded as the error of the call: a reason of the peer, or a fixed text.
pub data InfoError : Type 0 where
  of_reason : Text → InfoError
  media_timeout_error : InfoError

pub record Call : Type 0 where
  pub leg : Leg
  pub mon : CallMonitor
  pub info_error : Option InfoError
  pub info_reason : DisconnectReason
  pub close_reason : Option ReasonHeader
  pub done : Bool
  -- the context of the call is cancelled
  pub ended : Bool
  pub media_open : Bool
  pub room_open : Bool
  -- the call is in `byLocalTag`, and registered for transfers
  pub by_local_tag : Bool
  pub transferable : Bool
  -- the reasons passed to `OnSessionEnd`
  pub session_ends : List Text

abbrev pub end_with : CallStatus → Termination → EndCall
end_with s t = record { report = none; status = s; term = t; reason = unknown_reason; headers = [] }

-- The response to an INVITE that is still pending.
unfoldable pub result_of : CallStatus → Result
result_of call_media_failed = record { code = 488; status = text "Media Failed" }
result_of call_cancelled = record { code = 487; status = text "Request Terminated" }
result_of _ = record { code = 486; status = text "Rejected" }

-- `close`: only the first of all calls has an effect.
unfoldable pub close : EndCall → Call → Call
close e c = if c.done then c else record c {
  done = true;
  mon = call_terminate c.mon e.term;
  leg = close_with_status (result_of e.status) c.leg;
  room_open = false;
  media_open = false;
  by_local_tag = false;
  transferable = false;
  session_ends = e.term.reason ∷ c.session_ends;
  ended = true;
}

unfoldable pub close_with_term : Termination → Call → Call
close_with_term t c = close (end_with call_dropped t) c

abbrev or_error : Option InfoError → InfoError → Option InfoError
or_error none e = some e
or_error (some f) e = some f

unfoldable pub close_with_timeout : Bool → Call → Call
close_with_timeout true c = close (end_with call_dropped (indeterminate (text "media-timeout"))) c
close_with_timeout false c =
    let c' : Call = record c { info_error = or_error c.info_error media_timeout_error } in
    close (end_with call_hangup_media (indeterminate (text "media-timeout"))) c'

unfoldable pub close_with_no_ack : Call → Call
close_with_no_ack c = close (end_with call_no_ack (indeterminate (text "no-ack"))) c

-- `closeWith`: a reason that is not normal is recorded, and names the termination.
unfoldable pub close_with : CallStatus → Termination → ReasonHeader → Call → Call
close_with status t reason c =
    let error =
      if is_normal reason
      then c.info_error
      else or_error c.info_error (of_reason (reason_string reason)) in
    let named : Termination = record t {
      reason = text "bye-" ++ (to_lower reason.type ++ (text "-" ++ int_text reason.cause));
    } in
    let t' = if not (is_empty reason.type) && not (is_normal reason) then named else t in
    let c' : Call = record c { info_reason = client_initiated; info_error = error } in
    close (end_with status t') c'

abbrev pub no_reason : ReasonHeader
no_reason = record { type = []; cause = pos 0; reason_text = [] }

abbrev reason_of : Option ReasonHeader → ReasonHeader
reason_of none = no_reason
reason_of (some r) = r

unfoldable pub close_with_cancelled : Call → Call
close_with_cancelled c =
    close_with call_cancelled (success_term (text "cancelled")) (reason_of c.close_reason) c

unfoldable pub close_with_hangup : Call → Call
close_with_hangup c =
    close_with call_hangup (success_term (text "hangup")) (reason_of c.close_reason) c

-- `Close` only cancels the context; `Bye` is what the server does with a BYE of the peer, after the
-- leg has answered it.
unfoldable pub cancel_call : Call → Call
cancel_call c = record c { ended = true }

unfoldable pub bye : ReasonHeader → Call → Call
bye r c = cancel_call (record c { leg = accept_bye c.leg; close_reason = some r })

unfoldable pub shutdown : Call → Call
shutdown c = close_with_term (server_error (text "shutdown")) c

-- `mediaTimeout`, by whether the 200 was acknowledged, and the error that it returns.
unfoldable pub timed_out : Bool → Call → Option Err × Call
timed_out false c = (some (rpc deadline_exceeded (sentinel no_ack)), close_with_no_ack c)
timed_out true c = (none, close_with_timeout false c)

unfoldable pub media_timeout : Call → Option Err × Call
media_timeout c = timed_out c.leg.acked c
