-- ===== src/Outbound/Call/Dial.antt =====
-- Dialling and awaiting an outbound call (pkg/sip/outbound.go). What the media port, the INVITE, the
-- DTMF writer and the context come to is given; the call holds its mutex from the offer to the end.
use sip_server.Prelude.{
  ℕ, Bool, true, false, not, ◌&&◌, Option, none, some, List, [], ◌∷◌, ◌⊎◌, inl, inr, leb, ltb,
  if◌then◌else◌, is_empty, Text, text,
}
use sip_server.Stats.{CallMonitor, call_start, call_end, success_term}
use sip_server.Status.{
  call_dropped, call_ringing, call_automation, call_active, call_hangup, DisconnectReason,
  client_initiated, termination_from_room_disconnect, disconnect_reason_from_room_close,
}
use sip_server.Errors.{Err, SipStatus, plain, rpc, deadline_exceeded, find_status}
use sip_server.Classify.{EndCall, InviteFailure, classify_invite_error, after_invite}
use sip_server.Analytics.{CallState, update, defer_update, force_flush}
use sip_server.Outbound.{Answer, OutLeg, after_invite_loop, invite_result, close_leg, ack_invite_ok}
use sip_server.Outbound.Call.{
  CallInfo, info_active, Call, set_status, close, end_as, close_with_timeout, ensure_closed,
  set_err_status,
}
pub mod Answered
pub mod Life
pub mod Waits

-- How a dial goes.
pub record Dialling : Type 0 where
  -- NewOffer, or the marshalling of the offer
  pub offer_err : Option Err
  -- the codes of the responses before the last, the end of the loop of `Invite`, and its transmissions
  pub provisional : List ℕ
  pub answer : Answer
  pub transmissions : ℕ
  -- SetAnswer, or SetConfig
  pub media_err : Option Err
  -- the context after the ACK
  pub ctx_err : Option Err
  pub dtmf : Text
  pub dtmf_err : Option Err

-- The callback for the responses of the INVITE: the first ringing is shown.
unfoldable pub on_responses : Bool → List ℕ → Call → Call
on_responses ringing [] c = c
on_responses ringing (code ∷ codes) c =
    let rings = on_responses true codes (set_status call_ringing c) in
    let rest = on_responses ringing codes c in
    if not ringing && (leb 180 code && ltb code 200) then rings else rest

set_code : Option SipStatus → CallInfo → CallInfo
set_code st i = record i { status_code = st }

-- `Invite` has failed: the status is recorded, and the leg is closed.
invite_failed : Bool → Err → Call → Call
unfolding set_code
invite_failed down e c = elim (find_status e) [
  | none ↦ record c { leg = close_leg down c.leg }
  | some st ↦ record c {
    state = defer_update (set_code (some st)) c.state;
    leg = close_leg down c.leg;
  }
]

acknowledged : Dialling → Call → OutLeg × Option Err → Call × Option Err
acknowledged d c (l, some e) = (record c { leg = l }, some e)
acknowledged d c (l, none) = (record c { leg = l }, d.ctx_err)

answered : Bool → Dialling → Call → Err ⊎ Text → Call × Option Err
unfolding invite_failed acknowledged
answered down d c (inl e) = (invite_failed down e c, some e)
answered down d c (inr sdp) = elim d.media_err [
  | some e ↦ (c, some e)
  | none ↦ acknowledged d c (ack_invite_ok c.leg)
]

unfoldable pub sip_signal : Bool → Dialling → Call → Call × Option Err
unfolding answered
sip_signal down d c = elim d.offer_err [
  | some e ↦ (c, some e)
  | none ↦
      let c1 = on_responses false d.provisional (record c { invite_time = true }) in
      let c2 : Call = record c1 { leg = after_invite_loop d.answer d.transmissions c1.leg } in
      answered down d c2 (invite_result d.answer)
]

after_signal : Dialling → Call × Option Err → Call × Option Err
after_signal d (c, some e) = (c, some e)
after_signal d (c, none) =
    if is_empty d.dtmf then (set_status call_active c, none) else elim d.dtmf_err [
      | some e ↦ (set_status call_automation c, some e)
      | none ↦ (set_status call_active (set_status call_automation c), none)
    ]

unfoldable pub dial_sip : Bool → Dialling → Call → Call × Option Err
unfolding after_signal
dial_sip down d c = after_signal d (sip_signal down d c)

-- What a failure of the dial is recorded as.
unfoldable pub invite_failure : Bool → Err → InviteFailure
invite_failure sent e =
    if sent then after_invite (classify_invite_error e) else classify_invite_error e

connected : Bool → Call × Option Err → Call × Option Err
connected down (c, none) = (record c { started = true }, none)
connected down (c, some e) =
    let res = invite_failure c.invite_time e in ((close down res.end c).0, res.return_err)

unfoldable pub connect_sip : Bool → Dialling → Call → Call × Option Err
unfolding connected
connect_sip down d c = connected down (dial_sip down d c)

set_active : CallInfo → CallInfo
set_active i = record i { started_at = true; call_status = info_active }

dialled : Bool → Call × Option Err → Call × Option Err
unfolding set_active
dialled joined (c, some e) = (ensure_closed c, some e)
dialled joined (c, none) =
    (record c { state = update (λ i. if joined then set_active i else i) c.state }, none)

-- `Dial`; `joined` is that the room has been joined. The monitor is started and ended around it.
unfoldable pub dial : Bool → Bool → Dialling → Call → Call × Option Err
unfolding dialled
dial down joined d c =
    let (c', e) = dialled joined (connect_sip down d (record c { mon = call_start c.mon })) in
    (record c' { mon = call_end c'.mon }, e)

-- The events of the `select` in `waitClose`.
pub data Event : Type 0 where
  stats_tick state_tick ctx_done media_timed_out was_closed : Event
  room_closed : DisconnectReason → Event

abbrev room_end : DisconnectReason → EndCall
room_end r =
    end_as none call_dropped (termination_from_room_disconnect r)
      (disconnect_reason_from_room_close r)

abbrev ctx_end : EndCall
ctx_end = end_as none call_hangup (success_term (text "hangup")) client_initiated

abbrev media_timeout : Err
media_timeout = rpc deadline_exceeded (plain (text "media timeout"))

-- `waitClose`; `none` while it waits. The events after the first that ends it are left; `Closed()` is
-- ready only for a call that has stopped.
wait_loop : Bool → List Event → Call → Call × Option (Option Err)
wait_loop down [] c = (c, none)
wait_loop down (stats_tick ∷ es) c = wait_loop down es c
wait_loop down (state_tick ∷ es) c = wait_loop down es (record c { state = force_flush c.state })
wait_loop down (room_closed r ∷ es) c = ((close down (room_end r) c).0, some none)
wait_loop down (media_timed_out ∷ es) c =
    (set_err_status (some media_timeout) (close_with_timeout down c), some (some media_timeout))
wait_loop down (ctx_done ∷ es) c = ((close down ctx_end c).0, some none)
wait_loop down (was_closed ∷ es) c =
    let rest = wait_loop down es c in if c.stopped then (c, some none) else rest

close_after : Call × Option (Option Err) → Call × Option (Option Err)
close_after (c, none) = (c, none)
close_after (c, some r) = (ensure_closed c, some r)

unfoldable pub wait_close : Bool → List Event → Call → Call × Option (Option Err)
unfolding wait_loop close_after
wait_close down es c = close_after (wait_loop down es c)
