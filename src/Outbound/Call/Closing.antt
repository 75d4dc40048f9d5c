-- ===== src/Outbound/Call/Closing.antt =====
-- An outbound call is closed once (pkg/sip/outbound.go).
use sip_server.Prelude.{◌≡◌, Bool, true, false, [], ◌∷◌, arith, length, if◌then◌else◌}
use sip_server.Stats.{call_terminate}
use sip_server.Status.{CallStatus}
use sip_server.Classify.{EndCall}
use sip_server.Analytics.{CallState, update, flush_locked}
use sip_server.Outbound.{OutLeg, close_leg, drop, send_bye, send_cancel}
use sip_server.Outbound.Dialog.{Inv}
use sip_server.Outbound.Call.{Call, CallInfo, set_status, close, close_body, stop_sip}

-- The call is not closed; `counted` is that it counts as active.
pub record IsOpen (counted : Bool) (c : Call) : Type 0 where
  pub leg_inv : Inv c.leg
  pub not_stopped : c.stopped ≡ false
  pub not_terminated : c.mon.terminated ≡ false
  pub none_ended : c.mon.ended ≡ []
  pub no_session_end : c.session_ends ≡ []
  pub gauge : (c.mon.started ≡ counted) × (c.mon.calls_active ≡ (if counted then 1 else 0))

-- The call is closed, with one termination and one end of its session. If the client was not shutting
-- down, nothing is left of the dialog.
pub record IsOver (counted down : Bool) (c : Call) : Type 0 where
  pub leg_inv : Inv c.leg
  pub leg_closed : down ≡ false → c.leg.has_ok ≡ false
  pub is_stopped : c.stopped ≡ true
  pub one_termination : length c.mon.ended ≡ 1
  pub is_terminated : c.mon.terminated ≡ true
  pub one_session_end : length c.session_ends ≡ 1
  pub media_closed : c.media_open ≡ false
  pub room_closed : c.room_open ≡ false
  pub unlisted : c.is_listed ≡ false
  pub not_transferable : c.transferable ≡ false
  pub gauge : (c.mon.started ≡ counted) × (c.mon.calls_active ≡ (if counted then 1 else 0))

pub set_status-IsOpen :
    (b : Bool) (s : CallStatus) (c : Call) → IsOpen b c → IsOpen b (set_status s c)
unfolding set_status
set_status-IsOpen b s c v = ground arith

pub close_leg-Inv : (down : Bool) (l : OutLeg) → Inv l → Inv (close_leg down l)
unfolding close_leg send_bye send_cancel drop
close_leg-Inv down l v = ground arith

close_leg-closed : (l : OutLeg) → Inv l → (close_leg false l).has_ok ≡ false
unfolding close_leg send_bye send_cancel drop
close_leg-closed l v = ground arith

close_leg-over :
    (down : Bool) (l : OutLeg) → Inv l → down ≡ false → (close_leg down l).has_ok ≡ false
close_leg-over true l v d = ground (arith, d)
close_leg-over false l v d = close_leg-closed l v

pub close-IsOver :
    (b down : Bool) (e : EndCall) (c : Call) → IsOpen b c → IsOver b down (close down e c).0
unfolding close close_body stop_sip call_terminate set_status
close-IsOver b down e c v =
    let i = close_leg-Inv down c.leg v.leg_inv in
    let o = close_leg-over down c.leg v.leg_inv in ground (arith, i, o)

-- Closing a call that is over changes nothing but the fuse `closing`.
pub close_again :
    (down : Bool) (e : EndCall) (c : Call)
    → c.stopped ≡ true
    → close down e c ≡ (record c { closing = true }, false)
unfolding close
close_again down e c s = ground (arith, s)

-- What the first close records.
pub close_records :
    (b down : Bool) (e : EndCall) (c : Call)
    → IsOpen b c
    → let c' = (close down e c).0 in
      (c'.mon.ended ≡ e.term ∷ []) × (c'.state.call_info.info_reason ≡ e.reason)
unfolding close close_body stop_sip call_terminate set_status update flush_locked
close_records b down e c v = ground (arith, v)

-- The marks that `close` does not read.
pub unread-IsOver :
    (b down : Bool) (c : Call) (closing : Bool) (s : CallState CallInfo)
    → IsOver b down c
    → IsOver b down (record c { closing = closing; state = s })
unread-IsOver b down c closing s v = record {
  leg_inv = v.leg_inv;
  leg_closed = v.leg_closed;
  is_stopped = v.is_stopped;
  one_termination = v.one_termination;
  is_terminated = v.is_terminated;
  one_session_end = v.one_session_end;
  media_closed = v.media_closed;
  room_closed = v.room_closed;
  unlisted = v.unlisted;
  not_transferable = v.not_transferable;
  gauge = v.gauge;
}
