-- ===== src/Inbound/Call/Closing.antt =====
-- A call is closed once (pkg/sip/inbound.go).
use sip_server.Prelude.{◌≡◌, true, false, [], arith, length, ◌≤◌}
use sip_server.Stats.{call_terminate}
use sip_server.Status.{CallStatus}
use sip_server.Codes.{new_response}
use sip_server.Classify.{EndCall}
use sip_server.Inbound.Leg.{close_with_status}
use sip_server.Inbound.Leg.Dialog.{Inv, close-Inv}
use sip_server.Inbound.Leg.Closing.{IsClosed, close_with_status-IsClosed}
use sip_server.Inbound.Call.{Call, result_of, close}

-- The call is in progress: nothing of its end has happened.
pub record IsOpen (c : Call) : Type 0 where
  pub leg_inv : Inv c.leg
  pub not_done : c.done ≡ false
  pub not_terminated : c.mon.terminated ≡ false
  pub none_ended : c.mon.ended ≡ []
  pub no_session_end : c.session_ends ≡ []
  pub counted : (c.mon.started ≡ true) × (c.mon.calls_active ≡ 1)

-- The call is over, with one termination and one end of its session, and nothing of it is left.
pub record IsOver (c : Call) : Type 0 where
  pub leg_inv : Inv c.leg
  pub leg_closed : IsClosed c.leg
  pub is_done : c.done ≡ true
  pub is_ended : c.ended ≡ true
  pub one_termination : length c.mon.ended ≡ 1
  pub one_session_end : length c.session_ends ≡ 1
  pub media_closed : c.media_open ≡ false
  pub room_closed : c.room_open ≡ false
  pub unlisted : c.by_local_tag ≡ false
  pub not_transferable : c.transferable ≡ false
  pub counted : (c.mon.started ≡ true) × (c.mon.calls_active ≡ 1)

result_of-rejects : (s : CallStatus) → 300 ≤ (new_response (result_of s)).code
unfolding result_of new_response
result_of-rejects s = ground arith

pub close-IsOver : (e : EndCall) (c : Call) → IsOpen c → IsOver (close e c)
unfolding close call_terminate
close-IsOver e c v =
    let k = close_with_status (result_of e.status) c.leg in
    let i : Inv k = close-Inv (result_of e.status) c.leg (result_of-rejects e.status) v.leg_inv in
    let s : IsClosed k = (close_with_status-IsClosed (result_of e.status) c.leg v.leg_inv).0 in
    ground (arith, i, s)

-- Closing again changes nothing.
pub close_again : (e : EndCall) (c : Call) → c.done ≡ true → close e c ≡ c
unfolding close
close_again e c d = ground (arith, d)
