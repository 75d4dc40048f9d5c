-- ===== src/Inbound/Call/Life.antt =====
-- Every way through `handleInvite` of pkg/sip/inbound.go ends the call once and completely.
use sip_server.Prelude.{
  Bool, true, false, List, [], ◌∷◌, ◌++◌, arith, Text, ◌==◌, ltb, length, text, if◌then◌else◌,
}
use sip_server.Stats.{Termination, client_error}
use sip_server.Status.{CallStatus, call_dropped}
use sip_server.Reason.{ReasonHeader}
use sip_server.Inbound.Leg.{cancel, accept_ack}
use sip_server.Inbound.Leg.Dialog.{accept_bye-Inv, accept_ack-Inv}
use sip_server.Inbound.Call.{
  Call, end_with, close_with_term, close_with_timeout, close_with_no_ack, close_with,
  close_with_cancelled, close_with_hangup, bye, cancel_call, media_timeout, timed_out,
}
use sip_server.Inbound.Call.Closing.{IsOpen, IsOver, close-IsOver}
use sip_server.Inbound.Call.Waits.{
  Event, Ended, Step, go, halt, wait_media, wait_subscribe, Dispatched, check_pin, pin_limit,
  PinEvent, pin_prompt, EndEvent, wait_for_call_end, cancelled, ctx_done, room_closed,
  media_timed_out, ready, late, got_bye, got_end, accepted, request_pin, no_rule_reject,
  no_rule_drop, service_unavailable, other_result, pin_cancelled, pin_ctx_done, pin_media_timed_out,
  dtmf_closed, pin_bye, dtmf, stats_tick, keep_alive, end_ctx_done, end_media_timed_out, got_ack,
  ack_timed_out, end_bye, end_call, end_room_closed,
}

-- A step that goes on leaves the call open; one that ends it may have closed it.
pub data IsSound : Step → Type 0 where
  going : {c : Call} → IsOpen c → IsSound (go c)
  still_open : {e : Ended} {c : Call} → IsOpen c → IsSound (halt e c)
  over : {e : Ended} {c : Call} → IsOver c → IsSound (halt e c)

cancel_leg-IsOpen : (c : Call) → IsOpen c → IsOpen (record c { leg = cancel c.leg })
unfolding cancel
cancel_leg-IsOpen c v = ground arith

pub ack_leg-IsOpen : (c : Call) → IsOpen c → IsOpen (record c { leg = accept_ack c.leg })
ack_leg-IsOpen c v = ground (arith, accept_ack-Inv c.leg)

cancel_call-IsOpen : (c : Call) → IsOpen c → IsOpen (cancel_call c)
unfolding cancel_call
cancel_call-IsOpen c v = ground arith

bye-IsOpen : (r : ReasonHeader) (c : Call) → IsOpen c → IsOpen (bye r c)
unfolding bye cancel_call
bye-IsOpen r c v = ground (arith, accept_bye-Inv c.leg)

close_with-IsOver :
    (s : CallStatus) (t : Termination) (r : ReasonHeader) (c : Call)
    → IsOpen c
    → IsOver (close_with s t r c)
unfolding close_with
close_with-IsOver s t r c v = close-IsOver _ _ (ground arith)

hangup-IsOver : (c : Call) → IsOpen c → IsOver (close_with_hangup c)
unfolding close_with_hangup
hangup-IsOver c v = close_with-IsOver _ _ _ c v

cancelled-IsOver : (c : Call) → IsOpen c → IsOver (close_with_cancelled c)
unfolding close_with_cancelled
cancelled-IsOver c v = close_with-IsOver _ _ _ c v

pub term-IsOver : (t : Termination) (c : Call) → IsOpen c → IsOver (close_with_term t c)
unfolding close_with_term
term-IsOver t c v = close-IsOver _ c v

pub no_ack-IsOver : (c : Call) → IsOpen c → IsOver (close_with_no_ack c)
unfolding close_with_no_ack
no_ack-IsOver c v = close-IsOver _ c v

timeout-IsOver : (c : Call) → IsOpen c → IsOver (close_with_timeout false c)
unfolding close_with_timeout
timeout-IsOver c v = close-IsOver _ _ (ground arith)

timed_out-IsOver : (b : Bool) (c : Call) → IsOpen c → IsOver (timed_out b c).1
unfolding timed_out
timed_out-IsOver true c v = timeout-IsOver c v
timed_out-IsOver false c v = no_ack-IsOver c v

media_timeout-IsOver : (c : Call) → IsOpen c → IsOver (media_timeout c).1
unfolding media_timeout
media_timeout-IsOver c v = timed_out-IsOver c.leg.acked c v

pub wait_media-IsSound : (e : Event) (c : Call) → IsOpen c → IsSound (wait_media e c)
unfolding wait_media
wait_media-IsSound cancelled c v = over (cancelled-IsOver _ (cancel_leg-IsOpen c v))
wait_media-IsSound ctx_done c v = over (hangup-IsOver _ (cancel_call-IsOpen c v))
wait_media-IsSound (got_bye r) c v = over (hangup-IsOver _ (bye-IsOpen r c v))
wait_media-IsSound room_closed c v = over (hangup-IsOver c v)
wait_media-IsSound media_timed_out c v = over (media_timeout-IsOver c v)
wait_media-IsSound (got_end e) c v = over (close-IsOver e c v)
wait_media-IsSound ready c v = going v
wait_media-IsSound late c v = going v

pub wait_subscribe-IsSound : (e : Event) (c : Call) → IsOpen c → IsSound (wait_subscribe e c)
unfolding wait_subscribe
wait_subscribe-IsSound cancelled c v = over (cancelled-IsOver _ (cancel_leg-IsOpen c v))
wait_subscribe-IsSound ctx_done c v = over (hangup-IsOver _ (cancel_call-IsOpen c v))
wait_subscribe-IsSound (got_bye r) c v = over (hangup-IsOver _ (bye-IsOpen r c v))
wait_subscribe-IsSound room_closed c v = over (hangup-IsOver c v)
wait_subscribe-IsSound media_timed_out c v = over (media_timeout-IsOver c v)
wait_subscribe-IsSound (got_end e) c v = over (close-IsOver e c v)
wait_subscribe-IsSound late c v = over (term-IsOver _ c v)
wait_subscribe-IsSound ready c v = going v

check_pin-IsSound : (d : Dispatched) (c : Call) → IsOpen c → IsSound (check_pin d c)
unfolding check_pin
check_pin-IsSound (service_unavailable, b) c v = over (term-IsOver _ c v)
check_pin-IsSound (accepted, true) c v = going v
check_pin-IsSound (accepted, false) c v = over (term-IsOver _ c v)
check_pin-IsSound (request_pin, b) c v = over (term-IsOver _ c v)
check_pin-IsSound (no_rule_reject, b) c v = over (term-IsOver _ c v)
check_pin-IsSound (no_rule_drop, b) c v = over (term-IsOver _ c v)
check_pin-IsSound (other_result, b) c v = over (term-IsOver _ c v)

if-IsSound : (b : Bool) {s t : Step} → IsSound s → IsSound t → IsSound (if b then s else t)
if-IsSound true p q = p
if-IsSound false p q = q

pub pin_prompt-IsSound :
    (d : Text → Dispatched) (es : List PinEvent) (pin : Text) (c : Call)
    → IsOpen c
    → IsSound (pin_prompt d es pin c)
unfolding pin_prompt
pin_prompt-IsSound d [] pin c v = still_open v
pin_prompt-IsSound d (pin_cancelled ∷ es) pin c v =
    over (cancelled-IsOver _ (cancel_leg-IsOpen c v))
pin_prompt-IsSound d (pin_ctx_done ∷ es) pin c v = over (hangup-IsOver _ (cancel_call-IsOpen c v))
pin_prompt-IsSound d (pin_bye r ∷ es) pin c v = over (hangup-IsOver _ (bye-IsOpen r c v))
pin_prompt-IsSound d (pin_media_timed_out ∷ es) pin c v = over (media_timeout-IsOver c v)
pin_prompt-IsSound d (dtmf_closed ∷ es) pin c v = still_open (cancel_call-IsOpen c v)
pin_prompt-IsSound d (dtmf n ∷ es) pin c v = if-IsSound (n == 0) (pin_prompt-IsSound d es pin c v) (
    if-IsSound (n == b'#') (check_pin-IsSound (d pin) c v) (
      if-IsSound (ltb pin_limit (length (pin ++ (n ∷ []))))
        (over (close-IsOver (end_with call_dropped (client_error (text "wrong-pin"))) c v))
        (pin_prompt-IsSound d es (pin ++ (n ∷ [])) c v)))

room_reason-IsOpen : (c : Call) → IsOpen c → (r : _) → IsOpen (record c { info_reason = r })
room_reason-IsOpen c v r = ground arith

pub wait_for_call_end-IsSound :
    (es : List EndEvent) (c : Call) → IsOpen c → IsSound (wait_for_call_end es c)
unfolding wait_for_call_end
wait_for_call_end-IsSound [] c v = still_open v
wait_for_call_end-IsSound (stats_tick ∷ es) c v = wait_for_call_end-IsSound es c v
wait_for_call_end-IsSound (keep_alive ∷ es) c v = wait_for_call_end-IsSound es c v
wait_for_call_end-IsSound (ack_timed_out ∷ es) c v = wait_for_call_end-IsSound es c v
wait_for_call_end-IsSound (got_ack ∷ es) c v = wait_for_call_end-IsSound es _ (ack_leg-IsOpen c v)
wait_for_call_end-IsSound (end_ctx_done ∷ es) c v = over (hangup-IsOver _ (cancel_call-IsOpen c v))
wait_for_call_end-IsSound (end_bye r ∷ es) c v = over (hangup-IsOver _ (bye-IsOpen r c v))
wait_for_call_end-IsSound (end_call e ∷ es) c v = over (close-IsOver e c v)
wait_for_call_end-IsSound (end_room_closed r ∷ es) c v =
    over (term-IsOver _ _ (room_reason-IsOpen c v _))
wait_for_call_end-IsSound (end_media_timed_out ∷ es) c v = over (media_timeout-IsOver c v)
