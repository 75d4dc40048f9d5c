-- ===== src/Inbound/Call/Waits.antt =====
-- The places where `handleInvite` of pkg/sip/inbound.go waits: each `select` takes the event that
-- comes first. Prompts that are only played are left out.
use sip_server.Prelude.{
  ℕ, Bool, true, Option, none, some, List, [], ◌∷◌, ◌++◌, length, ltb, ◌==◌, if◌then◌else◌, Text,
  text,
}
use sip_server.Stats.{server_error, client_error}
use sip_server.Status.{
  DisconnectReason, call_dropped, disconnect_reason_from_room_close,
  termination_from_room_disconnect,
}
use sip_server.Errors.{Err, rpc, plain, canceled, deadline_exceeded, unavailable, permission_denied}
use sip_server.Classify.{EndCall}
use sip_server.Reason.{ReasonHeader}
use sip_server.Inbound.Leg.{cancel, accept_ack}
use sip_server.Inbound.Call.{
  Call, close, close_with_term, close_with_cancelled, close_with_hangup, end_with, bye, cancel_call,
  media_timeout,
}

-- The events of `waitMedia` and `waitSubscribe`. `ready` is a packet, the longest delay, or a track
-- subscription; `late` is the ringing timeout, which only the second one has.
pub data Event : Type 0 where
  cancelled ctx_done room_closed media_timed_out ready late : Event
  got_bye : ReasonHeader → Event
  got_end : EndCall → Event

-- How `handleInvite` ends: it returns, it panics, or it still waits for an event.
pub data Ended : Type 0 where
  returned : Option Err → Ended
  panicked waiting : Ended

-- A part of `handleInvite` lets the next one follow or ends it.
pub data Step : Type 0 where
  go : Call → Step
  halt : Ended → Call → Step

abbrev pub returning : Option Err × Call → Step
returning (e, c) = halt (returned e) c

room_closed_error : Err
room_closed_error = rpc canceled (plain (text "room closed"))

unfoldable pub wait_media : Event → Call → Step
unfolding room_closed_error
wait_media cancelled c =
    halt (returned none) (close_with_cancelled (record c { leg = cancel c.leg }))
wait_media ctx_done c = halt (returned none) (close_with_hangup (cancel_call c))
wait_media (got_bye r) c = halt (returned none) (close_with_hangup (bye r c))
wait_media room_closed c = halt (returned (some room_closed_error)) (close_with_hangup c)
wait_media media_timed_out c = returning (media_timeout c)
wait_media (got_end e) c = halt (returned none) (close e c)
wait_media ready c = go c
wait_media late c = go c

unfoldable pub wait_subscribe : Event → Call → Step
unfolding room_closed_error
wait_subscribe cancelled c =
    halt (returned none) (close_with_cancelled (record c { leg = cancel c.leg }))
wait_subscribe ctx_done c = halt (returned none) (close_with_hangup (cancel_call c))
wait_subscribe (got_bye r) c = halt (returned none) (close_with_hangup (bye r c))
wait_subscribe room_closed c = halt (returned (some room_closed_error)) (close_with_hangup c)
wait_subscribe media_timed_out c = returning (media_timeout c)
wait_subscribe (got_end e) c =
    halt (returned (some (rpc canceled (plain (text "rpc terminated the call"))))) (close e c)
wait_subscribe late c =
    halt (returned (some (rpc deadline_exceeded (plain (text "room subscription timed out")))))
      (close_with_term (server_error (text "cannot-subscribe")) c)
wait_subscribe ready c = go c

pub data DispatchResult : Type 0 where
  accepted request_pin no_rule_reject no_rule_drop service_unavailable : DispatchResult
  other_result : DispatchResult

-- What the dispatch of a PIN returns: the result, and whether it names a room.
abbrev pub Dispatched : Type 0
Dispatched = DispatchResult × Bool

pub data PinEvent : Type 0 where
  pin_cancelled pin_ctx_done pin_media_timed_out dtmf_closed : PinEvent
  pin_bye : ReasonHeader → PinEvent
  dtmf : ℕ → PinEvent

pub wrong_pin : Err
wrong_pin = rpc permission_denied (plain (text "wrong pin"))

-- What follows the dispatch of a PIN.
unfoldable pub check_pin : Dispatched → Call → Step
unfolding wrong_pin
check_pin (service_unavailable, room) c =
    halt (returned (some (rpc unavailable (plain (text "dispatch rule evaluation unavailable")))))
      (close_with_term (server_error (text "dispatch-error")) c)
check_pin (accepted, true) c = go c
check_pin (_, _) c =
    halt (returned (some wrong_pin)) (close_with_term (client_error (text "wrong-pin")) c)

abbrev pub pin_limit : ℕ
pin_limit = 16

-- `pinPrompt` over the events that come, with the digits so far.
unfoldable pub pin_prompt : (Text → Dispatched) → List PinEvent → Text → Call → Step
unfolding wrong_pin
pin_prompt dispatch [] pin c = halt waiting c
pin_prompt dispatch (pin_cancelled ∷ es) pin c =
    halt (returned none) (close_with_cancelled (record c { leg = cancel c.leg }))
pin_prompt dispatch (pin_ctx_done ∷ es) pin c =
    halt (returned none) (close_with_hangup (cancel_call c))
pin_prompt dispatch (pin_bye r ∷ es) pin c = halt (returned none) (close_with_hangup (bye r c))
pin_prompt dispatch (pin_media_timed_out ∷ es) pin c = returning (media_timeout c)
pin_prompt dispatch (dtmf_closed ∷ es) pin c =
    halt (returned (some (rpc canceled (plain (text "failed reading DTMF event"))))) (cancel_call c)
pin_prompt dispatch (dtmf digit ∷ es) pin c =
    let skipped = pin_prompt dispatch es pin c in
    let pin' = pin ++ (digit ∷ []) in
    let more = pin_prompt dispatch es pin' c in
    if digit == 0
    then skipped
    else if digit == b'#'
    then check_pin (dispatch pin) c
    else if ltb pin_limit (length pin')
    then halt (returned (some wrong_pin))
        (close (end_with call_dropped (client_error (text "wrong-pin"))) c)
    else more

-- The events of `waitForCallEnd`. Statistics, keep-alives and the missing ACK only report or arm a
-- timer.
pub data EndEvent : Type 0 where
  stats_tick keep_alive end_ctx_done end_media_timed_out got_ack ack_timed_out : EndEvent
  end_bye : ReasonHeader → EndEvent
  end_call : EndCall → EndEvent
  end_room_closed : DisconnectReason → EndEvent

unfoldable pub wait_for_call_end : List EndEvent → Call → Step
wait_for_call_end [] c = halt waiting c
wait_for_call_end (stats_tick ∷ es) c = wait_for_call_end es c
wait_for_call_end (keep_alive ∷ es) c = wait_for_call_end es c
wait_for_call_end (ack_timed_out ∷ es) c = wait_for_call_end es c
wait_for_call_end (got_ack ∷ es) c = wait_for_call_end es (record c { leg = accept_ack c.leg })
wait_for_call_end (end_ctx_done ∷ es) c = halt (returned none) (close_with_hangup (cancel_call c))
wait_for_call_end (end_bye r ∷ es) c = halt (returned none) (close_with_hangup (bye r c))
wait_for_call_end (end_call e ∷ es) c = halt (returned none) (close e c)
wait_for_call_end (end_room_closed r ∷ es) c = halt (returned none) (
    close_with_term (termination_from_room_disconnect r)
      (record c { info_reason = disconnect_reason_from_room_close r }))
wait_for_call_end (end_media_timed_out ∷ es) c = returning (media_timeout c)
