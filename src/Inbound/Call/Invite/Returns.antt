-- ===== src/Inbound/Call/Invite/Returns.antt =====
-- When `handleInvite` of pkg/sip/inbound.go returns.
use sip_server.Prelude.{
  ◌≢◌, Bool, true, false, Option, none, some, List, [], ◌∷◌, ◌++◌, arith, Text, ◌==◌, if◌then◌else◌,
  ltb, length,
}
use sip_server.Errors.{Err}
use sip_server.Inbound.Leg.{Leg, start_ringing}
use sip_server.Inbound.Call.{Call}
use sip_server.Inbound.Call.Waits.{
  Event, Step, go, halt, returned, panicked, waiting, wait_media, wait_subscribe, DispatchResult,
  accepted, request_pin, no_rule_reject, no_rule_drop, service_unavailable, other_result,
  Dispatched, check_pin, PinEvent, pin_prompt, pin_cancelled, pin_ctx_done, pin_media_timed_out,
  dtmf_closed, pin_bye, dtmf, EndEvent, wait_for_call_end, stats_tick, keep_alive, end_ctx_done,
  end_media_timed_out, got_ack, ack_timed_out, end_bye, end_call, end_room_closed,
}
use sip_server.Inbound.Call.Invite.{
  Env, followed_by, begin_ringing, check_media_config, check_dispatch, start_media, after_accept,
  accept_call, join_room, publish_track, prompt_first, answer_last, before_join, after_join,
  invite_body, finish, handle_invite,
}

-- Among the events of the established call is one that ends it.
pub data HasEnd : List EndEvent → Type 0 where
  ctx : {es : List EndEvent} → HasEnd (end_ctx_done ∷ es)
  media : {es : List EndEvent} → HasEnd (end_media_timed_out ∷ es)
  by_bye : {r : _} {es : List EndEvent} → HasEnd (end_bye r ∷ es)
  by_call : {e : _} {es : List EndEvent} → HasEnd (end_call e ∷ es)
  by_room : {r : _} {es : List EndEvent} → HasEnd (end_room_closed r ∷ es)
  later : {e : EndEvent} {es : List EndEvent} → HasEnd es → HasEnd (e ∷ es)

-- Among the events of the prompt is one that is no key.
pub data HasPinEnd : List PinEvent → Type 0 where
  cancelled : {es : List PinEvent} → HasPinEnd (pin_cancelled ∷ es)
  ctx : {es : List PinEvent} → HasPinEnd (pin_ctx_done ∷ es)
  media : {es : List PinEvent} → HasPinEnd (pin_media_timed_out ∷ es)
  closed : {es : List PinEvent} → HasPinEnd (dtmf_closed ∷ es)
  by_bye : {r : _} {es : List PinEvent} → HasPinEnd (pin_bye r ∷ es)
  later : {e : PinEvent} {es : List PinEvent} → HasPinEnd es → HasPinEnd (e ∷ es)

-- A step does not wait for ever.
pub data Moves : Step → Type 0 where
  goes : {c : Call} → Moves (go c)
  returns : {e : Option Err} {c : Call} → Moves (halt (returned e) c)
  panics : {c : Call} → Moves (halt panicked c)

followed_by-Moves :
    (s : Step) (k : Call → Step) → Moves s → ((c : Call) → Moves (k c)) → Moves (followed_by s k)
followed_by-Moves s k goes f = f _
followed_by-Moves s k returns f = returns
followed_by-Moves s k panics f = panics

if-Moves : (b : Bool) {s t : Step} → Moves s → Moves t → Moves (if b then s else t)
if-Moves true p q = p
if-Moves false p q = q

wait_media-Moves : (e : Event) (c : Call) → Moves (wait_media e c)
unfolding wait_media
wait_media-Moves Event.cancelled c = returns
wait_media-Moves Event.ctx_done c = returns
wait_media-Moves (Event.got_bye r) c = returns
wait_media-Moves Event.room_closed c = returns
wait_media-Moves Event.media_timed_out c = returns
wait_media-Moves (Event.got_end e) c = returns
wait_media-Moves Event.ready c = goes
wait_media-Moves Event.late c = goes

wait_subscribe-Moves : (e : Event) (c : Call) → Moves (wait_subscribe e c)
unfolding wait_subscribe
wait_subscribe-Moves Event.cancelled c = returns
wait_subscribe-Moves Event.ctx_done c = returns
wait_subscribe-Moves (Event.got_bye r) c = returns
wait_subscribe-Moves Event.room_closed c = returns
wait_subscribe-Moves Event.media_timed_out c = returns
wait_subscribe-Moves (Event.got_end e) c = returns
wait_subscribe-Moves Event.late c = returns
wait_subscribe-Moves Event.ready c = goes

check_pin-Moves : (d : Dispatched) (c : Call) → Moves (check_pin d c)
unfolding check_pin
check_pin-Moves (service_unavailable, b) c = returns
check_pin-Moves (accepted, true) c = goes
check_pin-Moves (accepted, false) c = returns
check_pin-Moves (request_pin, b) c = returns
check_pin-Moves (no_rule_reject, b) c = returns
check_pin-Moves (no_rule_drop, b) c = returns
check_pin-Moves (other_result, b) c = returns

pin_prompt-Moves :
    (d : Text → Dispatched) (es : List PinEvent) (pin : Text) (c : Call)
    → HasPinEnd es
    → Moves (pin_prompt d es pin c)
unfolding pin_prompt
pin_prompt-Moves d [] pin c h = elim h [ ]
pin_prompt-Moves d (pin_cancelled ∷ es) pin c h = returns
pin_prompt-Moves d (pin_ctx_done ∷ es) pin c h = returns
pin_prompt-Moves d (pin_bye r ∷ es) pin c h = returns
pin_prompt-Moves d (pin_media_timed_out ∷ es) pin c h = returns
pin_prompt-Moves d (dtmf_closed ∷ es) pin c h = returns
pin_prompt-Moves d (dtmf n ∷ es) pin c (later h) =
    if-Moves (n == 0) (pin_prompt-Moves d es pin c h) (
      if-Moves (n == b'#') (check_pin-Moves (d pin) c) (
        if-Moves (ltb 16 (length (pin ++ (n ∷ [])))) returns
          (pin_prompt-Moves d es (pin ++ (n ∷ [])) c h)))

wait_for_call_end-Moves :
    (es : List EndEvent) (c : Call) → HasEnd es → Moves (wait_for_call_end es c)
unfolding wait_for_call_end
wait_for_call_end-Moves [] c h = elim h [ ]
wait_for_call_end-Moves (stats_tick ∷ es) c (later h) = wait_for_call_end-Moves es c h
wait_for_call_end-Moves (keep_alive ∷ es) c (later h) = wait_for_call_end-Moves es c h
wait_for_call_end-Moves (ack_timed_out ∷ es) c (later h) = wait_for_call_end-Moves es c h
wait_for_call_end-Moves (got_ack ∷ es) c (later h) = wait_for_call_end-Moves es _ h
wait_for_call_end-Moves (end_ctx_done ∷ es) c h = returns
wait_for_call_end-Moves (end_bye r ∷ es) c h = returns
wait_for_call_end-Moves (end_call e ∷ es) c h = returns
wait_for_call_end-Moves (end_room_closed r ∷ es) c h = returns
wait_for_call_end-Moves (end_media_timed_out ∷ es) c h = returns

begin_ringing-Moves : (o : Option Leg) (c : Call) → Moves (begin_ringing o c)
unfolding begin_ringing
begin_ringing-Moves none c = panics
begin_ringing-Moves (some l) c = goes

check_media_config-Moves : (o : Option Err) (c : Call) → Moves (check_media_config o c)
unfolding check_media_config
check_media_config-Moves none c = goes
check_media_config-Moves (some e) c = returns

check_dispatch-Moves : (d : DispatchResult) (c : Call) → Moves (check_dispatch d c)
unfolding check_dispatch
check_dispatch-Moves accepted c = goes
check_dispatch-Moves request_pin c = goes
check_dispatch-Moves no_rule_drop c = returns
check_dispatch-Moves no_rule_reject c = returns
check_dispatch-Moves service_unavailable c = returns
check_dispatch-Moves other_result c = returns

start_media-Moves : (b : Bool) (o : Option Err) (c : Call) → Moves (start_media b o c)
unfolding start_media
start_media-Moves b none c = goes
start_media-Moves b (some e) c = returns

after_accept-Moves :
    (e : Event) (a : Bool) (r : Leg × Option Err) (c : Call) → Moves (after_accept e a r c)
unfolding after_accept
after_accept-Moves e a (l, some x) c = returns
after_accept-Moves e a (l, none) c = wait_media-Moves e _

accept_call-Moves : (v : Env) (c : Call) → Moves (accept_call v c)
unfolding accept_call
accept_call-Moves v c = after_accept-Moves v.media_event v.ack_seen _ c

join_room-Moves : (r k : Option Err) (c : Call) → Moves (join_room r k c)
unfolding join_room
join_room-Moves (some e) k c = returns
join_room-Moves none (some e) c = returns
join_room-Moves none none c = goes

publish_track-Moves : (o : Option Err) (c : Call) → Moves (publish_track o c)
unfolding publish_track
publish_track-Moves none c = goes
publish_track-Moves (some e) c = returns

by_dispatch-Moves :
    (d : DispatchResult) (s t : Step)
    → Moves s
    → Moves t
    → Moves (elim d [ request_pin ↦ s | _ ↦ t ])
by_dispatch-Moves request_pin s t p q = p
by_dispatch-Moves accepted s t p q = q
by_dispatch-Moves no_rule_reject s t p q = q
by_dispatch-Moves no_rule_drop s t p q = q
by_dispatch-Moves service_unavailable s t p q = q
by_dispatch-Moves other_result s t p q = q

before_join-Moves : (v : Env) (c : Call) → HasPinEnd v.pin_events → Moves (before_join v c)
unfolding before_join prompt_first
before_join-Moves v c h =
    by_dispatch-Moves v.dispatch _ _
      (followed_by-Moves (accept_call v c) _ (accept_call-Moves v c)
        (λ d. pin_prompt-Moves v.pin_dispatch v.pin_events [] d h))
      goes

after_join-Moves : (v : Env) (c : Call) → Moves (after_join v c)
unfolding after_join answer_last
after_join-Moves v c = by_dispatch-Moves v.dispatch _ _ goes (
    followed_by-Moves (wait_subscribe v.subscribe_event c) _
      (wait_subscribe-Moves v.subscribe_event c) (λ d. accept_call-Moves v d))

invite_body-Moves :
    (v : Env) (c : Call) → HasPinEnd v.pin_events → HasEnd v.end_events → Moves (invite_body v c)
unfolding invite_body
invite_body-Moves v c p h =
    followed_by-Moves _ _ (begin_ringing-Moves (start_ringing c.leg) c) (λ c1.
      followed_by-Moves _ _ (check_media_config-Moves v.media_config_error c1) (λ c2.
        followed_by-Moves _ _ (check_dispatch-Moves v.dispatch c2) (λ c3.
          followed_by-Moves _ _ (start_media-Moves v.port_created v.media_error c3) (λ c4.
            followed_by-Moves _ _ (before_join-Moves v c4 p) (λ c5.
              followed_by-Moves _ _ (join_room-Moves v.register_error v.connect_error c5) (λ c6.
                followed_by-Moves _ _ (publish_track-Moves v.publish_error c6) (λ c7.
                  followed_by-Moves _ _ (after_join-Moves v c7)
                    (λ c8. wait_for_call_end-Moves v.end_events c8 h))))))))

finish-Moves : (s : Step) → Moves s → (finish s).0 ≢ waiting
unfolding finish
finish-Moves s goes = ground arith
finish-Moves s returns = ground arith
finish-Moves s panics = ground arith

-- If among the events of the PIN prompt is one that is no key, and among those of the established
-- call one that ends it, then `handleInvite` does not wait for ever.
pub handle_invite_returns :
    (v : Env) (c : Call)
    → HasPinEnd v.pin_events
    → HasEnd v.end_events
    → (handle_invite v c).0 ≢ waiting
unfolding handle_invite
handle_invite_returns v c p h = finish-Moves _ (invite_body-Moves v _ p h)
