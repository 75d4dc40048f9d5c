-- ===== src/Inbound/Call/Invite.antt =====
-- `handleInvite` of pkg/sip/inbound.go: the life of an inbound call from its first dispatch to its
-- end. What the other components return at each place is the environment.
use sip_server.Prelude.{
  ℕ, Bool, true, false, not, Option, none, some, List, [], ◌∷◌, if◌then◌else◌, Text, text,
}
use sip_server.Stats.{call_start, call_end, server_error, client_error}
use sip_server.Status.{CallStatus, call_dropped, call_flood, call_media_failed, call_accept_failed}
use sip_server.Errors.{
  Err, rpc, plain, wrapped, sdp_error, is, no_ack, no_common_media, no_common_crypto, dtls_sdp,
  internal, unimplemented, permission_denied, not_found, unavailable,
}
use sip_server.Classify.{EndCall}
use sip_server.Inbound.Leg.{
  Leg, Config, Reply, start_ringing, respond_and_drop, drop, accept, accept_ack,
}
use sip_server.Inbound.Call.{Call, close, close_with_term, close_with_no_ack, end_with}
use sip_server.Inbound.Call.Waits.{
  Event, Ended, returned, panicked, Step, go, halt, DispatchResult, accepted, request_pin,
  no_rule_reject, no_rule_drop, service_unavailable, other_result, Dispatched, PinEvent, pin_prompt,
  EndEvent, wait_media, wait_subscribe, wait_for_call_end,
}
pub mod Ends
pub mod Gone
pub mod Returns

-- What meets a call.
pub record Env : Type 0 where
  pub config : Config
  pub dispatch : DispatchResult
  pub media_config_error : Option Err
  -- `runMediaConn`: whether it creates the media port, and its answer
  pub port_created : Bool
  pub media : Text
  pub media_error : Option Err
  -- what meets the transmissions of the 200, and whether an ACK arrives meanwhile
  pub replies : ℕ → Reply
  pub ack_seen : Bool
  pub media_event : Event
  pub pin_events : List PinEvent
  pub pin_dispatch : Text → Dispatched
  -- joining the room: the registration for transfers, the connection, the own track
  pub register_error : Option Err
  pub connect_error : Option Err
  pub publish_error : Option Err
  pub subscribe_event : Event
  pub end_events : List EndEvent

abbrev pub followed_by : Step → (Call → Step) → Step
followed_by (go c) k = k c
followed_by (halt e c) k = halt e c

-- `RespondAndDrop`; the replay cache of the server is not part of the call.
abbrev reject : ℕ → Text → Call → Call
reject status reason c = record c { leg = (respond_and_drop status reason c.leg none).0 }

has_sdp_error : Err → Bool
has_sdp_error (sdp_error e) = true
has_sdp_error (wrapped m e) = has_sdp_error e
has_sdp_error (rpc c e) = has_sdp_error e
has_sdp_error _ = false

begin_ringing : Option Leg → Call → Step
begin_ringing none c = halt panicked c
begin_ringing (some l) c = go (record c { leg = l })

check_media_config : Option Err → Call → Step
check_media_config none c = go c
check_media_config (some e) c =
    halt (returned (some (rpc internal e)))
      (close_with_term (server_error (text "media-config-error")) (reject 500 [] c))

-- The switch on the result of the first dispatch.
check_dispatch : DispatchResult → Call → Step
check_dispatch accepted c = go c
check_dispatch request_pin c = go c
check_dispatch no_rule_drop c =
    halt
      (returned (
        some
          (rpc permission_denied (plain (text "call was not authorized by trunk configuration")))))
      (close (end_with call_flood (client_error (text "flood"))) (record c { leg = drop c.leg }))
check_dispatch no_rule_reject c =
    halt (returned (some (rpc not_found (plain (text "no trunk configuration for call"))))) (
      close_with_term (client_error (text "no-dispatch"))
        (reject 404 (text "Does not match Trunks or Dispatch Rules") c))
check_dispatch service_unavailable c =
    halt (returned (some (rpc unavailable (plain (text "dispatch rule evaluation unavailable"))))) (
      close_with_term (server_error (text "dispatch-error"))
        (reject 503 (text "Try again later") c))
check_dispatch other_result c =
    halt (returned (some (rpc unimplemented (plain (text "unexpected dispatch result")))))
      (close_with_term (server_error (text "unexpected-result")) (reject 501 [] c))

-- The answer to media that cannot be started: the code, the status and the termination.
media_verdict : Err → ℕ × EndCall
unfolding has_sdp_error
media_verdict e =
    if is no_common_media e
    then (400, end_with call_media_failed (client_error (text "no-common-codec")))
    else if is no_common_crypto e
    then (400, end_with call_media_failed (client_error (text "no-common-crypto")))
    else if is dtls_sdp e
    then (488, end_with call_media_failed (client_error (text "dtls-sdp-error")))
    else if has_sdp_error e
    then (400, end_with call_media_failed (client_error (text "sdp-error")))
    else (500, end_with call_dropped (server_error (text "media-failed")))

media_failure : ℕ × EndCall → Call → Call
media_failure (code, end) c = close end (reject code [] c)

start_media : Bool → Option Err → Call → Step
unfolding media_failure media_verdict
start_media created none c = go (record c { media_open = true })
start_media created (some e) c =
    halt (returned (some e)) (media_failure (media_verdict e) (record c { media_open = created }))

-- What `acceptCall` makes of the result of `Accept`.
after_accept : Event → Bool → Leg × Option Err → Call → Step
after_accept event acked (l, some e) c =
    let c' : Call = record c { leg = l } in
    halt (returned (some e)) (
      if is no_ack e
      then close_with_no_ack c'
      else close (end_with call_accept_failed (server_error (text "accept-failed"))) c')
after_accept event acked (l, none) c =
    wait_media event (record c { leg = if acked then accept_ack l else l })

accept_call : Env → Call → Step
unfolding after_accept
accept_call v c = after_accept v.media_event v.ack_seen (accept v.config v.replies v.media c.leg) c

join_failed : Err → Call → Step
join_failed e c =
    halt (returned (some (wrapped (text "failed joining room: cannot create participant: ") e)))
      (close_with_term (server_error (text "participant-failed")) c)

-- `joinRoom`; a call is registered for transfers before it connects.
join_room : Option Err → Option Err → Call → Step
unfolding join_failed
join_room (some e) connect c = join_failed e c
join_room none (some e) c = join_failed e (record c { transferable = true })
join_room none none c = go (record c { transferable = true })

publish_track : Option Err → Call → Step
publish_track none c = go c
publish_track (some e) c =
    halt (returned (some (wrapped (text "publishing track to room failed: ") e)))
      (close_with_term (server_error (text "publish-failed")) (record c { room_open = false }))

-- With a PIN the call is accepted before the room is known, else after a track is subscribed.
prompt_first : Env → Call → Step
unfolding accept_call
prompt_first v c = followed_by (accept_call v c) (λ d. pin_prompt v.pin_dispatch v.pin_events [] d)

answer_last : Env → Call → Step
unfolding accept_call
answer_last v c = followed_by (wait_subscribe v.subscribe_event c) (λ d. accept_call v d)

before_join : Env → Call → Step
unfolding prompt_first
before_join v c = elim v.dispatch [ request_pin ↦ prompt_first v c | _ ↦ go c ]

after_join : Env → Call → Step
unfolding answer_last
after_join v c = elim v.dispatch [ request_pin ↦ go c | _ ↦ answer_last v c ]

-- The body, without what is deferred.
unfoldable pub invite_body : Env → Call → Step
unfolding begin_ringing check_media_config check_dispatch start_media before_join after_join
    join_room publish_track
invite_body v c = followed_by (begin_ringing (start_ringing c.leg) c) (λ c1.
    followed_by (check_media_config v.media_config_error c1) (λ c2.
      followed_by (check_dispatch v.dispatch c2) (λ c3.
        followed_by (start_media v.port_created v.media_error c3) (λ c4.
          followed_by (before_join v c4) (λ c5.
            followed_by (join_room v.register_error v.connect_error c5) (λ c6.
              followed_by (publish_track v.publish_error c6) (λ c7.
                followed_by (after_join v c7) (λ c8. wait_for_call_end v.end_events c8))))))))

-- The deferred calls run when `handleInvite` returns or panics.
deferred : Call → Call
deferred c =
    let c' = close_with_term (server_error (text "other")) c in record c' { mon = call_end c'.mon }

finish : Step → Ended × Call
unfolding deferred
finish (go c) = (returned none, deferred c)
finish (halt (returned e) c) = (returned e, deferred c)
finish (halt panicked c) = (panicked, deferred c)
finish (halt Ended.waiting c) = (Ended.waiting, c)

unfoldable pub handle_invite : Env → Call → Ended × Call
unfolding finish
handle_invite v c = finish (invite_body v (record c { mon = call_start c.mon }))
