-- ===== src/Inbound/Call/Tests.antt =====
-- Runs of an inbound call.
use sip_server.Prelude.{ℕ, ◌≡◌, ◌≢◌, true, false, none, [], ◌∷◌, ◌++◌, arith, map, Text, text, pos}
use sip_server.Stats.{new_call}
use sip_server.Status.{unknown_reason}
use sip_server.Errors.{Err}
use sip_server.Reason.{ReasonHeader}
use sip_server.Inbound.Leg.{Leg, Reply, got_ack, write_failed}
use sip_server.Inbound.Call.{Call}
use sip_server.Inbound.Call.Waits.{
  Event, waiting, Dispatched, accepted, request_pin, dtmf, pin_ctx_done, keep_alive, end_bye,
  pin_prompt, check_pin,
}
use sip_server.Inbound.Call.Pin.{pin_prompt-digits}
use sip_server.Inbound.Call.Invite.{Env, handle_invite}
use sip_server.Inbound.Call.Invite.Gone.{IsNew, IsGone, handle_invite-IsGone}
use sip_server.Inbound.Call.Invite.Returns.{HasEnd, HasPinEnd, handle_invite_returns}

abbrev leg : Leg
leg = record {
  has_invite = true;
  has_tx = true;
  has_ok = false;
  has_from = true;
  ringing = false;
  cancelled = false;
  acked = false;
  leg_tr = text "udp";
  sip_call_id = text "call";
  tag = text "tag";
  invite_cseq = 7;
  next_cseq = 8;
  refer_cseq = 0;
  last_sdp = [];
  sent = [];
}

abbrev call : Call
call = record {
  leg = leg;
  mon = new_call;
  info_error = none;
  info_reason = unknown_reason;
  close_reason = none;
  done = false;
  ended = false;
  media_open = false;
  room_open = true;
  by_local_tag = true;
  transferable = false;
  session_ends = [];
}

abbrev acked : ℕ → Reply
acked n = got_ack

abbrev any_pin : Text → Dispatched
any_pin pin = (accepted, true)

abbrev hung_up : ReasonHeader
hung_up = record { type = text "q.850"; cause = pos 16; reason_text = [] }

-- A caller who enters 1 2 # and hangs up later.
abbrev env : Env
env = record {
  config = record { wait_ack = false };
  dispatch = request_pin;
  media_config_error = none;
  port_created = true;
  media = text "sdp";
  media_error = none;
  replies = acked;
  ack_seen = true;
  media_event = Event.ready;
  pin_events = dtmf b'1' ∷ dtmf b'2' ∷ dtmf b'#' ∷ pin_ctx_done ∷ [];
  pin_dispatch = any_pin;
  register_error = none;
  connect_error = none;
  publish_error = none;
  subscribe_event = Event.ready;
  end_events = keep_alive ∷ end_bye hung_up ∷ [];
}

acked-writes : (n : ℕ) (e : Err) → acked n ≢ write_failed e
acked-writes n e h = ground arith

call-IsNew : IsNew call
call-IsNew = ground arith

pins_end : HasPinEnd env.pin_events
pins_end = HasPinEnd.later (HasPinEnd.later (HasPinEnd.later HasPinEnd.ctx))

call_ends : HasEnd env.end_events
call_ends = HasEnd.later HasEnd.by_bye

call_returns : (handle_invite env call).0 ≢ waiting
call_returns = handle_invite_returns env call pins_end call_ends

handle_invite_returns_example : (handle_invite env call).0 ≢ waiting
handle_invite_returns_example = handle_invite_returns env call pins_end call_ends

handle_invite-IsGone_example : IsGone (handle_invite env call).1
handle_invite-IsGone_example = handle_invite-IsGone env call acked-writes call-IsNew call_returns

pin_prompt-digits_example :
    pin_prompt any_pin (map dtmf (b'1' ∷ b'2' ∷ []) ++ (dtmf b'#' ∷ [])) [] call
    ≡ check_pin (any_pin ([] ++ (b'1' ∷ b'2' ∷ []))) call
pin_prompt-digits_example =
    pin_prompt-digits any_pin (b'1' ∷ b'2' ∷ []) [] [] call
      ((omega arith, omega arith), ((omega arith, omega arith), tt)) (omega arith)

abbrev sixteen : Text
sixteen = text "1234567890123456"
