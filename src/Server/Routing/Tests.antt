-- ===== src/Server/Routing/Tests.antt =====
-- Requests for a call that the server has, and its end.
use sip_server.Prelude.{
  ℕ, ◌≡◌, refl, inr, Bool, true, false, none, some, [], ◌∷◌, Text, text, text_eq, arith,
}
use sip_server.Stats.{new_call}
use sip_server.Status.{unknown_reason}
use sip_server.Errors.{SipStatus, ErrorCode, internal}
use sip_server.Inbound.Leg.{Leg}
use sip_server.Inbound.Call as Inbound
use sip_server.Inbound.Call.Closing.{IsOpen}
use sip_server.Server.Routing.{
  Incoming, Calls, tag_of, find, in_server, in_client, on_bye, on_notify, stop,
}
use sip_server.Server.Routing.Answers.{IsServed, on_bye-IsServed}
use sip_server.Server.Routing.Ends.{IsEnded, on_bye-IsEnded}
use sip_server.Server.Routing.Notifies.{IsNoted, code_of, on_notify-IsNoted}
use sip_server.Server.Routing.Stop.{AreOver, stop-AreOver}

abbrev leg : Leg
leg = record {
  has_invite = true;
  has_tx = true;
  has_ok = false;
  has_from = true;
  ringing = false;
  cancelled = false;
  acked = false;
  leg_tr = text "tcp";
  sip_call_id = text "id";
  tag = text "remote";
  invite_cseq = 1;
  next_cseq = 2;
  refer_cseq = 0;
  last_sdp = [];
  sent = [];
}

abbrev ringing : Inbound.Call
ringing = record {
  leg = leg;
  mon = record new_call { started = true; calls_active = 1 };
  info_error = none;
  info_reason = unknown_reason;
  close_reason = none;
  done = false;
  ended = false;
  media_open = true;
  room_open = true;
  by_local_tag = true;
  transferable = true;
  session_ends = [];
}

abbrev calls : Calls
calls = record {
  inbound = (1 ∷ [], ringing) ∷ [];
  outbound = [];
  handed = [];
  replies = [];
  down = false;
}

abbrev request : Incoming
request = record {
  to = some (some (1 ∷ []));
  reason = none;
  notify = record {
    event = some (text "refer");
    short_event = none;
    subscription = none;
    body = text "SIP/2.0 200 OK";
  };
}

abbrev as_is : Text → Text
as_is t = t

abbrev no_number : Text → ℕ × Bool
no_number t = (0, false)

abbrev any_code : SipStatus → ErrorCode
any_code s = internal

on_bye-IsServed_example : IsServed (2 ∷ []) calls (on_bye as_is no_number request calls)
unfolding tag_of text_eq
on_bye-IsServed_example = on_bye-IsServed as_is no_number request calls (2 ∷ []) refl

on_bye-IsEnded_example :
    IsEnded
      (1 ∷ [])
      calls
      (on_bye as_is no_number request calls)
      (find in_server (1 ∷ []) calls.inbound)
      (find in_client (1 ∷ []) calls.outbound)
unfolding tag_of
on_bye-IsEnded_example = on_bye-IsEnded as_is no_number request calls (1 ∷ []) refl

on_notify-IsNoted_example :
    IsNoted request calls
      (on_notify any_code request calls)
      (code_of request calls (tag_of request.to))
on_notify-IsNoted_example = on_notify-IsNoted any_code request calls

ringing-IsOpen : IsOpen ringing
unfolding new_call
ringing-IsOpen = ground arith

stop-AreOver_example :
    AreOver calls.inbound (stop calls).inbound
    × (find in_server (1 ∷ []) (stop calls).inbound ≡ none)
stop-AreOver_example = stop-AreOver calls (1 ∷ []) (inr ringing-IsOpen, tt)
