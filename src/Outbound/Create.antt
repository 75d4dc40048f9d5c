-- ===== src/Outbound/Create.antt =====
-- How an outbound call is made: `newCall` of pkg/sip/outbound.go and `createSIPParticipant` of
-- pkg/sip/client.go, from its deferred update on; the request was checked before. What the media port
-- and the room come to is given.
use sip_server.Prelude.{
  ◌≡◌, Bool, true, false, Option, none, some, List, [], Text, text, if◌then◌else◌,
}
use sip_server.Stats.{new_call, server_error}
use sip_server.Status.{call_dropped, unknown_reason}
use sip_server.Errors.{Err, plain, wrapped, rpc, internal}
use sip_server.Classify.{EndCall}
use sip_server.Analytics.{CallState, update}
use sip_server.Outbound.Dialog.{new_leg}
use sip_server.Outbound.Call.{Call, CallInfo, participant_joined, info_error, close, end_as}
use sip_server.Outbound.Call.Dial.{Dialling, dial}
pub mod Ends
mod Tests

-- What NewMediaPort returns, whether the attributes of the participant name the call, and what the
-- connection to the room, its track and the registration of its RPCs return.
pub record Setup : Type 0 where
  pub media_port_err : Option Err
  pub has_call_id : Bool
  pub connect_err : Option Err
  pub track_err : Option Err
  pub rpc_err : Option Err

abbrev pub fresh : CallState CallInfo → Call
fresh s = record {
  leg = new_leg;
  mon = new_call;
  state = s;
  started = false;
  stopped = false;
  closing = false;
  invite_time = false;
  media_open = false;
  has_room = false;
  room_open = false;
  attributes = [];
  is_listed = false;
  transferable = false;
  session_ends = [];
}

-- The room is kept by the call only once its track is there.
joined_room : Setup → Call → Option Err → Option Err → Call × Option Err
joined_room s c (some e) track = (c, some e)
joined_room s c none (some e) = (c, some e)
joined_room s c none none = (record c { has_room = true; room_open = true }, s.rpc_err)

unfoldable pub connect_to_room : Setup → Call → Call × Option Err
unfolding joined_room
connect_to_room s c =
    joined_room s (record c { transferable = s.has_call_id }) s.connect_err s.track_err

-- The two failures before the call is listed.
abbrev media_failed : Err → EndCall
media_failed e =
    end_as (some (wrapped (text "media failed: ") e)) call_dropped
      (server_error (text "media-failed")) unknown_reason

abbrev join_failed : Err → EndCall
join_failed e =
    end_as (some (wrapped (text "room join failed: ") e)) call_dropped
      (server_error (text "join-failed")) unknown_reason

listed : Bool → Call × Option Err → Call × Option Err
listed down (c, some e) = (
  (close down (join_failed e) c).0,
  some (rpc internal (wrapped (text "update room failed: ") e)),
)
listed down (c, none) = (record c { is_listed = true }, none)

-- With the media port.
with_media : Bool → Setup → Call → Option Err → Call × Option Err
unfolding listed
with_media down s c (some e) = ((close down (media_failed e) c).0, some e)
with_media down s c none = listed down (connect_to_room s (record c { media_open = true }))

unfoldable pub make_call : Bool → Setup → CallState CallInfo → Call × Option Err
unfolding with_media
make_call down s st = with_media down s (fresh st) s.media_port_err

-- The deferred update of the status.
finish_info : Option Err → CallInfo → CallInfo
finish_info none i = record i { call_status = participant_joined }
finish_info (some e) i = record i {
  call_status = info_error;
  info_reason = unknown_reason;
  error = some e;
}

with_info : Call × Option Err → Call × Option Err
unfolding finish_info
with_info (c, e) = (record c { state = update (finish_info e) c.state }, e)

-- A call that was made is dialled at once if the request waits for the answer; if it does not, the
-- dial runs on its own afterwards.
answered_call : Bool → Bool → Bool → Dialling → Call × Option Err → Call × Option Err
answered_call down joined wait d (c, some e) = (c, some e)
answered_call down joined wait d (c, none) = if wait then dial down joined d c else (c, none)

unfoldable pub create_sip_participant :
    Bool → Bool → Bool → Setup → Dialling → CallState CallInfo → Call × Option Err
unfolding with_info answered_call
create_sip_participant down joined wait s d st =
    with_info (answered_call down joined wait d (make_call down s st))
