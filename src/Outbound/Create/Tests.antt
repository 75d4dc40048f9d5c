-- ===== src/Outbound/Create/Tests.antt =====
-- Runs of an outbound call: the callee rings and answers, and then hangs up.
use sip_server.Prelude.{true, false, none, some, List, [], ◌∷◌}
use sip_server.Status.{unknown_reason}
use sip_server.Analytics.{CallState}
use sip_server.Outbound.{Response, accepted}
use sip_server.Outbound.Call.{Call, CallInfo, call_incoming}
use sip_server.Outbound.Call.Dial.{Dialling, stats_tick, state_tick, dial}
use sip_server.Outbound.Call.Dial.Life.{IsDialled, dial_lem}
use sip_server.Outbound.Call.Dial.Waits.{Op, waited, ended, hung_up, run, IsSound, run-dial}
use sip_server.Outbound.Create.{Setup, fresh, create_sip_participant}
use sip_server.Outbound.Create.Ends.{IsCreated, create_sip_participant_lem, fresh-IsOpen}

abbrev ok_response : Response
ok_response = record {
  status = 200;
  reason = [];
  body = [];
  twilio_error = none;
  www_authenticate = none;
  proxy_authenticate = none;
  has_to = true;
  to_tag = some (1 ∷ []);
}

abbrev answering : Dialling
answering = record {
  offer_err = none;
  provisional = 100 ∷ 180 ∷ 183 ∷ [];
  answer = accepted ok_response;
  transmissions = 2;
  media_err = none;
  ctx_err = none;
  dtmf = 49 ∷ [];
  dtmf_err = none;
}

abbrev start : CallState CallInfo
start = record {
  call_info = record {
    call_status = call_incoming;
    error = none;
    info_reason = unknown_reason;
    status_code = none;
    started_at = false;
    ended_at = false;
  };
  transfers = [];
  dirty = true;
  reports = [];
}

abbrev new : Call
new = fresh start

abbrev answered : Call
answered = (dial false true answering new).0

dial_example : IsDialled false true (dial false true answering new)
dial_example = dial_lem false true answering new (fresh-IsOpen start)

abbrev ops : List Op
ops = waited false (stats_tick ∷ state_tick ∷ []) ∷ hung_up false ∷ ended false ∷ []

run-dial_example : IsSound false (run ops (dial false true answering new).0)
run-dial_example =
    run-dial false true answering ops new (fresh-IsOpen start) (λ h. h, (λ h. h, (λ h. h, tt)))

abbrev setup : Setup
setup = record {
  media_port_err = none;
  has_call_id = true;
  connect_err = none;
  track_err = none;
  rpc_err = none;
}

create_sip_participant_example :
    IsCreated true false (create_sip_participant false true true setup answering start)
create_sip_participant_example = create_sip_participant_lem false true true setup answering start
