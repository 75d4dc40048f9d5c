-- ===== src/Server/Tests.antt =====
-- Runs of the server: an INVITE for which there is no trunk, sent twice.
use sip_server.Prelude.{◌≡◌, refl, inr, true, false, Option, none, some, [], ◌∷◌, Text, text}
use sip_server.Inbound.Leg.{Leg}
use sip_server.Inbound.Auth.{Challenge, Credentials, InboundAuth}
use sip_server.Server.{
  auth_no_trunk_found, Request, Server, Env, lookup, lookup_pair, new_inbound, with_call_id,
  with_tags, local_tag,
}
use sip_server.Server.Invite.{process_invite, answers}
use sip_server.Server.Invite.Answers.{IsSilent, process_invite-IsServed}
use sip_server.Server.Invite.Fates.{IsServed, IsAllowed}
use sip_server.Server.Invite.Replay.{replay-process_invite}

abbrev invite : Request
invite = record {
  source_ok = true;
  call_id = some (1 ∷ []);
  from = some (some (2 ∷ []));
  to = some none;
  cseq = some 7;
  leg_tr = text "udp";
  auth_req = record {
    method = text "INVITE";
    req_call_id = 1 ∷ [];
    proxy_authorization = none;
    stamp = [];
  };
}

abbrev server : Server
server = record {
  rejected = some [];
  provisional = [];
  in_progress = [];
  calls = [];
  out_calls = [];
}

abbrev nobody : InboundAuth
nobody = record { username = []; password = []; auth_realm = [] }

abbrev env : Env
env = record {
  hide_inbound_port = false;
  new_tag = 9 ∷ [];
  auth = inr (auth_no_trunk_found, nobody);
}

abbrev parse : Text → Option Credentials
parse t = none

abbrev digest : Challenge → Text → Text → Text → Text → Option Text
digest c m u n p = none

process_invite-IsServed_example :
    IsServed
      (IsSilent env invite)
      (IsAllowed parse digest false invite server env.auth)
      (process_invite parse digest server env invite).1
process_invite-IsServed_example = process_invite-IsServed parse digest server env invite tt

abbrev leg : Leg
leg = record {
  has_invite = true;
  has_tx = true;
  has_ok = false;
  has_from = true;
  ringing = false;
  cancelled = false;
  acked = false;
  leg_tr = text "udp";
  sip_call_id = 1 ∷ [];
  tag = 2 ∷ [];
  invite_cseq = 7;
  next_cseq = 8;
  refer_cseq = 0;
  last_sdp = [];
  sent = [];
}

new_leg : new_inbound server env invite ≡ inr (9 ∷ [], leg)
unfolding new_inbound with_call_id with_tags local_tag lookup_pair
new_leg = refl

replay-process_invite_example :
    let again =
      process_invite parse digest (process_invite parse digest server env invite).0 env invite in
    (answers again.1 ≡ 404 ∷ [])
    × (again.1.started ≡ false)
    × (again.1.err ≡ none)
    × (again.1.counted ≡ [])
    × (again.0.calls ≡ [])
unfolding lookup lookup_pair
replay-process_invite_example =
    replay-process_invite parse digest server env env invite (9 ∷ []) leg [] 404
      (text "No trunk found") refl refl new_leg refl refl refl refl
