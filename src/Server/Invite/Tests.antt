-- ===== src/Server/Invite/Tests.antt =====
-- An INVITE that answers the challenge of an earlier one.
use sip_server.Prelude.{
  ◌≡◌, refl, inr, true, false, Option, none, some, [], ◌∷◌, Text, text, text_eq,
}
use sip_server.Inbound.Auth.{
  Challenge, Credentials, InboundAuth, handle_invite_auth, check_header, check_credentials,
  compare_response, get_invite, get_invite_from, find_invite,
}
use sip_server.Server.{
  auth_password, Request, Server, Env, lookup, lookup_pair, new_inbound, with_call_id, with_tags,
  local_tag,
}
use sip_server.Server.Invite.{
  process_invite, validated, replay, find_rejected, dispatch, is_later, is_later_out, authorize,
  after_auth, start,
}

abbrev pub user : InboundAuth
user = record { username = 65 ∷ []; password = 66 ∷ []; auth_realm = 67 ∷ [] }

abbrev pub env : Env
env = record { hide_inbound_port = false; new_tag = 9 ∷ []; auth = inr (auth_password, user) }

-- The challenge of an earlier INVITE.
abbrev pub server : Server
server = record {
  rejected = none;
  provisional = [];
  in_progress =
      record { call_id = 1 ∷ []; challenge = record { realm = 67 ∷ []; nonce = 3 ∷ [] } } ∷ [];
  calls = [];
  out_calls = [];
}

abbrev pub invite : Request
invite = record {
  source_ok = true;
  call_id = some (1 ∷ []);
  from = some (some (2 ∷ []));
  to = some none;
  cseq = some 8;
  leg_tr = text "udp";
  auth_req = record {
    method = [];
    req_call_id = 1 ∷ [];
    proxy_authorization = some (4 ∷ []);
    stamp = [];
  };
}

abbrev pub parse : Text → Option Credentials
parse t = some (record { cred_username = 65 ∷ []; uri = []; cred_response = 5 ∷ [] })

abbrev pub digest : Challenge → Text → Text → Text → Text → Option Text
digest c m u n p = some (5 ∷ [])

pub let_in : (process_invite parse digest server env invite).1.started ≡ true
unfolding process_invite validated replay find_rejected dispatch is_later is_later_out authorize
    after_auth start new_inbound with_call_id with_tags local_tag lookup lookup_pair
    handle_invite_auth check_header check_credentials compare_response get_invite get_invite_from
    find_invite text_eq
let_in = refl
