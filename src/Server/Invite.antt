-- ===== src/Server/Invite.antt =====
-- `processInvite` of pkg/sip/inbound.go up to the call that it starts. The digest library is a parameter.
use sip_server.Prelude.{
  ℕ, ◌+◌, ◌/◌, Bool, true, false, not, ◌&&◌, ◌⊎◌, inl, inr, Option, none, some, List, [], ◌∷◌, ◌++◌,
  ltb, leb, if◌then◌else◌, Text, text, text_eq, is_empty,
}
use sip_server.Stats.{Termination, server_error, client_error}
use sip_server.Errors.{
  Err, plain, wrapped, rpc, malformed_request, invalid_argument, permission_denied, not_found,
  resource_exhausted,
}
use sip_server.Inbound.Leg.{
  Leg, Sent, response, Cache, u32, respond, processing, drop, respond_and_drop,
}
use sip_server.Inbound.Auth.{
  Challenge, Credentials, InboundAuth, Store, Outcome, get_invite, handle_invite_auth,
}
use sip_server.Inbound.Auth
use sip_server.Server.{
  AuthResult, auth_not_found, auth_drop, auth_password, auth_accept, auth_quota_exceeded,
  auth_no_trunk_found, Request, Server, Env, Served, lookup, lookup_pair, new_inbound,
}
pub mod Pending
pub mod Fates
pub mod Answers
pub mod Replay
pub mod Tests

abbrev rejected_by : Option Leg → List ℕ → Option Err → List Termination → Served
rejected_by l direct e ts = record {
  leg = l;
  direct = direct;
  started = false;
  err = e;
  counted = ts;
}

abbrev failed : Leg → Err → Termination → Served
failed l e t = rejected_by (some l) [] (some e) (t ∷ [])

-- `RespondAndDrop`, which may put the rejection into the replay cache.
reject : ℕ → Text → Err → Termination → Server → Leg → Server × Served
reject status reason e t s l =
    let (l', cache) = respond_and_drop status reason l s.rejected in
    (record s { rejected = cache }, failed l' e t)

-- `direct` are the codes that the authentication has sent.
start : List ℕ → Text → Leg → Server → Server × Served
start direct id l s = (
  record s { calls = (id, l.invite_cseq) ∷ s.calls },
  record { leg = some l; direct = direct; started = true; err = none; counted = [] },
)

-- A re-INVITE of a call is accepted without a change of the call.
keep_alive : Leg → Served
keep_alive l = rejected_by (some (respond 200 (text "OK") l)) [] none []

is_later : Leg → Option ℕ → Bool
is_later l none = false
is_later l (some n) = ltb n l.invite_cseq

is_later_out : Leg → Option (ℕ × Bool) → Bool
is_later_out l none = false
is_later_out l (some (n, has_sdp)) = ltb n l.invite_cseq && has_sdp

find_rejected : Cache → Text × Text → Option (ℕ × Text)
find_rejected none k = none
find_rejected (some entries) k = lookup_pair k entries

-- `processInvite` asks for the invite in progress before handleInviteAuth does, whatever the credentials.
abbrev pub with_invite : Request → Server → Store
with_invite q s = (get_invite q.auth_req.req_call_id s.in_progress).1

module _ (parse_credentials : Text → Option Credentials)
    (digest : Challenge → Text → Text → Text → Text → Option Text) where
  -- After the check of the password: a refused INVITE keeps its local tag for the next one.
  after_auth : Text → Leg → Server → Outcome × Store → Server × Served
  after_auth id l s (o, store) =
      let s' : Server = record s { in_progress = store } in
      if o.ok then start o.codes id l s' else (
        record s' { provisional = ((l.sip_call_id, l.tag), id) ∷ s'.provisional },
        rejected_by (some l) o.codes
            (some (rpc permission_denied (plain (text "invalid credentials were provided"))))
            (client_error (text "unauthorized") ∷ []),
      )

  -- The switch on the result of GetAuthCredentials.
  authorize :
      Bool → Request → Text → Leg → Server → Err ⊎ (AuthResult × InboundAuth) → Server × Served
  unfolding after_auth reject start
  authorize hide q id l s (inl e) =
      reject 503 (text "Try again later")
        (rpc permission_denied (wrapped (text "rejecting inbound, auth check failed: ") e))
        (server_error (text "auth-error")) s l
  authorize hide q id l s (inr (auth_drop, a)) = (
    s,
    failed (drop l)
        (rpc permission_denied (plain (text "call was not authorized by trunk configuration")))
        (client_error (text "flood")),
  )
  authorize hide q id l s (inr (auth_not_found, a)) =
      reject 404 (text "Does not match any SIP Trunks")
        (rpc not_found (plain (text "no trunk configuration for call")))
        (client_error (text "no-rule")) s l
  authorize hide q id l s (inr (auth_quota_exceeded, a)) =
      reject 503 (text "Service temporarily unavailable")
        (rpc resource_exhausted (plain (text "quota limit exceeded")))
        (client_error (text "quota-exceeded")) s l
  authorize hide q id l s (inr (auth_no_trunk_found, a)) =
      reject 404 (text "No trunk found") (rpc not_found (plain (text "no trunk found for call")))
        (client_error (text "no-trunk")) s l
  authorize hide q id l s (inr (auth_password, a)) =
      after_auth id (if hide then processing l else l) s
        (handle_invite_auth parse_credentials digest hide a q.auth_req (with_invite q s))
  authorize hide q id l s (inr (auth_accept, a)) = start [] id l s

  -- Once no rejection is to be replayed.
  unfoldable pub dispatch : Server → Env → Request → Text → Leg → Server × Served
  unfolding authorize keep_alive is_later is_later_out
  dispatch s v q id l =
      if is_later l (lookup id s.calls)
      then (s, keep_alive l)
      else if is_later_out l (lookup id s.out_calls)
      then (record s { out_calls = (id, (l.invite_cseq, true)) ∷ s.out_calls }, keep_alive l)
      else authorize v.hide_inbound_port q id (if v.hide_inbound_port then l else processing l) s
          v.auth

  replay : Server → Env → Request → Text → Leg → Option (ℕ × Text) → Server × Served
  unfolding dispatch
  replay s v q id l none = dispatch s v q id l
  replay s v q id l (some (status, reason)) =
      let (l', cache) = respond_and_drop status reason l s.rejected in
      (record s { rejected = cache }, rejected_by (some l') [] none [])

  validated : Server → Env → Request → Err ⊎ (Text × Leg) → Server × Served
  unfolding replay find_rejected
  validated s v q (inl e) = (
    s,
    rejected_by none (if v.hide_inbound_port then [] else 400 ∷ [])
        (some (rpc invalid_argument (wrapped (text "invite validation failed: ") e))) [],
  )
  validated s v q (inr (id, l)) =
      replay s v q id l (find_rejected s.rejected (l.sip_call_id, l.tag))

  unfoldable pub process_invite : Server → Env → Request → Server × Served
  unfolding validated
  process_invite s v q =
      let bad_source : Err = rpc malformed_request (plain (text "cannot parse source IP")) in
      if not q.source_ok
      then (s, rejected_by none [] (some bad_source) [])
      else validated s v q (new_inbound s v q)

-- The final codes among the responses of a leg, and among those that were sent without it.
abbrev pub finals : List ℕ → ℕ
finals [] = 0
finals (c ∷ cs) = if leb 200 c then finals cs + 1 else finals cs

abbrev pub leg_codes : List Sent → List ℕ
leg_codes [] = []
leg_codes (response c r ∷ m) = c ∷ leg_codes m
leg_codes (_ ∷ m) = leg_codes m

abbrev pub answers : Served → List ℕ
answers v = elim v.leg [ none ↦ v.direct | some l ↦ v.direct ++ leg_codes l.sent ]
