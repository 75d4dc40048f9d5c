-- ===== src/Dispatch/Credentials.antt =====
-- A trunk with a password lets no INVITE in without credentials (pkg/service/psrpc.go and
-- pkg/sip/inbound.go).
use sip_server.Prelude.{
  ◌≡◌, ◌∙◌, Bool, true, false, not, ◌&&◌, ◌⊎◌, inl, inr, Option, some, arith, Text, is_empty, subst,
}
use sip_server.Errors.{Err}
use sip_server.Inbound.Auth.{Challenge, Credentials, InboundAuth, InProgressInvite, get_invite}
use sip_server.Inbound.Auth.Store.{get_invite_again}
use sip_server.Inbound.Auth.Verdict.{Proven, handle_invite_auth_lem}
use sip_server.Server.{AuthResult, auth_accept, auth_password, Request, Server, Env}
use sip_server.Server.Invite.{process_invite, with_invite}
use sip_server.Server.Invite.Fates.{is_started, is_answered, is_silent}
use sip_server.Server.Invite.Answers.{IsCache, process_invite-IsServed}
use sip_server.Dispatch.{
  TrunkResponse, TrunkError, quota_exceeded, no_trunk_found, no_error, by_password, by_code,
  get_auth_credentials,
}

-- The trunk has a user name and a password.
abbrev pub has_password : TrunkResponse → Bool
has_password r = not (is_empty r.resp_username) && not (is_empty r.resp_password)

password_given :
    (r : TrunkResponse) (c : TrunkError) (a : InboundAuth)
    → by_code c r ≡ (auth_password, a)
    → (is_empty a.username ≡ false)
      × (is_empty a.password ≡ false)
      × (a.username ≡ r.resp_username)
      × (a.password ≡ r.resp_password)
unfolding by_code by_password
password_given r quota_exceeded a e = ground (arith, e)
password_given r no_trunk_found a e = ground (arith, e)
password_given r no_error a e = ground (arith, e)

accept_given :
    (r : TrunkResponse) (c : TrunkError) (a : InboundAuth)
    → by_code c r ≡ (auth_accept, a)
    → has_password r ≡ false
unfolding by_code by_password
accept_given r quota_exceeded a e = ground (arith, e)
accept_given r no_trunk_found a e = ground (arith, e)
accept_given r no_error a e = ground (arith, e)

same_verdict :
    (x y : AuthResult × InboundAuth) (z : Err ⊎ (AuthResult × InboundAuth))
    → z ≡ inr x
    → z ≡ inr y
    → y ≡ x
same_verdict x y z a b = ground (arith, a, b)

module _ (parse_credentials : Text → Option Credentials)
    (digest : Challenge → Text → Text → Text → Text → Option Text) where
  -- The digest of a proof, over the credentials of the trunk.
  of_trunk :
      (method : Text) (i : InProgressInvite) (x : InboundAuth) (r : TrunkResponse) (h : Text)
      → (w : Proven parse_credentials digest x method i h) → x.username ≡ r.resp_username
      → x.password ≡ r.resp_password
      → digest i.challenge method w.cred.uri r.resp_username r.resp_password ≡ some w.response
  of_trunk method i x r h w eu ep =
      let u : w.cred.cred_username ≡ r.resp_username = w.user ∙ eu in
      digest_of_same i w.cred.uri method u ep w.computed
    where
      digest_of_same :
          (i : InProgressInvite) (uri method : Text) {a b c d : Text} {o : Option Text}
          → a ≡ b
          → c ≡ d
          → digest i.challenge method uri a c ≡ o
          → digest i.challenge method uri b d ≡ o
      digest_of_same i uri method p q z = cc

  -- An INVITE that starts a call came, if the trunk that the RPC service names has a user name and a
  -- password, with a Proxy-Authorization header of credentials for that user name, whose response is
  -- the digest of that password under the challenge in progress for the Call-ID, which was issued.
  -- The replay cache is taken to hold final codes.
  pub process_invite-get_auth_credentials :
      (s : Server) (v : Env) (q : Request) (r : TrunkResponse)
      → IsCache s.rejected
      → v.auth ≡ get_auth_credentials (inr r)
      → has_password r ≡ true
      → (process_invite parse_credentials digest s v q).1.started ≡ true
      → (h : Text) × (cred : Credentials) × (response : Text) × (q.auth_req.proxy_authorization
          ≡ some h)
        × (parse_credentials h ≡ some cred)
        × (cred.cred_username ≡ r.resp_username)
        × (cred.cred_response ≡ response)
        × (let challenge = (get_invite q.auth_req.req_call_id s.in_progress).0.challenge in
            (is_empty challenge.realm ≡ false)
            × (digest challenge q.auth_req.method cred.uri r.resp_username r.resp_password
                ≡ some response))
  unfolding get_auth_credentials
  process_invite-get_auth_credentials s v q r c e p t =
      elim (process_invite-IsServed parse_credentials digest s v q c) [
        | is_started a b d (x, inl k) ↦
            ground (arith, accept_given r r.error_code x (same_verdict _ _ v.auth k e), p)
        | is_started a b d (x, inr (k, o)) ↦
            let (nu, np, eu, ep) = password_given r r.error_code x (same_verdict _ _ v.auth k e) in
            let id = q.auth_req.req_call_id in
            let (h, m, given) =
              (handle_invite_auth_lem parse_credentials digest v.hide_inbound_port x q.auth_req
                  (with_invite q s) nu np).0.0
                o in
            let w =
              subst (λ i. Proven parse_credentials digest x q.auth_req.method i h)
                (get_invite_again id s.in_progress) given in
            (
              h,
              w.cred,
              w.response,
              m,
              w.parsed,
              w.user ∙ eu,
              w.equal,
              (w.issued, of_trunk q.auth_req.method (get_invite id s.in_progress).0 x r h w eu ep),
            )
        | is_answered a b ↦ ground (arith, a, t)
        | is_silent a b d f ↦ ground (arith, a, t)
      ]
