-- ===== src/Server/Invite/Pending.antt =====
-- The leg of an INVITE that has no final answer yet, and the codes of its authentication (pkg/sip/inbound.go).
use sip_server.Prelude.{
  ℕ, ◌≤◌, ◌≡◌, refl, inl, inr, Bool, true, Option, none, some, arith, Text, is_empty, if◌then◌else◌,
  Option-cases, Bool-cases, ◌||◌,
}
use sip_server.Inbound.Leg.{Leg, Cache, respond, processing, drop, respond_and_drop, stop_ringing}
use sip_server.Inbound.Auth.{
  Challenge, Credentials, InboundAuth, Store, Outcome, handle_invite_auth, before, check_header,
  check_credentials, compare_response, InProgressInvite, get_invite, realm_of,
}
use sip_server.Inbound.Auth
use sip_server.Server.{Request, Server, Env, new_inbound, with_call_id, with_tags, invalid, present}
use sip_server.Server.Invite.{finals, leg_codes}

-- A refused password is answered with one final code, and an accepted one with none.
abbrev pub IsAnswered : Outcome → Type 0
IsAnswered o = finals o.codes ≡ (if o.ok then 0 else 1)

module _ (parse_credentials : Text → Option Credentials)
    (digest : Challenge → Text → Text → Text → Text → Option Text) where
  compare_response-IsAnswered :
      (cred : Credentials) (r : Option Text)
      → IsAnswered (compare_response parse_credentials digest cred r)
  unfolding compare_response
  compare_response-IsAnswered cred none = refl
  compare_response-IsAnswered cred (some r) = ground arith

  check_credentials-IsAnswered :
      (a : InboundAuth) (m : Text) (i : InProgressInvite) (c : Option Credentials)
      → IsAnswered (check_credentials parse_credentials digest a m i c)
  unfolding check_credentials
  check_credentials-IsAnswered a m i none = refl
  check_credentials-IsAnswered a m i (some cred) =
      let k =
        compare_response-IsAnswered cred
          (digest i.challenge m cred.uri cred.cred_username a.password) in
      ground (arith, k)

  check_header-IsAnswered :
      (a : InboundAuth) (q : Auth.Request) (realm : Text) (i : InProgressInvite) (s : Store)
      (h : Option Text)
      → IsAnswered (check_header parse_credentials digest a q realm (i, s) h).0
  unfolding check_header
  check_header-IsAnswered a q realm i s none = refl
  check_header-IsAnswered a q realm i s (some h) =
      check_credentials-IsAnswered a q.method i (parse_credentials h)

  before-IsAnswered :
      (hide : Bool) (o : Outcome) (s : Store) → IsAnswered o → IsAnswered (before hide (o, s)).0
  before-IsAnswered hide o s v = ground (arith, v)

  pub auth-IsAnswered :
      (hide : Bool) (a : InboundAuth) (q : Auth.Request) (s : Store)
      → IsAnswered (handle_invite_auth parse_credentials digest hide a q s).0
  unfolding handle_invite_auth
  auth-IsAnswered hide a q s =
      let (i, s') = get_invite q.req_call_id s in
      let x =
        check_header parse_credentials digest a q (realm_of a) (i, s') q.proxy_authorization in
      let k =
        before-IsAnswered hide x.0 x.1
          (check_header-IsAnswered a q (realm_of a) i s' q.proxy_authorization) in
      elim (Bool-cases (is_empty a.username || is_empty a.password)) [
        | inl t ↦ ground (arith, t)
        | inr f ↦ ground (arith, f, k)
      ]

-- A leg on which nothing but provisional responses was sent.
pub record IsPending (l : Leg) : Type 0 where
  pub has_tx : l.has_tx ≡ true
  pub none_final : finals (leg_codes l.sent) ≡ 0

pub processing-IsPending : (l : Leg) → IsPending l → IsPending (processing l)
unfolding processing respond
processing-IsPending l v = ground (arith, v)

pub rejected_once :
    (status : ℕ) (reason : Text) (l : Leg) (c : Cache)
    → 200 ≤ status
    → IsPending l
    → finals (leg_codes (respond_and_drop status reason l c).0.sent) ≡ 1
unfolding respond_and_drop drop respond stop_ringing
rejected_once status reason l none h v = ground (arith, h, v)
rejected_once status reason l (some es) h v = ground (arith, h, v)

with_tags-IsPending :
    (s : Server) (v : Env) (q : Request) (c : Text) (from : Option Text) (to : Option (Option Text))
    (id : Text) (l : Leg)
    → with_tags s v q c from to ≡ inr (id, l)
    → IsPending l
unfolding with_tags invalid
with_tags-IsPending s v q c none to id l e = ground (arith, e)
with_tags-IsPending s v q c (some f) none id l e = ground (arith, e)
with_tags-IsPending s v q c (some f) (some t) id l e = ground (arith, e)

with_call_id-IsPending :
    (s : Server) (v : Env) (q : Request) (o : Option Text) (id : Text) (l : Leg)
    → with_call_id s v q o ≡ inr (id, l)
    → IsPending l
unfolding with_call_id invalid
with_call_id-IsPending s v q none id l e = ground (arith, e)
with_call_id-IsPending s v q (some c) id l e = elim (Option-cases q.from) [
  | inl n ↦ ground (arith, n, e)
  | inr (tag, f) ↦ with_tags-IsPending s v q c (present tag) q.to id l (ground (arith, f, e))
]

pub new_inbound-IsPending :
    (s : Server) (v : Env) (q : Request) (id : Text) (l : Leg)
    → new_inbound s v q ≡ inr (id, l)
    → IsPending l
unfolding new_inbound
new_inbound-IsPending s v q id l e = with_call_id-IsPending s v q (present q.call_id) id l e
