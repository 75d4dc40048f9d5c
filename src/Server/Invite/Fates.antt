-- ===== src/Server/Invite/Fates.antt =====
-- What becomes of an INVITE that is no replay (pkg/sip/inbound.go).
use sip_server.Prelude.{
  ℕ, ◌+◌, ◌≤◌, ◌≡◌, refl, ◌⊎◌, inl, inr, Bool, true, false, Option, none, some, List, [], ◌∷◌, ◌++◌,
  arith, is_some, Text, if◌then◌else◌, Bool-cases, subst, text,
}
use sip_server.Stats.{Termination, client_error}
use sip_server.Errors.{Err, plain, rpc, permission_denied}
use sip_server.Inbound.Leg.{Leg, respond, processing, drop, stop_ringing}
use sip_server.Inbound.Auth.{
  Challenge, Credentials, InboundAuth, Store, Outcome, handle_invite_auth,
}
use sip_server.Server.{
  AuthResult, auth_not_found, auth_drop, auth_password, auth_accept, auth_quota_exceeded,
  auth_no_trunk_found, Request, Server, Env, Served, lookup,
}
use sip_server.Server.Invite.{
  reject, start, after_auth, authorize, keep_alive, is_later, is_later_out, dispatch, finals,
  leg_codes, answers, rejected_by, with_invite,
}
use sip_server.Server.Invite.Pending.{
  IsAnswered, IsPending, auth-IsAnswered, processing-IsPending, rejected_once,
}

-- What becomes of an INVITE, in all cases.
pub data IsServed (silent : Type 0) (authorized : Type 0) (v : Served) : Type 0 where
  is_started :
      v.started ≡ true
      → v.err ≡ none
      → finals (answers v) ≡ 0
      → authorized
      → IsServed silent authorized v
  is_answered : v.started ≡ false → finals (answers v) ≡ 1 → IsServed silent authorized v
  is_silent :
      v.started ≡ false
      → is_some v.err ≡ true
      → finals (answers v) ≡ 0
      → silent
      → IsServed silent authorized v

pub wider-IsServed : (S S' A : Type 0) (v : Served) → (S → S') → IsServed S A v → IsServed S' A v
wider-IsServed S S' A v f (is_started a b c d) = is_started a b c d
wider-IsServed S S' A v f (is_answered a b) = is_answered a b
wider-IsServed S S' A v f (is_silent a b c d) = is_silent a b c (f d)

reject-IsServed :
    (S A : Type 0) (status : ℕ) (reason : Text) (e : Err) (t : Termination) (s : Server) (l : Leg)
    → 200 ≤ status
    → IsPending l
    → IsServed S A (reject status reason e t s l).1
unfolding reject
reject-IsServed S A status reason e t s l h v =
    is_answered refl (rejected_once status reason l s.rejected h v)

dropped : (l : Leg) → IsPending l → finals (leg_codes (drop l).sent) ≡ 0
unfolding drop stop_ringing
dropped l v = ground (arith, v)

finals_append : (xs ys : List ℕ) → finals (xs ++ ys) ≡ finals xs + finals ys
finals_append [] ys = omega arith
finals_append (x ∷ xs) ys = ground (arith, finals_append xs ys)

abbrev started_by : List ℕ → Leg → Served
started_by codes l = record {
  leg = some l;
  direct = codes;
  started = true;
  err = none;
  counted = [];
}

abbrev refused_by : List ℕ → Leg → Served
refused_by codes l =
    rejected_by (some l) codes
      (some (rpc permission_denied (plain (text "invalid credentials were provided"))))
      (client_error (text "unauthorized") ∷ [])

-- The policy of the authentication.
abbrev pub IsDropped : Err ⊎ (AuthResult × InboundAuth) → Type 0
IsDropped r = (a : InboundAuth) × (r ≡ inr (auth_drop, a))

module _ (parse_credentials : Text → Option Credentials)
    (digest : Challenge → Text → Text → Text → Text → Option Text) where
  abbrev pub IsAllowed : Bool → Request → Server → Err ⊎ (AuthResult × InboundAuth) → Type 0
  IsAllowed hide q s r =
      (a : InboundAuth) × ((r ≡ inr (auth_accept, a))
        ⊎ ((r ≡ inr (auth_password, a))
            × ((handle_invite_auth parse_credentials digest hide a q.auth_req
                  (with_invite q s)).0.ok
                ≡ true)))

  after_auth-IsServed :
      (S A : Type 0) (id : Text) (l : Leg) (s : Server) (o : Outcome) (store : Store)
      → IsPending l
      → IsAnswered o
      → (o.ok ≡ true → A)
      → IsServed S A (after_auth parse_credentials digest id l s (o, store)).1
  unfolding after_auth start
  after_auth-IsServed S A id l s o store v k h =
      let f = finals_append o.codes (leg_codes l.sent) in
      elim (Bool-cases o.ok) [
        | inl t ↦
            let w = started_by o.codes l in
            let e : w ≡ (after_auth parse_credentials digest id l s (o, store)).1 =
              ground (arith, t) in
            subst (IsServed S A) e
              (is_started refl refl (ground (arith, f, k, t, v.none_final)) (h t))
        | inr t ↦
            let w = refused_by o.codes l in
            let e : w ≡ (after_auth parse_credentials digest id l s (o, store)).1 =
              ground (arith, t) in
            subst (IsServed S A) e (is_answered refl (ground (arith, f, k, t, v.none_final)))
      ]

  authorize-IsServed :
      (hide : Bool) (q : Request) (id : Text) (l : Leg) (s : Server)
      (r : Err ⊎ (AuthResult × InboundAuth))
      → IsPending l
      → IsServed
          (IsDropped r)
          (IsAllowed hide q s r)
          (authorize parse_credentials digest hide q id l s r).1
  unfolding authorize start
  authorize-IsServed hide q id l s (inl e) v = reject-IsServed _ _ _ _ _ _ s l (omega arith) v
  authorize-IsServed hide q id l s (inr (auth_drop, a)) v =
      is_silent refl refl (dropped l v) (a, refl)
  authorize-IsServed hide q id l s (inr (auth_not_found, a)) v =
      reject-IsServed _ _ _ _ _ _ s l (omega arith) v
  authorize-IsServed hide q id l s (inr (auth_quota_exceeded, a)) v =
      reject-IsServed _ _ _ _ _ _ s l (omega arith) v
  authorize-IsServed hide q id l s (inr (auth_no_trunk_found, a)) v =
      reject-IsServed _ _ _ _ _ _ s l (omega arith) v
  authorize-IsServed hide q id l s (inr (auth_accept, a)) v =
      is_started refl refl v.none_final (a, inl refl)
  authorize-IsServed hide q id l s (inr (auth_password, a)) v =
      let x = handle_invite_auth parse_credentials digest hide a q.auth_req (with_invite q s) in
      let w : IsPending (if hide then processing l else l) =
        ground (arith, v, processing-IsPending l v) in
      after_auth-IsServed _ _ id _ s x.0 x.1 w
        (auth-IsAnswered parse_credentials digest hide a q.auth_req (with_invite q s))
        (λ t. (a, inr (refl, t)))

  keep_alive-answers : (l : Leg) → IsPending l → finals (answers (keep_alive l)) ≡ 1
  unfolding keep_alive respond
  keep_alive-answers l v = ground (arith, v)

  -- An INVITE that is no replay.
  pub dispatch-IsServed :
      (s : Server) (v : Env) (q : Request) (id : Text) (l : Leg)
      → IsPending l
      → IsServed
          (IsDropped v.auth)
          (IsAllowed v.hide_inbound_port q s v.auth)
          (dispatch parse_credentials digest s v q id l).1
  unfolding dispatch
  dispatch-IsServed s v q id l p =
      let k = keep_alive-answers l p in
      let hide = v.hide_inbound_port in
      let a =
        authorize-IsServed hide q id (if hide then l else processing l) s v.auth
          (ground (arith, p, processing-IsPending l p)) in
      let s2 : Server = record s { out_calls = (id, (l.invite_cseq, true)) ∷ s.out_calls } in
      let rest =
        authorize parse_credentials digest hide q id (if hide then l else processing l) s v.auth in
      elim (is_later l (lookup id s.calls))
        as (λ b.
          IsServed (IsDropped v.auth) (IsAllowed hide q s v.auth)
            (if b
              then (s, keep_alive l)
              else if is_later_out l (lookup id s.out_calls)
              then (s2, keep_alive l)
              else rest).1) [
                | true ↦ is_answered refl k
                | false ↦
                    elim (is_later_out l (lookup id s.out_calls))
                      as (λ b.
                        IsServed (IsDropped v.auth) (IsAllowed hide q s v.auth)
                          (if b then (s2, keep_alive l) else rest).1) [
                            | true ↦ is_answered refl k
                            | false ↦ a
                          ]
              ]
