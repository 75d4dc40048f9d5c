-- ===== src/Server/Invite/Answers.antt =====
-- Every INVITE is answered once (pkg/sip/inbound.go).
use sip_server.Prelude.{
  ℕ, ◌≤◌, ◌≡◌, refl, ◌⊎◌, inl, inr, true, false, not, Option, none, some, List, [], ◌∷◌, All, arith,
  Text, if◌then◌else◌, sym, text,
}
use sip_server.Errors.{Err, plain, rpc, wrapped, invalid_argument, malformed_request}
use sip_server.Inbound.Leg.{Leg, Cache}
use sip_server.Inbound.Auth.{Challenge, Credentials}
use sip_server.Server.{Request, Server, Env, lookup_pair, new_inbound}
use sip_server.Server.Invite.{replay, find_rejected, validated, process_invite, rejected_by}
use sip_server.Server.Invite.Pending.{IsPending, rejected_once, new_inbound-IsPending}
use sip_server.Server.Invite.Fates.{
  IsServed, is_answered, is_silent, wider-IsServed, IsDropped, IsAllowed, dispatch-IsServed,
}

-- The replay cache holds final codes.
abbrev pub IsCache : Cache → Type 0
IsCache none = Unit
IsCache (some es) = All (λ e. 200 ≤ e.1.0) es

lookup_pair-final :
    (es : List ((Text × Text) × (ℕ × Text))) (k : Text × Text) (status : ℕ) (reason : Text)
    → All (λ e. 200 ≤ e.1.0) es
    → lookup_pair k es ≡ some (status, reason)
    → 200 ≤ status
unfolding lookup_pair
lookup_pair-final [] k status reason v e = ground (arith, e)
lookup_pair-final (((c, d), x) ∷ es) (a, b) status reason (h, v) e =
    let k = lookup_pair-final es (a, b) status reason v in ground (arith, h, k, e)

find_rejected-IsCache :
    (c : Cache) (k : Text × Text) (status : ℕ) (reason : Text)
    → IsCache c
    → find_rejected c k ≡ some (status, reason)
    → 200 ≤ status
unfolding find_rejected
find_rejected-IsCache none k status reason v e = ground (arith, e)
find_rejected-IsCache (some es) k status reason v e = lookup_pair-final es k status reason v e

-- Why an INVITE may get no final answer.
abbrev pub IsSilent : Env → Request → Type 0
IsSilent v q = (q.source_ok ≡ false) ⊎ (v.hide_inbound_port ≡ true) ⊎ IsDropped v.auth

module _ (parse_credentials : Text → Option Credentials)
    (digest : Challenge → Text → Text → Text → Text → Option Text) where
  replay-IsServed :
      (s : Server) (v : Env) (q : Request) (id : Text) (l : Leg) (found : Option (ℕ × Text))
      → ((status : ℕ) → (reason : Text) → found ≡ some (status, reason) → 200 ≤ status)
      → IsPending l
      → IsServed
          (IsDropped v.auth)
          (IsAllowed parse_credentials digest v.hide_inbound_port q s v.auth)
          (replay parse_credentials digest s v q id l found).1
  unfolding replay
  replay-IsServed s v q id l none h p = dispatch-IsServed parse_credentials digest s v q id l p
  replay-IsServed s v q id l (some (status, reason)) h p =
      is_answered refl (rejected_once status reason l s.rejected (h status reason refl) p)

  validated-IsServed :
      (s : Server) (v : Env) (q : Request) (r : Err ⊎ (Text × Leg))
      → IsCache s.rejected
      → ((id : Text) → (l : Leg) → r ≡ inr (id, l) → IsPending l)
      → IsServed
          (IsSilent v q)
          (IsAllowed parse_credentials digest v.hide_inbound_port q s v.auth)
          (validated parse_credentials digest s v q r).1
  unfolding validated
  validated-IsServed s v q (inl e) c p =
      elim v.hide_inbound_port
          as (λ b.
            b ≡ v.hide_inbound_port
            → IsServed (IsSilent v q)
                (IsAllowed parse_credentials digest v.hide_inbound_port q s v.auth)
                (rejected_by none (if b then [] else 400 ∷ [])
                  (some (rpc invalid_argument (wrapped (text "invite validation failed: ") e)))
                  [])) [
                    | true ↦ λ h. is_silent refl refl refl (inr (inl (sym h)))
                    | false ↦ λ h. is_answered refl refl
                  ]
        refl
  validated-IsServed s v q (inr (id, l)) c p =
      wider-IsServed _ _ _ _ (λ d. inr (inr d))
        (replay-IsServed s v q id l (find_rejected s.rejected (l.sip_call_id, l.tag))
          (λ status reason e.
            find_rejected-IsCache s.rejected (l.sip_call_id, l.tag) status reason c e)
          (p id l refl))

  -- An INVITE has one of three fates, whatever the caches hold. A call is started and no final code was
  -- sent: then GetAuthCredentials accepted the INVITE, or asked for a password that was checked. Or
  -- no call is started and exactly one final code was sent. Or no call is started, no final code was
  -- sent and an error is returned: then the source was not valid, or the server hides its port, or
  -- GetAuthCredentials told to drop it. The replay cache is taken to hold final codes.
  pub process_invite-IsServed :
      (s : Server) (v : Env) (q : Request)
      → IsCache s.rejected
      → IsServed
          (IsSilent v q)
          (IsAllowed parse_credentials digest v.hide_inbound_port q s v.auth)
          (process_invite parse_credentials digest s v q).1
  unfolding process_invite
  process_invite-IsServed s v q c =
      elim q.source_ok
          as (λ b.
            b ≡ q.source_ok
            → IsServed (IsSilent v q)
                (IsAllowed parse_credentials digest v.hide_inbound_port q s v.auth)
                (if not b
                  then (
                    s,
                    rejected_by none []
                        (some (rpc malformed_request (plain (text "cannot parse source IP")))) [],
                  )
                  else validated parse_credentials digest s v q (new_inbound s v q)).1) [
                    | true ↦ λ h.
                        validated-IsServed s v q (new_inbound s v q) c (new_inbound-IsPending s v q)
                    | false ↦ λ h. is_silent refl refl refl (inl (sym h))
                  ]
        refl
