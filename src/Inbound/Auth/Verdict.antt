-- ===== src/Inbound/Auth/Verdict.antt =====
-- What `handleInviteAuth` of pkg/sip/inbound.go requires of an INVITE, and what it answers.
use sip_server.Prelude.{
  ℕ, ◌≡◌, refl, inl, inr, ◌↔◌, Bool, true, false, Option, none, some, List, [], ◌∷◌, arith,
  if◌then◌else◌, Text, text_eq→eq, text_eq_self, is_empty, Option-cases,
}
use sip_server.Inbound.Auth.{
  Challenge, Credentials, InProgressInvite, InboundAuth, Request, Store, get_invite,
  compare_response, check_credentials, check_header, handle_invite_auth,
}

module _ (parse_credentials : Text → Option Credentials)
    (digest : Challenge → Text → Text → Text → Text → Option Text) where
  -- What an authenticated INVITE shows, given the invite in progress: its header has credentials of
  -- the configured user, and their response is the digest of the challenge issued for the Call-ID.
  pub record Proven (auth : InboundAuth) (method : Text) (i : InProgressInvite) (h : Text)
      : Type 0 where
    pub cred : Credentials
    pub response : Text
    pub parsed : parse_credentials h ≡ some cred
    pub user : cred.cred_username ≡ auth.username
    pub issued : is_empty i.challenge.realm ≡ false
    pub computed :
        digest i.challenge method cred.uri cred.cred_username auth.password ≡ some response
    pub equal : cred.cred_response ≡ response

  compare_response_complete :
      (cred : Credentials) (r : Text)
      → cred.cred_response ≡ r
      → (compare_response parse_credentials digest cred (some r)).ok ≡ true
  unfolding compare_response
  compare_response_complete cred r e = ground (arith, text_eq_self r)

  compare_response_sound :
      (cred : Credentials) (o : Option Text)
      → (compare_response parse_credentials digest cred o).ok ≡ true
      → (r : Text) × (o ≡ some r) × (cred.cred_response ≡ r)
  unfolding compare_response
  compare_response_sound cred none h = ground arith
  compare_response_sound cred (some r) h =
      (r, refl, ground (arith, text_eq→eq cred.cred_response r))

  compare_response-codes :
      (cred : Credentials) (o : Option Text)
      → let v = compare_response parse_credentials digest cred o in
        (v.challenged ≡ false) × (v.codes ≡ (if v.ok then [] else 401 ∷ []))
  unfolding compare_response
  compare_response-codes cred none = (refl, refl)
  compare_response-codes cred (some r) = ground arith

  check_credentials_sound :
      (auth : InboundAuth) (m : Text) (i : InProgressInvite) (h : Text) (o : Option Credentials)
      → parse_credentials h ≡ o
      → (check_credentials parse_credentials digest auth m i o).ok ≡ true
      → Proven auth m i h
  unfolding check_credentials
  check_credentials_sound auth m i h none p e = ground arith
  check_credentials_sound auth m i h (some cred) p e =
      let (r, c, q) =
        compare_response_sound cred (digest i.challenge m cred.uri cred.cred_username auth.password)
          (ground arith) in
      record {
        cred = cred;
        response = r;
        parsed = p;
        user = text_eq→eq cred.cred_username auth.username (ground arith);
        issued = ground arith;
        computed = c;
        equal = q;
      }

  check_credentials_complete :
      (auth : InboundAuth) (m : Text) (i : InProgressInvite) (h : Text)
      → Proven auth m i h
      → (check_credentials parse_credentials digest auth m i (parse_credentials h)).ok ≡ true
  unfolding check_credentials
  check_credentials_complete auth m i h p = ground (
    arith,
    p.parsed,
    p.computed,
    text_eq_self auth.username,
    compare_response_complete p.cred p.response p.equal,
  )

  check_credentials-codes :
      (auth : InboundAuth) (m : Text) (i : InProgressInvite) (o : Option Credentials)
      → let v = check_credentials parse_credentials digest auth m i o in
        (v.challenged ≡ false) × (v.codes ≡ (if v.ok then [] else 401 ∷ []))
  unfolding check_credentials
  check_credentials-codes auth m i none = (refl, refl)
  check_credentials-codes auth m i (some cred) = ground (
    arith,
    compare_response-codes cred (digest i.challenge m cred.uri cred.cred_username auth.password),
  )

  -- Where a user and a password are configured, `handleInviteAuth` lets an INVITE pass if and only if
  -- its Proxy-Authorization header proves the password for the challenge in progress for its
  -- Call-ID; it asks for credentials if and only if the header is absent; and it answers 407 when it
  -- asks, 401 when it refuses, and nothing when it lets the INVITE pass, after a 100 where the port
  -- is hidden.
  pub handle_invite_auth_lem :
      (hide : Bool) (auth : InboundAuth) (req : Request) (s : Store)
      → is_empty auth.username ≡ false
      → is_empty auth.password ≡ false
      → let v = (handle_invite_auth parse_credentials digest hide auth req s).0 in
        let i = (get_invite req.req_call_id s).0 in
        let answers : List ℕ = if v.ok then [] else if v.challenged then 407 ∷ [] else 401 ∷ [] in
        ((v.ok ≡ true)
          ↔ ((h : Text) × (req.proxy_authorization ≡ some h) × Proven auth req.method i h))
        × ((v.challenged ≡ true) ↔ (req.proxy_authorization ≡ none))
        × (v.codes ≡ (if hide then 100 ∷ answers else answers))
  unfolding handle_invite_auth check_header
  handle_invite_auth_lem hide auth req s u p = elim (Option-cases req.proxy_authorization) [
    | inl n ↦
        ((λ e. ground arith, λ (k, f, w). ground arith), (λ _. n, λ _. ground arith), ground arith)
    | inr (h, e) ↦
        let i = (get_invite req.req_call_id s).0 in
        let o = parse_credentials h in
        (
          (
            λ t. (h, e, check_credentials_sound auth req.method i h o refl (ground arith)),
            λ (k, f, w). ground (arith, check_credentials_complete auth req.method i k w),
          ),
          (λ t. ground (arith, check_credentials-codes auth req.method i o), λ t. ground arith),
          ground (arith, check_credentials-codes auth req.method i o),
        )
  ]
