-- ===== src/Inbound/Auth/Round.antt =====
-- A challenge that is answered while the server handles other INVITEs (pkg/sip/inbound.go).
use sip_server.Prelude.{
  ℕ, suc, ◌+◌, ◌<◌, ◌≡◌, refl, ◌⊎◌, ◌||◌, inl, inr, Bool, true, false, Option, none, some, List, [],
  ◌∷◌, All, arith, length, Text, text, text_eq, is_empty, Option-cases, Bool-cases,
}
use sip_server.Inbound.Auth.{
  Challenge, Credentials, InboundAuth, Request, Store, digest_limit, find_invite, get_invite,
  set_challenge, check_header, handle_invite_auth, realm_of, generate_nonce,
}
use sip_server.Inbound.Auth.Store.{
  IsStore, get_invite-IsStore, set_challenge-IsStore, Keeps, get_invite-Keeps, set_challenge-Keeps,
  challenge-Keeps, Keeps-get_invite,
}
use sip_server.Inbound.Auth.Verdict.{handle_invite_auth_lem}

-- The challenge that a server makes for a request.
abbrev pub challenge_for : InboundAuth → Request → Challenge
challenge_for auth req = record {
  realm = realm_of auth;
  nonce = generate_nonce req.stamp req.req_call_id;
}

realm_of-nonempty : (auth : InboundAuth) → is_empty (realm_of auth) ≡ false
unfolding text
realm_of-nonempty auth = ground arith

module _ (parse_credentials : Text → Option Credentials)
    (digest : Challenge → Text → Text → Text → Text → Option Text) (hide : Bool) where
  -- The store after a series of INVITEs, each with what is configured for it.
  unfoldable pub serve : List (InboundAuth × Request) → Store → Store
  serve [] s = s
  serve ((auth, req) ∷ rest) s =
      serve rest (handle_invite_auth parse_credentials digest hide auth req s).1

  -- What an INVITE leaves in the store: nothing new, its challenge, or its Call-ID.
  handle_invite_auth-store :
      (auth : InboundAuth) (req : Request) (s : Store)
      → let s' = (get_invite req.req_call_id s).1 in
        let k = (handle_invite_auth parse_credentials digest hide auth req s).1 in
        (k ≡ s) ⊎ ((k ≡ s') ⊎ (k ≡ set_challenge req.req_call_id (challenge_for auth req) s'))
  unfolding handle_invite_auth check_header
  handle_invite_auth-store auth req s =
      elim (Bool-cases (is_empty auth.username || is_empty auth.password)) [
        | inl e ↦ inl (ground arith)
        | inr e ↦ inr (elim (Option-cases req.proxy_authorization) [
          | inl n ↦ inr (ground arith)
          | inr (h, k) ↦ inl (ground arith)
        ])
      ]

  -- No INVITE lets the invites in progress grow beyond 500, or puts a Call-ID there twice.
  pub handle_invite_auth-IsStore :
      (auth : InboundAuth) (req : Request) (s : Store)
      → IsStore s
      → IsStore (handle_invite_auth parse_credentials digest hide auth req s).1
  handle_invite_auth-IsStore auth req s v =
      let v' = get_invite-IsStore req.req_call_id s v in
      elim (handle_invite_auth-store auth req s) [
        | inl e ↦ rw e v
        | inr (inl e) ↦ rw e v'
        | inr (inr e) ↦ rw e (
            set_challenge-IsStore req.req_call_id (challenge_for auth req)
              (get_invite req.req_call_id s).1 v')
      ]

  handle_invite_auth-Keeps :
      (id : Text) (c : Challenge) (n : ℕ) (auth : InboundAuth) (req : Request) (s : Store)
      → text_eq req.req_call_id id ≡ false
      → IsStore s
      → suc n < digest_limit
      → Keeps id c n s
      → Keeps id c (suc n) (handle_invite_auth parse_credentials digest hide auth req s).1
  handle_invite_auth-Keeps id c n auth req s d v b (m, l, h) =
      let k = get_invite-Keeps id req.req_call_id s v.bounded b (m, l, h) in
      elim (handle_invite_auth-store auth req s) [
        | inl e ↦ (m, omega arith, rw e h)
        | inr (inl e) ↦ rw e k
        | inr (inr e) ↦ rw e (
            set_challenge-Keeps id req.req_call_id (challenge_for auth req)
              (get_invite req.req_call_id s).1 d k)
      ]

  serve-Keeps :
      (id : Text) (c : Challenge) (n : ℕ) (others : List (InboundAuth × Request)) (s : Store)
      → All (λ o. text_eq o.1.req_call_id id ≡ false) others
      → n + length others < digest_limit
      → IsStore s
      → Keeps id c n s
      → Keeps id c (n + length others) (serve others s)
  unfolding serve
  serve-Keeps id c n [] s a b v (m, l, h) = (m, omega arith, h)
  serve-Keeps id c n ((auth, req) ∷ rest) s a b v k =
      let (m, l, h) =
        serve-Keeps id c (suc n) rest
          (handle_invite_auth parse_credentials digest hide auth req s).1 a.1 (omega arith)
          (handle_invite_auth-IsStore auth req s v)
          (handle_invite_auth-Keeps id c n auth req s a.0 v (omega arith) k) in
      (m, omega arith, h)

  handle_first :
      (auth : InboundAuth) (first : Request) (s : Store)
      → is_empty auth.username ≡ false
      → is_empty auth.password ≡ false
      → find_invite first.req_call_id s ≡ none
      → first.proxy_authorization ≡ none
      → Keeps first.req_call_id
          (challenge_for auth first)
          0
          (handle_invite_auth parse_credentials digest hide auth first s).1
  unfolding handle_invite_auth check_header
  handle_first auth first s u p new noauth =
      let e : (handle_invite_auth parse_credentials digest hide auth first s).1
          ≡ set_challenge first.req_call_id (challenge_for auth first)
              (get_invite first.req_call_id s).1 =
        ground arith in
      rw e (challenge-Keeps first.req_call_id (challenge_for auth first) s new)

  -- A Call-ID that is not yet in progress is challenged, then fewer than 500 INVITEs with other
  -- Call-IDs are handled, then an INVITE with that Call-ID carries credentials of the configured
  -- user whose response is the digest of the challenge with the configured password: it passes.
  pub serve_round :
      (auth : InboundAuth) (first retry : Request) (others : List (InboundAuth × Request))
      (s : Store) (h : Text) (cred : Credentials)
      → is_empty auth.username ≡ false
      → is_empty auth.password ≡ false
      → IsStore s
      → find_invite first.req_call_id s ≡ none
      → first.proxy_authorization ≡ none
      → All (λ o. text_eq o.1.req_call_id first.req_call_id ≡ false) others
      → length others < digest_limit
      → retry.req_call_id ≡ first.req_call_id
      → retry.proxy_authorization ≡ some h
      → parse_credentials h ≡ some cred
      → cred.cred_username ≡ auth.username
      → digest (challenge_for auth first) retry.method cred.uri cred.cred_username auth.password
        ≡ some cred.cred_response
      → let challenged = (handle_invite_auth parse_credentials digest hide auth first s).1 in
        (handle_invite_auth parse_credentials digest hide auth retry (serve others challenged)).0.ok
        ≡ true
  serve_round auth first retry others s h cred u p v new noauth other few same has parsed user
        right =
      let s1 = (handle_invite_auth parse_credentials digest hide auth first s).1 in
      let k1 = handle_first auth first s u p new noauth in
      let k2 =
        serve-Keeps first.req_call_id (challenge_for auth first) 0 others s1 other (omega arith)
          (handle_invite_auth-IsStore auth first s v) k1 in
      let c =
        Keeps-get_invite first.req_call_id (challenge_for auth first) (0 + length others)
          (serve others s1) k2 in
      let c' : (get_invite retry.req_call_id (serve others s1)).0.challenge
          ≡ challenge_for auth first =
        ground (arith, c) in
      (handle_invite_auth_lem parse_credentials digest hide auth retry (serve others s1) u p).0.1 (
        h,
        has,
        record {
          cred = cred;
          response = cred.cred_response;
          parsed = parsed;
          user = user;
          issued = rw c' (realm_of-nonempty auth);
          computed = rw c' right;
          equal = refl;
        },
      )
