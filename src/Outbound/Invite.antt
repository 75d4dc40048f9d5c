-- ===== src/Outbound/Invite.antt =====
-- The INVITE and its authentication (`Invite` of pkg/sip/outbound.go).
use sip_server.Prelude.{
  ℕ, zero, suc, ◌+◌, ◌≤◌, ◌≡◌, ◌≢◌, refl, ◌⊎◌, inl, inr, Bool, true, false, Option, List, [], ◌∷◌,
  length, arith, All, Text, ◌==◌, if◌then◌else◌, not, ==→eq,
}
use sip_server.Errors.{Err}
use sip_server.Outbound.{
  Response, Attempt, bare, authorization, proxy_authorization, Answer, accepted, refused, refusal,
  resume, answer_header, retry, after_response, invite_loop, invite,
}

-- What a part of the loop with `n` tries left returns: at most `n` transmissions, all of them with
-- credentials, and only a 200 is accepted.
pub record IsBounded (n : ℕ) (w : Answer × List Attempt) : Type 0 where
  pub few : length w.1 ≤ n
  pub later : All (λ a. a ≢ bare) w.1
  pub ok : (r : Response) → w.0 ≡ accepted r → r.status ≡ 200

-- The same of the part after a transmission, which ends the loop if there are no credentials.
abbrev Ends : Bool → ℕ → Answer × List Attempt → Type 0
Ends c n w = IsBounded n w × (c ≡ false → w.1 ≡ [])

refused-Ends : (c : Bool) (n : ℕ) (e : Err) → Ends c n (refused e, [])
refused-Ends c n e =
    (record { few = omega arith; later = tt; ok = λ r h. ground (arith, h) }, λ _. refl)

if-Ends :
    (c : Bool) (n : ℕ) (e : Err) (w : Answer × List Attempt)
    → IsBounded n w
    → Ends c n (if not c then (refused e, []) else w)
if-Ends true n e w b = (b, λ h. ground (arith, h))
if-Ends false n e w b = refused-Ends false n e

module _ {Challenge : Type 0} (parse_challenge : Text → Option Challenge)
    (digest : Challenge → Err ⊎ Text) (credentials : Bool)
    (transmit : Attempt → ℕ → Err ⊎ Response) where
  resume-IsBounded :
      (n : ℕ) (again : Attempt → ℕ → Answer × List Attempt) (named : Text → Attempt) (try : ℕ)
      (o : Err ⊎ Text)
      → ((t : Text) → named t ≢ bare)
      → ((a : Attempt) → a ≢ bare → IsBounded n (again a try))
      → IsBounded n (resume parse_challenge digest credentials transmit again named try o)
  unfolding resume
  resume-IsBounded n again named try (inl e) d f = (refused-Ends credentials n e).0
  resume-IsBounded n again named try (inr t) d f = f (named t) (d t)

  retry-Ends :
      (n : ℕ) (again : Attempt → ℕ → Answer × List Attempt) (named : Text → Attempt) (r : Response)
      (h : Option Text) (try : ℕ)
      → ((t : Text) → named t ≢ bare)
      → ((a : Attempt) → a ≢ bare → IsBounded n (again a try))
      → Ends credentials n (retry parse_challenge digest credentials transmit again named r h try)
  unfolding retry
  retry-Ends n again named r h try d f = if-Ends credentials n _ _ (
      resume-IsBounded n again named try
        (answer_header parse_challenge digest credentials transmit r h) d f)

  accepted-Ends : (n : ℕ) (r : Response) → r.status ≡ 200 → Ends credentials n (accepted r, [])
  accepted-Ends n r q =
      (record { few = omega arith; later = tt; ok = λ s h. ground (arith, h, q) }, λ _. refl)

  after_response-Ends :
      (n : ℕ) (again : Attempt → ℕ → Answer × List Attempt) (try : ℕ) (o : Err ⊎ Response)
      → ((a : Attempt) → a ≢ bare → IsBounded n (again a try))
      → Ends credentials n (after_response parse_challenge digest credentials transmit again try o)
  unfolding after_response
  after_response-Ends n again try (inl e) f = refused-Ends credentials n e
  after_response-Ends n again try (inr r) f =
      pick (r.status == 200) (λ t. accepted-Ends n r (==→eq r.status 200 t))
        (pick (r.status == 401)
          (λ _.
            retry-Ends n again authorization r r.www_authenticate try (λ t h. ground (arith, h)) f)
          (pick (r.status == 407)
            (λ _.
              retry-Ends n again proxy_authorization r r.proxy_authenticate try
                (λ t h. ground (arith, h)) f)
            (refused-Ends credentials n (refusal r))))
    where
      pick :
          (b : Bool) {x y : Answer × List Attempt}
          → (b ≡ true → Ends credentials n x)
          → Ends credentials n y
          → Ends credentials n (if b then x else y)
      pick true p q = p refl
      pick false p q = q

  loop-IsBounded :
      (n : ℕ) (a : Attempt) (try : ℕ)
      → a ≢ bare
      → IsBounded n (invite_loop parse_challenge digest credentials transmit n a try)
  unfolding invite_loop
  loop-IsBounded zero a try d = record {
    few = omega arith;
    later = tt;
    ok = λ r h. ground (arith, h);
  }
  loop-IsBounded (suc n) a try d =
      let b =
        (after_response-Ends n (invite_loop parse_challenge digest credentials transmit n) (try + 1)
          (transmit a try) (λ k e. loop-IsBounded n k (try + 1) e)).0 in
      record { few = omega (arith, b.few); later = (d, b.later); ok = b.ok }

  -- The INVITE is sent at most five times: first without credentials, and from then on with them; if
  -- there is no user or no password, it is sent once; and only a response with status 200 is
  -- accepted.
  pub invite_lem :
      let w = invite parse_challenge digest credentials transmit in
      (rest : List Attempt) × (w.1 ≡ bare ∷ rest)
      × (length rest ≤ 4)
      × All (λ a. a ≢ bare) rest
      × (credentials ≡ false → rest ≡ [])
      × ((r : Response) → w.0 ≡ accepted r → r.status ≡ 200)
  unfolding invite invite_loop
  invite_lem =
      let again = invite_loop parse_challenge digest credentials transmit 4 in
      let (b, c) =
        after_response-Ends 4 again 1 (transmit bare 0) (λ k e. loop-IsBounded 4 k 1 e) in
      (
        (after_response parse_challenge digest credentials transmit again 1 (transmit bare 0)).1,
        refl,
        b.few,
        b.later,
        c,
        b.ok,
      )
