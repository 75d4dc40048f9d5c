-- ===== src/Dtls/Steps.antt =====
-- What the steps of reading an offer ensure (pkg/sip/dtls_sdp.go).
use sip_server.Prelude.{
  ℕ, ◌≡◌, ◌≢◌, refl, Bool, true, false, not, ◌&&◌, ◌||◌, ◌⊎◌, inl, inr, Option, none, some, List,
  [], ◌∷◌, arith, Text, text, text_eq, is_empty, Bool-cases, ◌==◌,
}
use sip_server.Dtls.{
  Attribute, Host, IceConfig, Failure, no_random, Fallible, ◌>>=◌, guard, need, find_attribute,
  is_sha256, fingerprint_of, host_port, candidate, ice_remote_candidate, ice_with, ice_of, role_of,
}

-- What holds of a result that is no error.
abbrev pub Ensures : {A : Type 0} → (A → Type 0) → Fallible A → Type 0
Ensures P (inl e) = Unit
Ensures P (inr a) = P a

pub bind-Ensures :
    {A B : Type 0} (P : A → Type 0) (Q : B → Type 0) (m : Fallible A) (f : A → Fallible B)
    → Ensures P m
    → ((a : A) → P a → Ensures Q (f a))
    → Ensures Q (m >>= f)
bind-Ensures P Q (inl e) f h k = tt
bind-Ensures P Q (inr a) f h k = k a h

pub need-Ensures : {A : Type 0} (o : Option A) (e : Failure) → Ensures (λ a. o ≡ some a) (need o e)
need-Ensures none e = tt
need-Ensures (some a) e = refl

pub guard-Ensures : (b : Bool) (e : Text) → Ensures (λ u. b ≡ true) (guard b e)
guard-Ensures true e = refl
guard-Ensures false e = tt

-- The role of the two ends.
pub data IsRole : Text → Bool → Type 0 where
  server : {t : Text} → t ≡ text "passive" → IsRole t false
  client : {t : Text} → t ≡ text "active" → IsRole t true

-- Which end has which role, by what the peer asks for.
abbrev pub AnswersSetup : Text → Bool → Type 0
AnswersSetup theirs is_client =
    ((is_client ≡ true) × (text_eq theirs (text "passive") ≡ true))
    ⊎ ((is_client ≡ false)
        × ((text_eq theirs (text "actpass") || text_eq theirs (text "active")) ≡ true))

pub role_of-Ensures :
    (setup : Text) → Ensures (λ r. IsRole r.0 r.1 × AnswersSetup setup r.1) (role_of setup)
unfolding role_of
role_of-Ensures setup =
    elim (Bool-cases (text_eq setup (text "actpass") || text_eq setup (text "active"))) [
      | inl a ↦ rw (role_of, a) (IsRole.server refl, inr (refl, refl))
      | inr n ↦ elim (Bool-cases (text_eq setup (text "passive"))) [
        | inl a ↦ rw (role_of, n, a) (IsRole.client refl, inl (refl, refl))
        | inr b ↦ rw (role_of, n, b) tt
      ]
    ]

not_empty :
    (u p : Text)
    → (not (is_empty u) && not (is_empty p)) ≡ true
    → (is_empty u ≡ false) × (is_empty p ≡ false)
not_empty u p v = ground arith

module _ (h : Host) where
  -- The fields of an attribute that name SHA-256, and its value.
  abbrev pub HasValue : List Text → Text → Type 0
  HasValue f v =
      (name : Text) × (f ≡ name ∷ v ∷ [])
      × (h.fold name (text "sha-256") ≡ true)
      × (is_sha256 v ≡ true)

  pub fingerprint_of-Ensures : (f : List Text) → Ensures (HasValue f) (fingerprint_of h f)
  unfolding fingerprint_of
  fingerprint_of-Ensures [] = tt
  fingerprint_of-Ensures (a ∷ []) = tt
  fingerprint_of-Ensures (a ∷ v ∷ []) = elim (Bool-cases (h.fold a (text "sha-256"))) [
    | inl y ↦ elim (Bool-cases (is_sha256 v)) [
      | inl x ↦ rw (fingerprint_of, y, x) (a, refl, y, x)
      | inr x ↦ rw (fingerprint_of, y, x) tt
    ]
    | inr n ↦ rw (fingerprint_of, n) tt
  ]
  fingerprint_of-Ensures (a ∷ v ∷ b ∷ m) = tt

  -- A host candidate is an IPv4 address with a port.
  abbrev pub IsRemote : Text × ℕ → Type 0
  IsRemote (a, n) = (n ≢ 0) × (t : Text) × (h.parse_addr t ≡ some (a, true))

  abbrev Candidate : Option (Text × ℕ) → Type 0
  Candidate none = Unit
  Candidate (some r) = IsRemote r

  host_port-Candidate :
      (t : Text) (o : Option (Text × Bool)) (n : Option ℕ)
      → h.parse_addr t ≡ o
      → Candidate (host_port o n)
  unfolding host_port
  host_port-Candidate t none n e = tt
  host_port-Candidate t (some (a, false)) n e = tt
  host_port-Candidate t (some (a, true)) none e = tt
  host_port-Candidate t (some (a, true)) (some n) e = elim (Bool-cases (n == 0)) [
    | inl z ↦ rw z tt
    | inr z ↦ rw z (ground (arith, z), t, e)
  ]

  from_Candidate-Ensures :
      (c : Option (Text × ℕ)) (rest : Fallible (Text × ℕ))
      → Candidate c
      → Ensures IsRemote rest
      → Ensures IsRemote (elim c [ none ↦ rest | some r ↦ inr r ])
  from_Candidate-Ensures none rest v w = w
  from_Candidate-Ensures (some r) rest v w = v

  candidate-IsRemote : (f : List Text) → Candidate (candidate h f)
  unfolding candidate host_port
  candidate-IsRemote (f0 ∷ f1 ∷ proto ∷ f3 ∷ addr ∷ port ∷ more) =
      elim (Bool-cases (h.fold proto (text "udp"))) [
        | inl y ↦
            rw (candidate, y) (host_port-Candidate addr (h.parse_addr addr) (h.scan_port port) refl)
        | inr n ↦ rw n tt
      ]
  candidate-IsRemote [] = tt
  candidate-IsRemote (a ∷ []) = tt
  candidate-IsRemote (a ∷ b ∷ []) = tt
  candidate-IsRemote (a ∷ b ∷ c ∷ []) = tt
  candidate-IsRemote (a ∷ b ∷ c ∷ d ∷ []) = tt
  candidate-IsRemote (a ∷ b ∷ c ∷ d ∷ e ∷ []) = tt

  ice_remote_candidate-IsRemote : (m : List Attribute) → Ensures IsRemote (ice_remote_candidate h m)
  unfolding ice_remote_candidate
  ice_remote_candidate-IsRemote [] = tt
  ice_remote_candidate-IsRemote (a ∷ m) =
      let ih = ice_remote_candidate-IsRemote m in
      elim (Bool-cases (text_eq a.key (text "candidate"))) [
        | inr n ↦ rw n ih
        | inl y ↦
            rw (ice_remote_candidate, y)
              (from_Candidate-Ensures (candidate h (h.fields a.val)) (ice_remote_candidate h m)
                (candidate-IsRemote (h.fields a.val)) ih)
      ]

  -- There is ICE if the medium asks for it. Then the peer's credentials are those of the medium, it has
  -- an address, and we drew credentials of our own.
  abbrev pub IsIce : List Attribute → Option IceConfig → Type 0
  IsIce m none = find_attribute m (text "ice-ufrag") ≡ none
  IsIce m (some i) =
      (find_attribute m (text "ice-ufrag") ≡ some i.remote_ufrag)
      × (find_attribute m (text "ice-pwd") ≡ some i.remote_pwd)
      × (is_empty i.remote_ufrag ≡ false)
      × (is_empty i.remote_pwd ≡ false)
      × IsRemote i.remote
      × (h.credential 8 ≡ some i.local_ufrag)
      × (h.credential 24 ≡ some i.local_pwd)

  ice_with-IsIce :
      (m : List Attribute) (u : Text) (o : Option Text)
      → find_attribute m (text "ice-ufrag") ≡ some u
      → find_attribute m (text "ice-pwd") ≡ o
      → Ensures (λ i. IsIce m (some i)) (ice_with h m u o)
  unfolding ice_with
  ice_with-IsIce m u none eu ep = tt
  ice_with-IsIce m u (some pwd) eu ep =
      let Q : IceConfig → Type 0 = λ i. IsIce m (some i) in
      let b : Bool = not (is_empty u) && not (is_empty pwd) in
      let k3 : Text × ℕ → Text → Text → Fallible IceConfig = λ r lu lp. inr (record {
        remote_ufrag = u;
        remote_pwd = pwd;
        remote = r;
        local_ufrag = lu;
        local_pwd = lp;
        local = none;
      }) in
      let k2 : Text × ℕ → Text → Fallible IceConfig =
        λ r lu. need (h.credential 24) no_random >>= k3 r lu in
      let k1 : Text × ℕ → Fallible IceConfig = λ r. need (h.credential 8) no_random >>= k2 r in
      let k0 : Unit {0} → Fallible IceConfig = λ g. ice_remote_candidate h m >>= k1 in
      bind-Ensures (λ g. b ≡ true) Q (guard b (text "incomplete ICE credentials")) k0
        (guard-Ensures b (text "incomplete ICE credentials"))
        (λ g v.
          bind-Ensures IsRemote Q (ice_remote_candidate h m) k1 (ice_remote_candidate-IsRemote m)
            (λ r vr.
              bind-Ensures (λ l. h.credential 8 ≡ some l) Q (need (h.credential 8) no_random) (k2 r)
                (need-Ensures (h.credential 8) no_random)
                (λ lu vu.
                  bind-Ensures (λ l. h.credential 24 ≡ some l) Q (need (h.credential 24) no_random)
                    (k3 r lu) (need-Ensures (h.credential 24) no_random)
                    (λ lp vp. (eu, ep, (not_empty u pwd v).0, (not_empty u pwd v).1, vr, vu, vp)))))

  pub ice_of-IsIce :
      (m : List Attribute) (o : Option Text)
      → find_attribute m (text "ice-ufrag") ≡ o
      → Ensures (IsIce m) (ice_of h m o)
  unfolding ice_of
  ice_of-IsIce m none e = e
  ice_of-IsIce m (some u) e =
      bind-Ensures (λ i. IsIce m (some i)) (IsIce m)
        (ice_with h m u (find_attribute m (text "ice-pwd"))) (λ i. inr (some i))
        (ice_with-IsIce m u (find_attribute m (text "ice-pwd")) e refl) (λ i v. v)
