-- ===== src/Dtls/Offer.antt =====
-- What an offer must say to be answered over DTLS (pkg/sip/dtls_sdp.go).
use sip_server.Prelude.{
  length, arith, ◌≡◌, refl, Bool, true, false, inl, inr, Option, none, some, List, [], ◌∷◌,
  if◌then◌else◌, Text, text, to_upper, is_some, Bool-cases,
}
use sip_server.Dtls.Steps.{
  Ensures, bind-Ensures, need-Ensures, guard-Ensures, IsRole, AnswersSetup, role_of-Ensures,
  HasValue, fingerprint_of-Ensures, IsIce, ice_of-IsIce,
}
use sip_server.Dtls.{
  without, all_hex, Media, Session, Host, IceConfig, Config, invalid_sdp, Fallible, ◌>>=◌, guard,
  need, find_attribute, or_else, is_sha256, is_dtls, fingerprint_of, ice_of, role_of, offer_of,
  offer_in, parse_dtls_offer,
}

sha256-digits :
    (v : Text)
    → is_sha256 v ≡ true
    → (length (without b':' v) ≡ 64) × (all_hex (without b':' v) ≡ true)
unfolding is_sha256
sha256-digits v e = ground arith

module _ (h : Host) where
  -- The first attribute of that key of the medium, or else of the session.
  abbrev pub attribute_of : Session → Media → Text → Option Text
  attribute_of s m key =
      or_else (find_attribute m.attributes key) (find_attribute s.session_attributes key)

  -- The fingerprint that is kept is the one that the offer states: a SHA-256, in upper case.
  pub record IsStated (s : Session) (m : Media) (kept : Text) : Type 0 where
    pub stated_text : Text
    pub stated : attribute_of s m (text "fingerprint") ≡ some stated_text
    pub name : Text
    pub val : Text
    pub parts : h.fields stated_text ≡ name ∷ val ∷ []
    pub is_named : h.fold name (text "sha-256") ≡ true
    pub digits : length (without b':' val) ≡ 64
    pub are_hex : all_hex (without b':' val) ≡ true
    pub kept_upper : kept ≡ to_upper val

  -- What an offer that is accepted says: we have a certificate, the fingerprint of the offer is a
  -- SHA-256 and is kept, RTCP has the port of RTP, our role is the opposite of the one that the offer
  -- asks for, and ICE is complete where it is asked for.
  pub record IsSecure (s : Session) (m : Media) (cert : Option Text) (d : Config) : Type 0 where
    pub certified : cert ≡ some d.certificate
    pub fingerprint : IsStated s m d.remote_fingerprint
    pub muxed : is_some (find_attribute m.attributes (text "rtcp-mux")) ≡ true
    pub role : IsRole d.local_setup d.is_client
    pub setup :
        (t : Text) × (attribute_of s m (text "setup") ≡ some t)
        × AnswersSetup (h.lower t) d.is_client
    pub ice_complete : IsIce h m.attributes d.ice

  from_attribute-IsStated :
      (s : Session) (m : Media) (fp v : Text)
      → attribute_of s m (text "fingerprint") ≡ some fp
      → HasValue h (h.fields fp) v
      → IsStated s m (to_upper v)
  from_attribute-IsStated s m fp v e (name, f, n, x) = record {
    stated_text = fp;
    stated = e;
    name = name;
    val = v;
    parts = f;
    is_named = n;
    digits = (sha256-digits v x).0;
    are_hex = (sha256-digits v x).1;
    kept_upper = refl;
  }

  offer_of-IsSecure :
      (s : Session) (m : Media) (cert : Option Text)
      → Ensures (IsSecure s m cert) (offer_of h s m cert)
  unfolding offer_of
  offer_of-IsSecure s m cert =
      let fps : Option Text =
        or_else (find_attribute m.attributes (text "fingerprint"))
          (find_attribute s.session_attributes (text "fingerprint")) in
      let setups : Option Text =
        or_else (find_attribute m.attributes (text "setup"))
          (find_attribute s.session_attributes (text "setup")) in
      let mux : Bool = is_some (find_attribute m.attributes (text "rtcp-mux")) in
      let ices : Fallible (Option IceConfig) =
        ice_of h m.attributes (find_attribute m.attributes (text "ice-ufrag")) in
      let Q : Config → Type 0 = IsSecure s m cert in
      let k6 : Text → Text → Option IceConfig → Text × Bool → Fallible Config = λ c v ice role.
        inr (record {
          remote_fingerprint = to_upper v;
          local_setup = role.0;
          is_client = role.1;
          certificate = c;
          ice = ice;
        }) in
      let k5 : Text → Text → Text → Option IceConfig → Fallible Config =
        λ c v setup ice. role_of (h.lower setup) >>= k6 c v ice in
      let k4 : Text → Text → Text → Unit {0} → Fallible Config =
        λ c v setup g. ices >>= k5 c v setup in
      let k3 : Text → Text → Text → Fallible Config =
        λ c v setup. guard mux (text "rtcp-mux required") >>= k4 c v setup in
      let k2 : Text → Text → Fallible Config =
        λ c v. need setups (invalid_sdp (text "setup missing")) >>= k3 c v in
      let k1 : Text → Text → Fallible Config = λ c fp. fingerprint_of h (h.fields fp) >>= k2 c in
      let k0 : Text → Fallible Config =
        λ c. need fps (invalid_sdp (text "fingerprint missing")) >>= k1 c in
      bind-Ensures (λ c. cert ≡ some c) Q
        (need cert (invalid_sdp (text "DTLS-SRTP is not configured"))) k0 (need-Ensures cert _)
        (λ c vc.
          bind-Ensures (λ fp. fps ≡ some fp) Q (need fps (invalid_sdp (text "fingerprint missing")))
            (k1 c) (need-Ensures fps _)
            (λ fp vf.
              bind-Ensures (HasValue h (h.fields fp)) Q (fingerprint_of h (h.fields fp)) (k2 c)
                (fingerprint_of-Ensures h (h.fields fp))
                (λ v vv.
                  bind-Ensures (λ t. setups ≡ some t) Q
                    (need setups (invalid_sdp (text "setup missing"))) (k3 c v)
                    (need-Ensures setups _)
                    (λ setup vs.
                      bind-Ensures (λ g. mux ≡ true) Q (guard mux (text "rtcp-mux required"))
                        (k4 c v setup) (guard-Ensures mux _)
                        (λ g vg.
                          bind-Ensures (IsIce h m.attributes) Q ices (k5 c v setup)
                            (ice_of-IsIce h m.attributes
                              (find_attribute m.attributes (text "ice-ufrag")) refl)
                            (λ ice vi.
                              bind-Ensures (λ r. IsRole r.0 r.1 × AnswersSetup (h.lower setup) r.1)
                                Q (role_of (h.lower setup)) (k6 c v ice)
                                (role_of-Ensures (h.lower setup))
                                (λ r vr. record {
                                  certified = vc;
                                  fingerprint = from_attribute-IsStated s m fp v vf vv;
                                  muxed = vg;
                                  role = vr.0;
                                  setup = (setup, vs, vr.1);
                                  ice_complete = vi;
                                })))))))

  abbrev pub first_dtls : List Media → Option Media
  first_dtls [] = none
  first_dtls (m ∷ ms) = if is_dtls h m then some m else first_dtls ms

  -- The first medium of DTLS audio decides; without one, there is nothing to answer.
  abbrev pub Offered : Session → List Media → Option Text → Option Config → Type 0
  Offered s ms cert none = first_dtls ms ≡ none
  Offered s ms cert (some d) = (m : Media) × (first_dtls ms ≡ some m) × IsSecure s m cert d

  later-Offered :
      (s : Session) (m : Media) (ms : List Media) (cert : Option Text)
      (r : Fallible (Option Config))
      → is_dtls h m ≡ false
      → Ensures (Offered s ms cert) r
      → Ensures (Offered s (m ∷ ms) cert) r
  later-Offered s m ms cert (inl e) n v = tt
  later-Offered s m ms cert (inr none) n v = rw n v
  later-Offered s m ms cert (inr (some d)) n v = (v.0, rw n v.1, v.2)

  offer_in-Offered :
      (s : Session) (ms : List Media) (cert : Option Text)
      → Ensures (Offered s ms cert) (offer_in h s ms cert)
  unfolding offer_in
  offer_in-Offered s [] cert = refl
  offer_in-Offered s (m ∷ ms) cert =
      let ih = offer_in-Offered s ms cert in
      elim (Bool-cases (is_dtls h m)) [
        | inl y ↦
            rw (offer_in, y)
              (bind-Ensures (IsSecure s m cert) (Offered s (m ∷ ms) cert) (offer_of h s m cert)
                (λ d. inr (some d)) (offer_of-IsSecure s m cert) (λ d v. (m, rw y, v)))
        | inr n ↦ rw (offer_in, n) (later-Offered s m ms cert (offer_in h s ms cert) n ih)
      ]

  -- If the SDP of an offer is accepted: without DTLS audio there is no configuration. Else the first
  -- such medium has `rtcp-mux`, and we have a certificate; the fingerprint attribute of the medium, or
  -- else of the session, names SHA-256, its value is 64 hexadecimal digits without its colons, and that
  -- value is kept in upper case; we are the client and active if the setup attribute says passive, and
  -- passive if it says active or actpass. There is ICE if and only if the medium has a user fragment;
  -- then that and its password are kept, neither is empty, the peer has an IPv4 address and a port, and
  -- our credentials are drawn.
  pub parse_dtls_offer-Offered :
      (s : Session) (cert : Option Text)
      → Ensures (Offered s s.media cert) (parse_dtls_offer h (some s) cert)
  unfolding parse_dtls_offer
  parse_dtls_offer-Offered s cert = offer_in-Offered s s.media cert
