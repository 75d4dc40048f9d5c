-- ===== src/Dtls/Roles.antt =====
-- An answer of ours that the code reads as the offer of a peer (pkg/sip/dtls_sdp.go).
use sip_server.Prelude.{
  ◌≡◌, refl, sym, ap, ◌∙◌, Bool, true, false, inl, inr, Option, none, some, List, [], ◌∷◌, ◌++◌,
  arith, Text, text, text_eq, to_upper, Bool-cases, subst,
}
use sip_server.Dtls.{
  Media, Session, Host, Config, find_attribute, join, is_sha256, is_dtls, savpf, fingerprint_of,
  ice_of, role_of, offer_of, offer_in, parse_dtls_offer,
}
use sip_server.Dtls.Add.{add_dtls_answer}
use sip_server.Dtls.Add.Answer.{audio, IsAnswer}
use sip_server.Dtls.Add.Answered.{Answered, IsAnswered, add_dtls_answer-Answered}
use sip_server.Dtls.Steps.{IsRole}

-- What the peer's `strings` does with the texts of an answer of ours.
pub record Reads (p : Host) (fp : Text) : Type 0 where
  pub fold_self : (t : Text) → p.fold t t ≡ true
  pub splits : p.fields (text "sha-256 " ++ fp) ≡ text "sha-256" ∷ fp ∷ []
  pub lower_active : p.lower (text "active") ≡ text "active"
  pub lower_passive : p.lower (text "passive") ≡ text "passive"

-- The role of the other end.
abbrev pub opposite : Bool → Text × Bool
opposite true = (text "passive", false)
opposite false = (text "active", true)

-- What the peer then knows of us.
abbrev pub mirror : Config → Text → Config
mirror d c = record {
  remote_fingerprint = to_upper d.certificate;
  local_setup = (opposite d.is_client).0;
  is_client = (opposite d.is_client).1;
  certificate = c;
  ice = none;
}

role_of-opposite :
    (p : Host) (t : Text) (b : Bool) (fp : Text)
    → Reads p fp
    → IsRole t b
    → role_of (p.lower t) ≡ inr (opposite b)
unfolding role_of text text_eq
role_of-opposite p t false fp v (IsRole.server e) = rw (e, v.lower_passive)
role_of-opposite p t true fp v (IsRole.client e) = rw (e, v.lower_active)

not_audio : (p : Host) (m : Media) → text_eq m.kind (text "audio") ≡ false → is_dtls p m ≡ false
unfolding is_dtls
not_audio p m k = rw k

audio-kind :
    (ms : List Media) (n : Media) → audio ms ≡ some n → text_eq n.kind (text "audio") ≡ true
audio-kind [] n a = cc
audio-kind (m ∷ ms) n a = elim (Bool-cases (text_eq m.kind (text "audio"))) [
  | inl k ↦
      let e : m ≡ n = ground (arith, k, a) in
      ap (λ (x : Media). text_eq x.kind (text "audio")) (sym e) ∙ k
  | inr k ↦ audio-kind ms n (ground (arith, k, a))
]

-- What is known of the answered audio by itself.
answered :
    (d : Config) (ms : List Media) (e : Option Text) (ns : List Media) (d' : Config) (n : Media)
    → e ≡ none
    → audio ns ≡ some n
    → Answered d ms (e, ns, d')
    → (text_eq n.kind (text "audio") ≡ true) × IsAnswered d n n
answered d ms (some x) ns d' n ok a v = absurd (ground (arith, ok))
answered d ms none ns d' n ok a (m, k, am, an, i) =
    let e : k ≡ n = ground (arith, an, a) in
    let w : IsAnswered d k k = record {
      same_kind = refl;
      same_port = refl;
      over_dtls = i.over_dtls;
      answer = i.answer;
    } in
    (audio-kind ns n a, subst (λ x. IsAnswered d x x) e w)

module _ (p : Host) (d : Config) (v : Reads p d.certificate)
    (sha : is_sha256 d.certificate ≡ true) where
  offer_of-mirror :
      (s : Session) (n : Media) (c : Text)
      → IsRole d.local_setup d.is_client
      → IsAnswer d n.attributes
      → find_attribute n.attributes (text "ice-ufrag") ≡ none
      → offer_of p s n (some c) ≡ inr (mirror d c)
  unfolding offer_of fingerprint_of ice_of
  offer_of-mirror s n c r a i = rw (
    a.says_fingerprint,
    v.splits,
    v.fold_self (text "sha-256"),
    sha,
    a.says_setup,
    a.says_mux,
    i,
    role_of-opposite p d.local_setup d.is_client d.certificate v r,
  )

  savpf-is_dtls :
      (n : Media)
      → text_eq n.kind (text "audio") ≡ true
      → n.protos ≡ text "UDP" ∷ text "TLS" ∷ text "RTP" ∷ text "SAVPF" ∷ []
      → is_dtls p n ≡ true
  unfolding is_dtls join text
  savpf-is_dtls n k e = rw (k, e) (v.fold_self savpf)

  offer_in-mirror :
      (s : Session) (ms : List Media) (n : Media) (c : Text)
      → audio ms ≡ some n
      → is_dtls p n ≡ true
      → offer_of p s n (some c) ≡ inr (mirror d c)
      → offer_in p s ms (some c) ≡ inr (some (mirror d c))
  unfolding offer_in
  offer_in-mirror s [] n c a y o = cc
  offer_in-mirror s (m ∷ ms) n c a y o = elim (Bool-cases (text_eq m.kind (text "audio"))) [
    | inl k ↦
        let e : m ≡ n = ground (arith, k, a) in
        rw (offer_in, ap (is_dtls p) e ∙ y, ap (λ x. offer_of p s x (some c)) e ∙ o)
    | inr k ↦ rw (offer_in, not_audio p m k) (offer_in-mirror s ms n c (ground (arith, k, a)) y o)
  ]

-- The answer to an offer, when the peer reads it as the code reads an offer, and neither has ICE: the
-- peer accepts it, knows the fingerprint of our certificate in upper case, and has the other role; so
-- exactly one of the ends is the client.
pub parse_dtls_offer-add_dtls_answer :
    (h p : Host) (s : Session) (d : Config) (n : Media) (c : Text)
    → Reads p d.certificate
    → is_sha256 d.certificate ≡ true
    → IsRole d.local_setup d.is_client
    → (add_dtls_answer h s d).0 ≡ none
    → audio (add_dtls_answer h s d).1.media ≡ some n
    → find_attribute n.attributes (text "ice-ufrag") ≡ none
    → parse_dtls_offer p (some (add_dtls_answer h s d).1) (some c) ≡ inr (some (mirror d c))
unfolding parse_dtls_offer
parse_dtls_offer-add_dtls_answer h p s d n c v sha r ok a i =
    let s' = (add_dtls_answer h s d).1 in
    let k : (text_eq n.kind (text "audio") ≡ true) × IsAnswered d n n =
      answered d s.media (add_dtls_answer h s d).0 s'.media (add_dtls_answer h s d).2 n ok a
        (add_dtls_answer-Answered h s d) in
    offer_in-mirror p d v sha s' s'.media n c a (savpf-is_dtls p d v sha n k.0 k.1.over_dtls)
      (offer_of-mirror p d v sha s' n c r k.1.answer i)
