-- ===== src/Dtls/Add/Answered.antt =====
-- What `addDTLSAnswer` does to a session (pkg/sip/dtls_sdp.go).
use sip_server.Prelude.{
  ◌%◌, ◌≡◌, refl, true, false, Option, none, some, List, [], ◌∷◌, Text, text, text_eq, Bool-cases,
  Option-cases, inl, inr,
}
use sip_server.Dtls.{Media, Session, Host, IceConfig, Config}
use sip_server.Dtls.Add.{dtls_attributes, with_dtls, add_ice, add_to, add_dtls_answer}
use sip_server.Dtls.Add.Answer.{audio, IsAnswer, own-IsAnswer, kept-IsAnswer, ice-IsAnswer}

-- The answered medium, and what was there before.
pub record IsAnswered (d : Config) (m n : Media) : Type 0 where
  pub same_kind : n.kind ≡ m.kind
  pub same_port : n.port ≡ m.port
  pub over_dtls : n.protos ≡ text "UDP" ∷ text "TLS" ∷ text "RTP" ∷ text "SAVPF" ∷ []
  pub answer : IsAnswer d n.attributes

-- The first audio, if there was no error.
abbrev pub Answered : Config → List Media → Option Text × List Media × Config → Type 0
Answered d ms (some e, ns, d') = Unit
Answered d ms (none, ns, d') =
    (m : Media) × (n : Media) × (audio ms ≡ some m) × (audio ns ≡ some n) × IsAnswered d m n

abbrev Added : Config → Media → Option Text × Media × Config → Type 0
Added d m (some e, n, d') = Unit
Added d m (none, n, d') = IsAnswered d m n

with_dtls-IsAnswered : (d : Config) (m : Media) → IsAnswered d m (with_dtls d m)
unfolding with_dtls
with_dtls-IsAnswered d m = record {
  same_kind = refl;
  same_port = refl;
  over_dtls = refl;
  answer = kept-IsAnswer d (dtls_attributes d) (own-IsAnswer d) m.attributes;
}

add_ice-Added :
    (h : Host) (address : Option Text) (d : Config) (m n : Media) (i : Option IceConfig)
    → IsAnswered d m n
    → Added d m (add_ice h address d n i)
unfolding add_ice
add_ice-Added h address d m n none v = v
add_ice-Added h none d m n (some i) v = tt
add_ice-Added h (some a) d m n (some i) v = elim (Option-cases (h.parse_addr a)) [
  | inl e ↦ rw (add_ice, e) tt
  | inr (p, e) ↦
      rw (add_ice, e)
        (record {
          same_kind = v.same_kind;
          same_port = v.same_port;
          over_dtls = v.over_dtls;
          answer = ice-IsAnswer d n.attributes v.answer i p.0 (n.port % 65536);
        })
]

first-Answered :
    (d : Config) (m : Media) (ms : List Media) (r : Option Text × Media × Config)
    → text_eq m.kind (text "audio") ≡ true
    → Added d m r
    → Answered d (m ∷ ms) (r.0, r.1 ∷ ms, r.2)
first-Answered d m ms (some e, n, d') a v = tt
first-Answered d m ms (none, n, d') a v = (m, n, rw a, rw (v.same_kind, a), v)

later-Answered :
    (d : Config) (m : Media) (ms : List Media) (r : Option Text × List Media × Config)
    → text_eq m.kind (text "audio") ≡ false
    → Answered d ms r
    → Answered d (m ∷ ms) (r.0, m ∷ r.1, r.2)
later-Answered d m ms (some e, ns, d') a v = tt
later-Answered d m ms (none, ns, d') a v = (v.0, v.1, rw a v.2, rw a v.3, v.4)

add_to-Answered :
    (h : Host) (address : Option Text) (d : Config) (ms : List Media)
    → Answered d ms (add_to h address d ms)
unfolding add_to
add_to-Answered h address d [] = tt
add_to-Answered h address d (m ∷ ms) =
    let k = add_ice-Added h address d m (with_dtls d m) d.ice (with_dtls-IsAnswered d m) in
    let ih = add_to-Answered h address d ms in
    elim (Bool-cases (text_eq m.kind (text "audio"))) [
      | inl a ↦ rw (add_to, a) (first-Answered d m ms _ a k)
      | inr a ↦ rw (add_to, a) (later-Answered d m ms _ a ih)
    ]

-- If `addDTLSAnswer` succeeds, the answer has an audio, and the first one is sent over DTLS: it has
-- the fingerprint of our certificate, our role and `rtcp-mux`, each exactly once whatever was there
-- before, no key of SDES, and its kind and port are as before.
pub add_dtls_answer-Answered :
    (h : Host) (s : Session) (d : Config)
    → let r = add_dtls_answer h s d in Answered d s.media (r.0, r.1.media, r.2)
unfolding add_dtls_answer
add_dtls_answer-Answered h s d = add_to-Answered h s.address d s.media
