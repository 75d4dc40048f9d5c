-- ===== src/Dtls/Add.antt =====
-- The answer to an offer of DTLS: `addDTLSAnswer` of pkg/sip/dtls_sdp.go.
use sip_server.Prelude.{
  ℕ, ◌%◌, Bool, true, false, ◌||◌, Option, none, some, List, [], ◌∷◌, ◌++◌, if◌then◌else◌, Text,
  text, text_eq, itoa,
}
use sip_server.Dtls.{Attribute, Media, Session, Host, IceConfig, Config}
pub mod Answer
pub mod Answered

-- The attributes that the answer writes itself.
is_ours : Text → Bool
is_ours k =
    text_eq k (text "crypto")
    || text_eq k (text "fingerprint")
    || text_eq k (text "setup")
    || text_eq k (text "rtcp-mux")

pub kept : List Attribute → List Attribute
unfolding is_ours
kept [] = []
kept (a ∷ m) = let rest = kept m in if is_ours a.key then rest else a ∷ rest

abbrev pub attr : Text → Text → Attribute
attr k v = record { key = k; val = v }

pub dtls_attributes : Config → List Attribute
dtls_attributes d =
    attr (text "fingerprint") (text "sha-256 " ++ d.certificate)
    ∷ attr (text "setup") d.local_setup
    ∷ attr (text "rtcp-mux") []
    ∷ []

abbrev candidate_text : Text → ℕ → Text
candidate_text ip port =
    text "1 1 udp 2130706431 " ++ (ip ++ (text " " ++ (itoa port ++ text " typ host")))

pub ice_attributes : IceConfig → Text → ℕ → List Attribute
ice_attributes i ip port =
    attr (text "ice-ufrag") i.local_ufrag
    ∷ attr (text "ice-pwd") i.local_pwd
    ∷ attr (text "candidate") (candidate_text ip port)
    ∷ []

-- The audio of an answer, before the ICE attributes.
with_dtls : Config → Media → Media
unfolding kept dtls_attributes
with_dtls d m = record m {
  protos = text "UDP" ∷ text "TLS" ∷ text "RTP" ∷ text "SAVPF" ∷ [];
  attributes = kept m.attributes ++ dtls_attributes d;
}

-- With ICE; the text is the error, after which the medium is left without ICE.
add_ice : Host → Option Text → Config → Media → Option IceConfig → Option Text × Media × Config
unfolding ice_attributes
add_ice h address d m none = (none, m, d)
add_ice h none d m (some i) = (some (text "answer has no connection address"), m, d)
add_ice h (some a) d m (some i) = elim (h.parse_addr a) [
  | none ↦ (some (text "invalid answer address"), m, d)
  | some (ip, v4) ↦ (
    none,
    record m { attributes = m.attributes ++ ice_attributes i ip (m.port % 65536) },
    record d { ice = some (record i { local = some (ip, m.port % 65536) }) },
  )
]

add_to : Host → Option Text → Config → List Media → Option Text × List Media × Config
unfolding with_dtls add_ice
add_to h address d [] = (some (text "answer has no audio media"), [], d)
add_to h address d (m ∷ ms) =
    let (e, rest, d') = add_to h address d ms in
    let (f, m', d'') = add_ice h address d (with_dtls d m) d.ice in
    if text_eq m.kind (text "audio") then (f, m' ∷ ms, d'') else (e, m ∷ rest, d')

-- `addDTLSAnswer`: the error, and what it leaves of the answer and of the configuration.
unfoldable pub add_dtls_answer : Host → Session → Config → Option Text × Session × Config
unfolding add_to
add_dtls_answer h s d =
    let (e, ms, d') = add_to h s.address d s.media in (e, record s { media = ms }, d')
