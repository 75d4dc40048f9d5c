-- ===== src/Dtls.antt =====
-- DTLS-SRTP in the SDP of a call: pkg/sip/dtls_sdp.go. The SDP library is a parameter, with its
-- sessions as records of what is read of them; so are the parsers of addresses and ports, and what
-- `strings` does on Unicode (`Host`). The certificate is the fingerprint of its key.
use sip_server.Prelude.{
  ℕ, suc, ◌+◌, Bool, true, false, not, ◌&&◌, ◌||◌, ◌⊎◌, inl, inr, Option, none, some, List, [], ◌∷◌,
  ◌++◌, length, ◌%◌, leb, ◌==◌, if◌then◌else◌, Text, text, text_eq, is_empty, itoa, to_upper,
  is_some,
}
pub mod Add
pub mod Offer
pub mod Steps
pub mod Roles
mod Tests

pub record Attribute : Type 0 where
  pub key : Text
  pub val : Text

-- psdp.MediaDescription and SessionDescription, with the address of the connection.
pub record Media : Type 0 where
  pub kind : Text
  pub protos : List Text
  pub port : ℕ
  pub attributes : List Attribute

pub record Session : Type 0 where
  pub session_attributes : List Attribute
  pub media : List Media
  pub address : Option Text

-- `fold` is strings.EqualFold, `lower` strings.ToLower, `fields` strings.Fields; `parse_addr` gives
-- an address and whether it is IPv4, and `scan_port` what fmt.Sscanf reads for "%d".
pub record Host : Type 0 where
  pub fold : Text → Text → Bool
  pub lower : Text → Text
  pub fields : Text → List Text
  pub parse_addr : Text → Option (Text × Bool)
  pub scan_port : Text → Option ℕ
  -- `iceCredential`, by the bytes that are drawn
  pub credential : ℕ → Option Text

-- `dtlsICEConfig`, with its addresses; the local one is set by the answer.
pub record IceConfig : Type 0 where
  pub remote_ufrag : Text
  pub remote_pwd : Text
  pub remote : Text × ℕ
  pub local_ufrag : Text
  pub local_pwd : Text
  pub local : Option (Text × ℕ)

-- `dtlsMediaConfig`
pub record Config : Type 0 where
  pub remote_fingerprint : Text
  pub local_setup : Text
  pub is_client : Bool
  pub certificate : Text
  pub ice : Option IceConfig

-- An errDTLSSDP with its text, or a failure of the random numbers.
pub data Failure : Type 0 where
  invalid_sdp : Text → Failure
  no_random : Failure

abbrev pub Fallible : Type 0 → Type 0
Fallible A = Failure ⊎ A

infixl 5 ◌>>=◌ ◌>>◌
abbrev pub ◌>>=◌ : {A B : Type 0} → Fallible A → (A → Fallible B) → Fallible B
inl e >>= f = inl e
inr a >>= f = f a

abbrev pub ◌>>◌ : {B : Type 0} → Fallible (Unit {0}) → Fallible B → Fallible B
m >> k = m >>= λ _. k

abbrev pub guard : Bool → Text → Fallible (Unit {0})
guard true e = inr tt
guard false e = inl (invalid_sdp e)

abbrev pub need : {A : Type 0} → Option A → Failure → Fallible A
need none e = inl e
need (some a) e = inr a

-- `mediaAttribute` and `sessionAttribute`: the first value of a key.
unfoldable pub find_attribute : List Attribute → Text → Option Text
find_attribute [] k = none
find_attribute (a ∷ m) k =
    let rest = find_attribute m k in if text_eq a.key k then some a.val else rest

abbrev or_else : Option Text → Option Text → Option Text
or_else (some v) o = some v
or_else none o = o

-- strings.Join
join : Text → List Text → Text
join sep [] = []
join sep (t ∷ []) = t
join sep (t ∷ u ∷ ts) = t ++ (sep ++ join sep (u ∷ ts))

pub without : ℕ → Text → Text
without d [] = []
without d (c ∷ s) = let rest = without d s in if c == d then rest else c ∷ rest

is_hex : ℕ → Bool
is_hex c = (leb b'0' c && leb c b'9') || (leb b'a' c && leb c b'f') || (leb b'A' c && leb c b'F')

pub all_hex : Text → Bool
unfolding is_hex
all_hex [] = true
all_hex (c ∷ s) = is_hex c && all_hex s

-- hex.DecodeString succeeds, with the 32 bytes of a SHA-256.
unfoldable pub is_sha256 : Text → Bool
unfolding all_hex without
is_sha256 v = let h = without b':' v in all_hex h && length h == 64

abbrev pub savpf : Text
savpf = text "UDP/TLS/RTP/SAVPF"

-- One candidate: a UDP address of IPv4 with a port.
host_port : Option (Text × Bool) → Option ℕ → Option (Text × ℕ)
host_port (some (a, true)) (some n) = if n == 0 then none else some (a, n)
host_port _ _ = none

-- Our role, and whether we are the client.
pub role_of : Text → Fallible (Text × Bool)
role_of setup =
    if text_eq setup (text "actpass") || text_eq setup (text "active")
    then inr (text "passive", false)
    else if text_eq setup (text "passive")
    then inr (text "active", true)
    else inl (invalid_sdp (text "unsupported setup role"))

module _ (h : Host) where
  pub is_dtls : Media → Bool
  unfolding join
  is_dtls m = text_eq m.kind (text "audio") && h.fold (join (text "/") m.protos) savpf

  -- The value of a fingerprint attribute.
  pub fingerprint_of : List Text → Fallible Text
  fingerprint_of (name ∷ v ∷ []) =
      if not (h.fold name (text "sha-256"))
      then inl (invalid_sdp (text "SHA-256 fingerprint required"))
      else if is_sha256 v
      then inr v
      else inl (invalid_sdp (text "malformed fingerprint"))
  fingerprint_of _ = inl (invalid_sdp (text "SHA-256 fingerprint required"))

  candidate : List Text → Option (Text × ℕ)
  unfolding host_port
  candidate (f0 ∷ f1 ∷ proto ∷ f3 ∷ addr ∷ port ∷ more) =
      if h.fold proto (text "udp") then host_port (h.parse_addr addr) (h.scan_port port) else none
  candidate _ = none

  ice_remote_candidate : List Attribute → Fallible (Text × ℕ)
  unfolding candidate
  ice_remote_candidate [] = inl (invalid_sdp (text "ICE candidate missing"))
  ice_remote_candidate (a ∷ m) =
      let rest = ice_remote_candidate m in
      if text_eq a.key (text "candidate")
      then elim (candidate (h.fields a.val)) [ none ↦ rest | some r ↦ inr r ]
      else rest

  ice_with : List Attribute → Text → Option Text → Fallible IceConfig
  unfolding ice_remote_candidate
  ice_with m ufrag none = inl (invalid_sdp (text "incomplete ICE credentials"))
  ice_with m ufrag (some pwd) = do
    guard (not (is_empty ufrag) && not (is_empty pwd)) (text "incomplete ICE credentials")
    remote ← ice_remote_candidate m
    lu ← need (h.credential 8) no_random
    lp ← need (h.credential 24) no_random
    inr (record {
      remote_ufrag = ufrag;
      remote_pwd = pwd;
      remote = remote;
      local_ufrag = lu;
      local_pwd = lp;
      local = none;
    })

  pub ice_of : List Attribute → Option Text → Fallible (Option IceConfig)
  unfolding ice_with
  ice_of m none = inr none
  ice_of m (some ufrag) = do i ← ice_with m ufrag (find_attribute m (text "ice-pwd")); inr (some i)

  unfoldable pub offer_of : Session → Media → Option Text → Fallible Config
  unfolding fingerprint_of ice_of role_of
  offer_of s m cert = do
    c ← need cert (invalid_sdp (text "DTLS-SRTP is not configured"))
    fp ←
        need
          (or_else (find_attribute m.attributes (text "fingerprint"))
            (find_attribute s.session_attributes (text "fingerprint")))
          (invalid_sdp (text "fingerprint missing"))
    v ← fingerprint_of (h.fields fp)
    setup ←
        need
          (or_else (find_attribute m.attributes (text "setup"))
            (find_attribute s.session_attributes (text "setup")))
          (invalid_sdp (text "setup missing"))
    guard (is_some (find_attribute m.attributes (text "rtcp-mux"))) (text "rtcp-mux required")
    ice ← ice_of m.attributes (find_attribute m.attributes (text "ice-ufrag"))
    role ← role_of (h.lower setup)
    inr (record {
      remote_fingerprint = to_upper v;
      local_setup = role.0;
      is_client = role.1;
      certificate = c;
      ice = ice;
    })

  offer_in : Session → List Media → Option Text → Fallible (Option Config)
  unfolding is_dtls
  offer_in s [] cert = inr none
  offer_in s (m ∷ ms) cert =
      let rest = offer_in s ms cert in
      if is_dtls m then (do d ← offer_of s m cert; inr (some d)) else rest

  -- `parseDTLSOffer` of a session that the SDP library has read.
  unfoldable pub parse_dtls_offer : Option Session → Option Text → Fallible (Option Config)
  unfolding offer_in
  parse_dtls_offer none cert = inl (invalid_sdp (text "malformed SDP"))
  parse_dtls_offer (some s) cert = offer_in s s.media cert
