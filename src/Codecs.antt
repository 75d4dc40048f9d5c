-- ===== src/Codecs.antt =====
-- The codecs of a call: pkg/sip/media_codecs.go, with `sdpEncryption` of pkg/sip/types.go. The codec set
-- of the media library is the base that it is made from and the calls of `SetEnabled`, in their order;
-- the names of the library's codecs and strings.ToLower are parameters.
use sip_server.Prelude.{
  ℕ, Bool, true, false, not, ◌&&◌, ◌||◌, ◌⊎◌, inl, inr, Option, none, some, List, [], ◌∷◌, ◌++◌,
  ◌==◌, if◌then◌else◌, Text, text, text_eq, is_empty, itoa, has_prefix,
}
pub mod Enabled
mod Tests

-- The name of DTMF, and those of the codecs that have a default rate.
pub record Known : Type 0 where
  pub dtmf : Text
  pub a_law : Text
  pub u_law : Text
  pub g722 : Text
  pub amrwb : Text

-- An offered payload type, with the SDP name of its codec if there is one.
pub record Offered : Type 0 where
  pub type : ℕ
  pub codec : Option Text

pub record MediaDesc : Type 0 where
  pub codecs : List Offered
  pub dtmf_type : ℕ

unfoldable pub has_name : Text → List Text → Bool
has_name t [] = false
has_name t (u ∷ us) = text_eq t u || has_name t us

abbrev pub codec_other : Text
codec_other = text "other"

abbrev name_of : Option Text → Text
name_of none = codec_other
name_of (some t) = t

-- The loop, with the names so far.
add_names : ℕ → List Offered → List Text → List Text
add_names dtmf [] names = names
add_names dtmf (c ∷ cs) names = add_names dtmf cs (
    if not (dtmf == 0) && c.type == dtmf
    then names
    else if has_name (name_of c.codec) names
    then names
    else names ++ (name_of c.codec ∷ []))

unfoldable pub peer_codec_names : Known → MediaDesc → List Text
unfolding add_names
peer_codec_names k d =
    let names = add_names d.dtmf_type d.codecs [] in
    if d.dtmf_type == 0 then names else names ++ (k.dtmf ∷ [])

-- livekit.SIPMediaEncryption; `sdpEncryption` refuses what it does not know.
pub data Encryption : Type 0 where
  disable allow require unknown : Encryption

unfoldable pub sdp_encryption : Encryption → Option Encryption
sdp_encryption unknown = none
sdp_encryption e = some e

-- What is read of livekit.SIPMediaConfig; a timeout in nanoseconds that is not positive is 0.
pub record Codec : Type 0 where
  pub name : Text
  pub rate : ℕ

pub record MediaConfig : Type 0 where
  pub encryption : Encryption
  pub only_listed : Bool
  pub listed : List Codec
  pub timeout : Option ℕ

-- Whether the set starts from the default codecs, and what is enabled in it.
pub record CodecSet : Type 0 where
  pub from_default : Bool
  pub enabled : List Text

pub data ConfigError : Type 0 where
  bad_encryption no_codecs no_name no_rate : ConfigError

-- `sipMediaConfig`
pub record SipMediaConfig : Type 0 where
  pub enc : Encryption
  pub codec_set : CodecSet
  pub media_timeout : ℕ

default_rate : Known → Text → Option ℕ
default_rate k name =
    if text_eq name k.a_law || text_eq name k.u_law
    then some 8000
    else if text_eq name k.g722
    then some 8000
    else if text_eq name k.amrwb
    then some 16000
    else none

unfoldable pub rate_of : Known → Codec → Option ℕ
unfolding default_rate
rate_of k c = if c.rate == 0 then default_rate k c.name else some c.rate

abbrev pub full_name : Text → ℕ → Text
full_name name rate = name ++ (text "/" ++ itoa rate)

made : Bool → ConfigError ⊎ List Text → ConfigError ⊎ CodecSet
made only (inl e) = inl e
made only (inr names) = inr (record { from_default = not only; enabled = names })

abbrev pub is_none : List Codec → Bool
is_none [] = true
is_none (c ∷ cs) = false

timeout_of : ℕ → Option ℕ → ℕ
timeout_of default none = default
timeout_of default (some t) = if t == 0 then default else t

with_codecs : ℕ → Option ℕ → Encryption → ConfigError ⊎ CodecSet → ConfigError ⊎ SipMediaConfig
unfolding timeout_of
with_codecs default t e (inl x) = inl x
with_codecs default t e (inr s) =
    inr (record { enc = e; codec_set = s; media_timeout = timeout_of default t })

module _ (lower : Text → Text) where
  resolve_in : Text → List Text → Text
  resolve_in name [] = []
  resolve_in name (c ∷ cs) =
      let rest = resolve_in name cs in
      if text_eq (lower c) name
      then []
      else if has_prefix (name ++ text "/") (lower c)
      then c
      else rest

  -- `resolveSDPName`, by the registered names.
  unfoldable pub resolve_sdp_name : List Text → Text → Text
  unfolding resolve_in
  resolve_sdp_name registered name = resolve_in (lower name) registered

  -- What one codec enables.
  names_of : List Text → Text → List Text
  names_of registered name =
      let sdp_name = resolve_sdp_name registered name in
      if is_empty sdp_name then name ∷ [] else name ∷ sdp_name ∷ []

  add_codecs : Known → List Text → List Codec → ConfigError ⊎ List Text
  unfolding names_of
  add_codecs k registered [] = inr (k.dtmf ∷ [])
  add_codecs k registered (c ∷ cs) =
      let rest = add_codecs k registered cs in
      if is_empty c.name then inl no_name else elim (rate_of k c) [
        | none ↦ inl no_rate
        | some r ↦ elim rest [
          | inl e ↦ inl e
          | inr names ↦ inr (names_of registered (full_name c.name r) ++ names)
        ]
      ]

  unfoldable pub codec_set_of : Known → List Text → MediaConfig → ConfigError ⊎ CodecSet
  unfolding add_codecs made
  codec_set_of k registered m =
      if m.only_listed && is_none m.listed
      then inl no_codecs
      else made m.only_listed (add_codecs k registered m.listed)

  unfoldable pub new_media_config :
      Known → List Text → MediaConfig → ℕ → ConfigError ⊎ SipMediaConfig
  unfolding with_codecs
  new_media_config k registered m default = elim (sdp_encryption m.encryption) [
    | none ↦ inl bad_encryption
    | some e ↦ with_codecs default m.timeout e (codec_set_of k registered m)
  ]
