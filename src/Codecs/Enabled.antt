-- ===== src/Codecs/Enabled.antt =====
-- Which codecs a call has (pkg/sip/media_codecs.go).
use sip_server.Prelude.{
  ℕ, ◌≡◌, true, false, not, ◌&&◌, ◌⊎◌, inl, inr, none, some, List, [], ◌∷◌, Text, is_empty, All,
}
use sip_server.Codecs.{
  Known, has_name, Codec, MediaConfig, CodecSet, ConfigError, rate_of, full_name, is_none,
}

-- A listed codec that is enabled: it has a name and a rate.
abbrev pub IsEnabled : Known → List Text → Codec → Type 0
IsEnabled k names c =
    (r : ℕ) × (rate_of k c ≡ some r)
    × (is_empty c.name ≡ false)
    × (has_name (full_name c.name r) names ≡ true)

abbrev pub IsBad : Known → Codec → Type 0
IsBad k c = (is_empty c.name ≡ true) ⊎ (rate_of k c ≡ none)

abbrev pub Any : {A : Type 0} → (A → Type 0) → List A → Type 0
Any P [] = ⊥
Any P (x ∷ xs) = P x ⊎ Any P xs

abbrev Built : Known → List Codec → ConfigError ⊎ List Text → Type 0
Built k listed (inl e) = Any (IsBad k) listed
Built k listed (inr names) = All (IsEnabled k names) listed × (has_name k.dtmf names ≡ true)

module _ (lower : Text → Text) (k : Known) (registered : List Text) where
  -- What a configuration of codecs comes to.
  abbrev pub IsBuilt : MediaConfig → ConfigError ⊎ CodecSet → Type 0
  IsBuilt m (inl e) = (m.only_listed ≡ true) × (is_none m.listed ≡ true) ⊎ Any (IsBad k) m.listed
  IsBuilt m (inr s) =
      (s.from_default ≡ not m.only_listed)
      × (m.only_listed && is_none m.listed ≡ false)
      × All (IsEnabled k s.enabled) m.listed
      × (has_name k.dtmf s.enabled ≡ true)
