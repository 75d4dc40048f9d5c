-- ===== src/Dtls/Add/Answer.antt =====
-- What the answer of a DTLS call says (pkg/sip/dtls_sdp.go).
use sip_server.Prelude.{
  ℕ, suc, ◌+◌, ◌≡◌, refl, sym, ◌∙◌, true, inl, inr, Option, none, some, List, [], ◌∷◌, ◌++◌, arith,
  if◌then◌else◌, Text, text, text_eq, text_eq→eq, Bool-cases,
}
use sip_server.Dtls.{Attribute, Media, IceConfig, Config, find_attribute}
use sip_server.Dtls.Add.{is_ours, kept, dtls_attributes, ice_attributes}

-- How often a key stands among attributes.
abbrev pub count : Text → List Attribute → ℕ
count k [] = 0
count k (a ∷ m) = if text_eq k a.key then suc (count k m) else count k m

-- The first audio.
abbrev pub audio : List Media → Option Media
audio [] = none
audio (m ∷ ms) = if text_eq m.kind (text "audio") then some m else audio ms

-- The keys of the answer are not among what is kept.
count-kept : (k : Text) (m : List Attribute) → is_ours k ≡ true → count k (kept m) ≡ 0
unfolding kept
count-kept k [] h = refl
count-kept k (a ∷ m) h = elim (Bool-cases (text_eq k a.key)) [
  | inl e ↦ rw (sym (text_eq→eq k a.key e), h) (count-kept k m h)
  | inr n ↦ ground (arith, n, count-kept k m h)
]

count-append : (k : Text) (m n : List Attribute) → count k (m ++ n) ≡ count k m + count k n
count-append k [] n = omega arith
count-append k (a ∷ m) n = ground (arith, count-append k m n)

find_attribute-append :
    (m n : List Attribute) (k : Text)
    → find_attribute (m ++ n) k
      ≡ elim (find_attribute m k) [ none ↦ find_attribute n k | some v ↦ some v ]
unfolding find_attribute
find_attribute-append [] n k = refl
find_attribute-append (a ∷ m) n k = ground (arith, find_attribute-append m n k)

find_attribute-kept :
    (k : Text) (m : List Attribute) → is_ours k ≡ true → find_attribute (kept m) k ≡ none
unfolding kept find_attribute
find_attribute-kept k [] h = refl
find_attribute-kept k (a ∷ m) h = elim (Bool-cases (text_eq a.key k)) [
  | inl e ↦ rw (text_eq→eq a.key k e, h) (find_attribute-kept k m h)
  | inr n ↦ ground (arith, n, find_attribute-kept k m h)
]

-- The fingerprint of our certificate, our role, and RTCP on the port of RTP, each once; and no key of
-- SDES.
pub record IsAnswer (d : Config) (a : List Attribute) : Type 0 where
  pub one_fingerprint : count (text "fingerprint") a ≡ 1
  pub one_setup : count (text "setup") a ≡ 1
  pub one_mux : count (text "rtcp-mux") a ≡ 1
  pub no_crypto : count (text "crypto") a ≡ 0
  pub says_fingerprint :
      find_attribute a (text "fingerprint") ≡ some (text "sha-256 " ++ d.certificate)
  pub says_setup : find_attribute a (text "setup") ≡ some d.local_setup
  pub says_mux : find_attribute a (text "rtcp-mux") ≡ some []

ours-fingerprint : is_ours (text "fingerprint") ≡ true
unfolding is_ours text text_eq
ours-fingerprint = refl

ours-setup : is_ours (text "setup") ≡ true
unfolding is_ours text text_eq
ours-setup = refl

ours-mux : is_ours (text "rtcp-mux") ≡ true
unfolding is_ours text text_eq
ours-mux = refl

ours-crypto : is_ours (text "crypto") ≡ true
unfolding is_ours text text_eq
ours-crypto = refl

pub own-IsAnswer : (d : Config) → IsAnswer d (dtls_attributes d)
unfolding dtls_attributes text text_eq find_attribute
own-IsAnswer d = record {
  one_fingerprint = refl;
  one_setup = refl;
  one_mux = refl;
  no_crypto = refl;
  says_fingerprint = refl;
  says_setup = refl;
  says_mux = refl;
}

-- What stands before or after it does not matter, if it has none of these keys.
module _ (d : Config) (a : List Attribute) (v : IsAnswer d a) where
  module _ (k : Text) (m : List Attribute) (o : is_ours k ≡ true) where
    count-kept-append : count k (kept m ++ a) ≡ count k a
    count-kept-append = count-append k (kept m) a ∙ (omega (arith, count-kept k m o))

    find_attribute-kept-append : find_attribute (kept m ++ a) k ≡ find_attribute a k
    find_attribute-kept-append =
        find_attribute-append (kept m) a k ∙ (rw (find_attribute-kept k m o))

  pub kept-IsAnswer : (m : List Attribute) → IsAnswer d (kept m ++ a)
  kept-IsAnswer m = record {
    one_fingerprint = count-kept-append (text "fingerprint") m ours-fingerprint ∙ v.one_fingerprint;
    one_setup = count-kept-append (text "setup") m ours-setup ∙ v.one_setup;
    one_mux = count-kept-append (text "rtcp-mux") m ours-mux ∙ v.one_mux;
    no_crypto = count-kept-append (text "crypto") m ours-crypto ∙ v.no_crypto;
    says_fingerprint =
        find_attribute-kept-append (text "fingerprint") m ours-fingerprint ∙ v.says_fingerprint;
    says_setup = find_attribute-kept-append (text "setup") m ours-setup ∙ v.says_setup;
    says_mux = find_attribute-kept-append (text "rtcp-mux") m ours-mux ∙ v.says_mux;
  }

  find_attribute-before :
      (k w : Text) (n : List Attribute)
      → find_attribute a k ≡ some w
      → find_attribute (a ++ n) k ≡ some w
  find_attribute-before k w n h = find_attribute-append a n k ∙ (rw h)

  pub ice-IsAnswer :
      (i : IceConfig) (ip : Text) (port : ℕ) → IsAnswer d (a ++ ice_attributes i ip port)
  unfolding ice_attributes text text_eq
  ice-IsAnswer i ip port =
      let n = ice_attributes i ip port in
      record {
        one_fingerprint = omega (arith, count-append (text "fingerprint") a n, v.one_fingerprint);
        one_setup = omega (arith, count-append (text "setup") a n, v.one_setup);
        one_mux = omega (arith, count-append (text "rtcp-mux") a n, v.one_mux);
        no_crypto = omega (arith, count-append (text "crypto") a n, v.no_crypto);
        says_fingerprint = find_attribute-before (text "fingerprint") _ n v.says_fingerprint;
        says_setup = find_attribute-before (text "setup") _ n v.says_setup;
        says_mux = find_attribute-before (text "rtcp-mux") _ n v.says_mux;
      }
