-- ===== src/Attrs/Origin.antt =====
-- Where the attributes of a participant come from (pkg/sip/types.go).
use sip_server.Prelude.{
  ◌≡◌, refl, ap, ◌∙◌, true, ◌&&◌, not, ◌⊎◌, inl, inr, Option, none, some, List, [], ◌∷◌, ◌++◌,
  arith, if◌then◌else◌, Text, text, has_prefix, false, text_eq, text_eq→eq, is_empty, Bool-cases,
  Option-cases,
}
use sip_server.Attrs.{
  HeaderOptions, no_headers, x_headers, all_headers, Names, Signaling, Attrs, set, attr_call_tag,
  attr_call_id_full, header_to_attr, set_unless_empty, with_metadata, headers_of, wanted,
  get_header, add_headers, add_mapped, headers_to_attrs, attrs_to_headers,
}

-- A pair of two texts stands in a list.
abbrev pub Has : Text → Text → List (Text × Text) → Type 0
Has k v [] = ⊥
Has k v ((a, b) ∷ m) = (a ≡ k) × (b ≡ v) ⊎ Has k v m

set-origin :
    (a b : Text) (m : Attrs) (k v : Text)
    → set a b m k ≡ some v
    → (a ≡ k) × (b ≡ v) ⊎ (m k ≡ some v)
unfolding set
set-origin a b m k v h = elim (Bool-cases (text_eq a k)) [
  | inl e ↦ inl (text_eq→eq a k e, ground (arith, e))
  | inr n ↦ inr (ground (arith, n))
]

-- What the options ask of the name of a header.
abbrev pub Named : HeaderOptions → Text → Type 0
Named no_headers name = ⊥
Named x_headers name = has_prefix (text "x-") name ≡ true
Named all_headers name = is_empty name ≡ false

wanted-Named :
    (o : HeaderOptions) (name : Text) → (not (is_empty name) && wanted o name) ≡ true → Named o name
unfolding wanted
wanted-Named no_headers name e = ground (arith, e)
wanted-Named x_headers name e = ground (arith, e)
wanted-Named all_headers name e = ground (arith, e)

module _ (lower : Text → Text) (n : Names) where
  -- From a header under its own name.
  abbrev pub FromHeader : HeaderOptions → List (Text × Text) → Text → Text → Type 0
  FromHeader o hs k v =
      (name : Text) × Has name v hs × Named o (lower name) × (n.header_prefix ++ lower name ≡ k)

  later-origin :
      (o : HeaderOptions) (a b : Text) (hs : List (Text × Text)) (m : Attrs) (k v : Text)
      → FromHeader o hs k v ⊎ (m k ≡ some v)
      → FromHeader o ((a, b) ∷ hs) k v ⊎ (m k ≡ some v)
  later-origin o a b hs m k v (inl (x, y, z, w)) = inl (x, inr y, z, w)
  later-origin o a b hs m k v (inr q) = inr q

  add_headers-origin :
      (o : HeaderOptions) (hs : List (Text × Text)) (m : Attrs) (k v : Text)
      → add_headers lower n o hs m k ≡ some v
      → FromHeader o hs k v ⊎ (m k ≡ some v)
  unfolding add_headers
  add_headers-origin o [] m k v h = inr h
  add_headers-origin o ((a, b) ∷ hs) m k v h =
      elim (Bool-cases (not (is_empty (lower a)) && wanted o (lower a))) [
        | inr e ↦ later-origin o a b hs m k v (add_headers-origin o hs m k v (rw e at h))
        | inl e ↦
            elim (add_headers-origin o hs (set (n.header_prefix ++ lower a) b m) k v (rw e at h)) [
              | inl (x, y, z, w) ↦ inl (x, inr y, z, w)
              | inr r ↦ elim (set-origin (n.header_prefix ++ lower a) b m k v r) [
                | inl (p, q) ↦ inl (a, inl (refl, q), wanted-Named o (lower a) e, p)
                | inr q ↦ inr q
              ]
            ]
      ]

-- From a mapping.
abbrev pub FromMapped :
    (Text → Text) → List (Text × Text) → List (Text × Text) → Text → Text → Type 0
FromMapped lower hs t k v = (hdr : Text) × Has hdr k t × (get_header lower hdr hs ≡ some v)

later_mapped-origin :
    (lower : Text → Text) (hs t : List (Text × Text)) (a b : Text) (m : Attrs) (k v : Text)
    → FromMapped lower hs t k v ⊎ (m k ≡ some v)
    → FromMapped lower hs ((a, b) ∷ t) k v ⊎ (m k ≡ some v)
later_mapped-origin lower hs t a b m k v (inl (x, y, z)) = inl (x, inr y, z)
later_mapped-origin lower hs t a b m k v (inr q) = inr q

add_mapped-origin :
    (lower : Text → Text) (hs t : List (Text × Text)) (m : Attrs) (k v : Text)
    → add_mapped lower hs t m k ≡ some v
    → FromMapped lower hs t k v ⊎ (m k ≡ some v)
unfolding add_mapped
add_mapped-origin lower hs [] m k v h = inr h
add_mapped-origin lower hs ((a, b) ∷ t) m k v h = elim (Option-cases (get_header lower a hs)) [
  | inl e ↦
      later_mapped-origin lower hs t a b m k v
        (add_mapped-origin lower hs t m k v (rw (add_mapped, e) at h))
  | inr (w, e) ↦ elim (add_mapped-origin lower hs t (set b w m) k v (rw (add_mapped, e) at h)) [
    | inl (x, y, z) ↦ inl (x, inr y, z)
    | inr r ↦ elim (set-origin b w m k v r) [
      | inl (p, q) ↦ inl (a, inl (refl, p), e ∙ ap some q)
      | inr q ↦ inr q
    ]
  ]
]

set_unless_empty-origin :
    (a b : Text) (m : Attrs) (k v : Text)
    → set_unless_empty a b m k ≡ some v
    → (a ≡ k) × (b ≡ v) ⊎ (m k ≡ some v)
unfolding set_unless_empty
set_unless_empty-origin a b m k v h = elim (Bool-cases (is_empty b)) [
  | inl e ↦ inr (rw (set_unless_empty, e) at h)
  | inr e ↦ set-origin a b m k v (rw (set_unless_empty, e) at h)
]

-- The tag and the Call-ID of the call.
abbrev pub FromCall : Names → Option Signaling → Text → Text → Type 0
FromCall n none k v = ⊥
FromCall n (some c) k v =
    (attr_call_id_full n ≡ k) × (c.call_id ≡ v) ⊎ (attr_call_tag n ≡ k) × (c.tag ≡ v)

with_metadata-origin :
    (n : Names) (c : Option Signaling) (m : Attrs) (k v : Text)
    → with_metadata n c m k ≡ some v
    → FromCall n c k v ⊎ (m k ≡ some v)
unfolding with_metadata
with_metadata-origin n none m k v h = inr h
with_metadata-origin n (some c) m k v h =
    elim (set_unless_empty-origin (attr_call_id_full n) c.call_id
      (set_unless_empty (attr_call_tag n) c.tag m) k v h) [
        | inl p ↦ inl (inl p)
        | inr r ↦ elim (set_unless_empty-origin (attr_call_tag n) c.tag m k v r) [
          | inl p ↦ inl (inr p)
          | inr q ↦ inr q
        ]
      ]

module _ (lower : Text → Text) (n : Names) (attrs : Attrs) (hdr_to_attr : List (Text × Text)) where
  -- Every attribute of a participant is the tag or the Call-ID of the call, or the value of a header
  -- that the request or the table maps to it, or that of a header under its name in lower case, if all
  -- headers are asked for or those with X- and its name begins so, or it was there before.
  pub headers_to_attrs-origin :
      (o : HeaderOptions) (c : Option Signaling) (headers : List (Text × Text)) (k v : Text)
      → headers_to_attrs lower n attrs hdr_to_attr o c headers k ≡ some v
      → let hs = headers_of c headers in
        FromCall n c k v
        ⊎ FromMapped lower hs hdr_to_attr k v
        ⊎ FromMapped lower hs (header_to_attr n) k v
        ⊎ FromHeader lower n o hs k v
        ⊎ (attrs k ≡ some v)
  unfolding headers_to_attrs
  headers_to_attrs-origin o c headers k v h =
      let hs = headers_of c headers in
      let m1 = add_headers lower n o hs attrs in
      let m2 = add_mapped lower hs (header_to_attr n) m1 in
      let m3 = add_mapped lower hs hdr_to_attr m2 in
      elim (with_metadata-origin n c m3 k v h) [
        | inl p ↦ inl p
        | inr r3 ↦ elim (add_mapped-origin lower hs hdr_to_attr m2 k v r3) [
          | inl p ↦ inr (inl p)
          | inr r2 ↦ elim (add_mapped-origin lower hs (header_to_attr n) m1 k v r2) [
            | inl p ↦ inr (inr (inl p))
            | inr r1 ↦ inr (inr (inr (add_headers-origin lower n o hs attrs k v r1)))
          ]
        ]
      ]

-- The header that the last mapping with a value gives.
abbrev pub last_value : Attrs → List (Text × Text) → Text → Option Text → Option Text
last_value attrs [] k old = old
last_value attrs ((a, hdr) ∷ t) k old =
    last_value attrs t k
      (elim (attrs a) [ none ↦ old | some v ↦ if text_eq hdr k then some v else old ])

-- A header that is made of attributes has the value of the last attribute in the order of the iteration
-- that is mapped to it and has a value; any other header is as it was.
pub attrs_to_headers_lem :
    (attrs : Attrs) (t : List (Text × Text)) (headers : Attrs) (k : Text)
    → attrs_to_headers attrs t headers k ≡ last_value attrs t k (headers k)
unfolding attrs_to_headers set
attrs_to_headers_lem attrs [] headers k = refl
attrs_to_headers_lem attrs ((a, hdr) ∷ t) headers k = elim (Option-cases (attrs a)) [
  | inl e ↦ rw (attrs_to_headers, e) (attrs_to_headers_lem attrs t headers k)
  | inr (v, e) ↦ rw (attrs_to_headers, e) (attrs_to_headers_lem attrs t (set hdr v headers) k)
]
