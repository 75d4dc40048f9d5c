-- ===== src/Client/Headers.antt =====
-- What the headers of an outbound INVITE are built from (pkg/sip/client.go).
use sip_server.Prelude.{
  ◌≡◌, refl, Bool, true, false, not, ◌&&◌, ◌⊎◌, inl, inr, Option, some, if◌then◌else◌, Text,
  is_empty, is_some,
}
use sip_server.Errors.{Err, invalid_argument, find_rpc}
use sip_server.Client.{
  Transport, Uri, Dest, Named, Call, is_sip_user_token, dest_of, build_request_uri,
  build_from_to_uri, build_from_header, to_named, build_to_header, third, second, first,
  build_outbound_headers,
}

abbrev pub IsAddressed : Call → Err ⊎ (Uri × Named × Named) → Type 0
IsAddressed q (inl e) = find_rpc e ≡ some invalid_argument
IsAddressed q (inr (uri, from, to)) =
    (is_empty q.to_user_override ≡ true)
    ⊎ (to.address.user ≡ q.to_user_override) × (is_sip_user_token q.to_user_override ≡ true)

-- A test decides which of two results is looked at.
branches :
    {A : Type 0} (P : A → Type 0) (b : Bool) {x y : A}
    → (b ≡ true → P x)
    → (b ≡ false → P y)
    → P (if b then x else y)
branches P true hx hy = hx refl
branches P false hx hy = hy refl

-- What the To header takes of an override.
abbrev IsOverridden : Text → Err ⊎ Named → Type 0
IsOverridden o (inl e) = Unit
IsOverridden o (inr to) = (is_empty o ≡ true) ⊎ (to.address.user ≡ o) × (is_sip_user_token o ≡ true)

to_named-IsOverridden :
    (u : Option (Dest × Text)) (o : Text) (r : Err ⊎ Uri) → IsOverridden o (to_named u o r)
unfolding to_named
to_named-IsOverridden u o (inl e) = tt
to_named-IsOverridden u o (inr a) =
    branches (IsOverridden o) (is_empty o) inl
      (λ e. branches (IsOverridden o) (is_sip_user_token o) (λ t. inr (refl, t)) (λ t. tt))

third-IsAddressed :
    (q : Call) (uri : Uri) (to : Named) (r : Err ⊎ Named)
    → IsOverridden q.to_user_override (inr to)
    → IsAddressed q (third uri to r)
unfolding third find_rpc
third-IsAddressed q uri to (inl e) h = refl
third-IsAddressed q uri to (inr from) h = h

module _ (split_host_port : Text → Option (Text × Text)) (parse_uri : Text → Option Uri) where
  build_to_header-IsOverridden :
      (u : Option (Dest × Text)) (o user addr : Text) (t : Transport)
      → IsOverridden o (build_to_header split_host_port parse_uri u o user addr t)
  unfolding build_to_header
  build_to_header-IsOverridden u o user addr t =
      branches (IsOverridden o) (is_some u && not (is_empty user)) (λ e. tt)
        (λ e.
          to_named-IsOverridden u o
            (build_from_to_uri split_host_port parse_uri (dest_of u) user addr t))

  second-IsAddressed :
      (q : Call) (host : Text) (uri : Uri) (r : Err ⊎ Named)
      → IsOverridden q.to_user_override r
      → IsAddressed q (second split_host_port parse_uri q host uri r)
  unfolding second find_rpc
  second-IsAddressed q host uri (inl e) h = refl
  second-IsAddressed q host uri (inr to) h =
      third-IsAddressed q uri to
        (build_from_header split_host_port parse_uri q.from_header q.from_name q.number
          (if is_empty q.hostname then host else q.hostname) q.call_transport)
        h

  first-IsAddressed :
      (q : Call) (host : Text) (r : Err ⊎ Uri)
      → IsAddressed q (first split_host_port parse_uri q host r)
  unfolding first find_rpc
  first-IsAddressed q host (inl e) = refl
  first-IsAddressed q host (inr uri) =
      second-IsAddressed q host uri
        (build_to_header split_host_port parse_uri q.to_header q.to_user_override q.call_to
          q.call_address q.call_transport)
        (build_to_header-IsOverridden q.to_header q.to_user_override q.call_to q.call_address
          q.call_transport)

  -- Every error of the headers of an outbound call is an invalid argument; and if they are built,
  -- then the request overrides no user, or the To header has the override as its user, and the
  -- override is a phone number or SIP user.
  pub build_outbound_headers-IsAddressed :
      (q : Call) (host : Text)
      → IsAddressed q (build_outbound_headers split_host_port parse_uri q host)
  unfolding build_outbound_headers
  build_outbound_headers-IsAddressed q host = first-IsAddressed q host (
      build_request_uri split_host_port parse_uri q.request_uri q.call_to q.call_address
        q.call_transport)
