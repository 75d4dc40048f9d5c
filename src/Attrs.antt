-- ===== src/Attrs.antt =====
-- SIP headers as attributes of a participant, and back: `HeadersToAttrs` and `AttrsToHeaders` of
-- pkg/sip/types.go, with the table of pkg/sip/participant.go. `sip.HeaderToLower` and strings.ToLower
-- are the parameter `lower`, the prefixes of the livekit library are in `Names`. A map that is read by
-- key is a function, one that is iterated the list of its entries in the order of the iteration.
use sip_server.Prelude.{
  ℕ, Bool, true, false, ◌&&◌, not, Option, none, some, List, [], ◌∷◌, ◌++◌, if◌then◌else◌, Text,
  text, text_eq, is_empty, has_prefix, is_some,
}
pub mod Origin
mod Tests

pub data HeaderOptions : Type 0 where
  no_headers x_headers all_headers : HeaderOptions

-- livekit.AttrSIPPrefix and AttrSIPHeaderPrefix.
pub record Names : Type 0 where
  pub sip_prefix : Text
  pub header_prefix : Text

-- What is read of a `Signaling`.
pub record Signaling : Type 0 where
  pub remote_headers : List (Text × Text)
  pub tag : Text
  pub call_id : Text

abbrev pub Attrs : Type 0
Attrs = Text → Option Text

unfoldable pub set : Text → Text → Attrs → Attrs
set k v m j = if text_eq k j then some v else m j

pub attr_call_tag : Names → Text
attr_call_tag n = n.sip_prefix ++ text "callTag"

pub attr_call_id_full : Names → Text
attr_call_id_full n = n.sip_prefix ++ text "callIDFull"

-- `headerToAttr`
pub header_to_attr : Names → List (Text × Text)
header_to_attr n =
    let p = n.sip_prefix in
    (text "X-Twilio-AccountSid", p ++ text "twilio.accountSid")
    ∷ (text "X-Twilio-CallSid", p ++ text "twilio.callSid")
    ∷ (text "X-call_leg_id", p ++ text "telnyx.callLegID")
    ∷ (text "X-call_session_id", p ++ text "telnyx.callSessionID")
    ∷ (text "X-Amzn-ConnectContactId", p ++ text "amazon.contactId")
    ∷ (text "X-Amzn-ConnectInitialContactId", p ++ text "amazon.initialContactId")
    ∷ (text "X-Amzn-SourceAccount", p ++ text "amazon.sourceAccount")
    ∷ (text "X-Amzn-SourceArn", p ++ text "amazon.sourceArn")
    ∷ (text "X-Amzn-TargetArn", p ++ text "amazon.targetArn")
    ∷ (text "X-Lk-Test-Id", text "lktest.id")
    ∷ []

-- Metadata is set if it is there.
set_unless_empty : Text → Text → Attrs → Attrs
set_unless_empty k v m = if is_empty v then m else set k v m

with_metadata : Names → Option Signaling → Attrs → Attrs
unfolding set_unless_empty attr_call_tag attr_call_id_full
with_metadata n none m = m
with_metadata n (some c) m =
    set_unless_empty (attr_call_id_full n) c.call_id (set_unless_empty (attr_call_tag n) c.tag m)

abbrev headers_of : Option Signaling → List (Text × Text) → List (Text × Text)
headers_of none hs = hs
headers_of (some c) hs = c.remote_headers

-- Whether the options name a header.
unfoldable pub wanted : HeaderOptions → Text → Bool
wanted no_headers name = false
wanted x_headers name = has_prefix (text "x-") name
wanted all_headers name = true

module _ (lower : Text → Text) where
  unfoldable pub get_header : Text → List (Text × Text) → Option Text
  get_header name [] = none
  get_header name ((k, v) ∷ hs) =
      let rest = get_header name hs in if text_eq (lower k) (lower name) then some v else rest

  add_headers : Names → HeaderOptions → List (Text × Text) → Attrs → Attrs
  unfolding wanted
  add_headers n o [] m = m
  add_headers n o ((k, v) ∷ hs) m =
      let name = lower k in
      add_headers n o hs
        (if not (is_empty name) && wanted o name then set (n.header_prefix ++ name) v m else m)

  -- A mapping of headers to attributes.
  add_mapped : List (Text × Text) → List (Text × Text) → Attrs → Attrs
  add_mapped hs [] m = m
  add_mapped hs ((hdr, name) ∷ t) m =
      add_mapped hs t (elim (get_header hdr hs) [ none ↦ m | some v ↦ set name v m ])

  unfoldable pub headers_to_attrs :
      Names
      → Attrs
      → List (Text × Text)
      → HeaderOptions
      → Option Signaling
      → List (Text × Text)
      → Attrs
  unfolding add_headers add_mapped header_to_attr with_metadata
  headers_to_attrs n attrs hdr_to_attr o c headers =
      let hs = headers_of c headers in
      with_metadata n c
        (add_mapped hs hdr_to_attr (add_mapped hs (header_to_attr n) (add_headers n o hs attrs)))

-- `AttrsToHeaders`; an empty mapping gives the headers back.
unfoldable pub attrs_to_headers : Attrs → List (Text × Text) → Attrs → Attrs
attrs_to_headers attrs [] headers = headers
attrs_to_headers attrs ((attr, hdr) ∷ t) headers =
    attrs_to_headers attrs t (elim (attrs attr) [ none ↦ headers | some v ↦ set hdr v headers ])
