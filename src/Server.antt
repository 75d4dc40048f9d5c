-- ===== src/Server.antt =====
-- How the server answers requests (pkg/sip/inbound.go): `processInvite` up to the call that it starts,
-- and the routing of ACK, BYE and NOTIFY. The caches of the server are lists, newest entry first,
-- whatever was evicted from them before; the digest library is a parameter.
use sip_server.Prelude.{
  ℕ, ◌+◌, ◌/◌, Bool, true, false, not, ◌&&◌, ◌⊎◌, inl, inr, Option, none, some, List, [], ◌∷◌, ◌++◌,
  ltb, leb, if◌then◌else◌, Text, text, text_eq, is_empty,
}
use sip_server.Stats.{Termination, server_error, client_error}
use sip_server.Errors.{
  Err, plain, wrapped, rpc, malformed_request, invalid_argument, permission_denied, not_found,
  resource_exhausted,
}
use sip_server.Inbound.Leg.{
  Leg, Sent, response, Cache, u32, respond, processing, drop, respond_and_drop,
}
use sip_server.Inbound.Auth.{
  Challenge, Credentials, InboundAuth, Store, Outcome, get_invite, handle_invite_auth,
}
use sip_server.Inbound.Auth
pub mod Invite
pub mod Routing
mod Tests

pub data AuthResult : Type 0 where
  auth_not_found auth_drop auth_password auth_accept auth_quota_exceeded : AuthResult
  auth_no_trunk_found : AuthResult

-- What is read of an INVITE: of From and To, whether there is a header, and its tag. The request as
-- the digest authentication reads it comes with it.
pub record Request : Type 0 where
  pub source_ok : Bool
  pub call_id : Option Text
  pub from : Option (Option Text)
  pub to : Option (Option Text)
  pub cseq : Option ℕ
  pub leg_tr : Text
  pub auth_req : Auth.Request

-- `calls` are the inbound calls with the CSeq of their INVITE, `out_calls` the outbound ones with
-- theirs and whether they have a local SDP.
pub record Server : Type 0 where
  pub rejected : Cache
  pub provisional : List ((Text × Text) × Text)
  pub in_progress : Store
  pub calls : List (Text × ℕ)
  pub out_calls : List (Text × (ℕ × Bool))

-- What meets an INVITE: the setting, the tag that is drawn for a new dialog, and the answer of
-- GetAuthCredentials.
pub record Env : Type 0 where
  pub hide_inbound_port : Bool
  pub new_tag : Text
  pub auth : Err ⊎ (AuthResult × InboundAuth)

-- What becomes of an INVITE: the leg, the codes that are sent without it, whether a call is started,
-- the error, and the terminations that are counted without a call.
pub record Served : Type 0 where
  pub leg : Option Leg
  pub direct : List ℕ
  pub started : Bool
  pub err : Option Err
  pub counted : List Termination

unfoldable pub lookup : {A : Type 0} → Text → List (Text × A) → Option A
lookup k [] = none
lookup k ((d, a) ∷ m) = let rest = lookup k m in if text_eq k d then some a else rest

unfoldable pub lookup_pair : {A : Type 0} → Text × Text → List ((Text × Text) × A) → Option A
lookup_pair k [] = none
lookup_pair (a, b) (((c, d), x) ∷ m) =
    let rest = lookup_pair (a, b) m in if text_eq a c && text_eq b d then some x else rest

-- A header value that is empty counts as missing.
abbrev present : Option Text → Option Text
present none = none
present (some []) = none
present (some (c ∷ t)) = some (c ∷ t)

abbrev or_cached : Option Text → Text → Text
or_cached (some t) new = t
or_cached none new = new

-- The tag of the dialog: that of the request, or the one of an earlier INVITE, or a new one.
local_tag : Option Text → Option Text → Text → Text
local_tag (some t) cached new = t
local_tag none cached new = or_cached (present cached) new

abbrev seq_no : Option ℕ → ℕ
seq_no none = 0
seq_no (some n) = n

abbrev next_seq : Option ℕ → ℕ
next_seq none = 0
next_seq (some n) = u32 (n + 1)

invalid : Text → Err ⊎ (Text × Leg)
invalid m = inl (plain m)

with_tags : Server → Env → Request → Text → Option Text → Option (Option Text) → Err ⊎ (Text × Leg)
unfolding local_tag invalid
with_tags s v q id none to = invalid (text "no tag in From in INVITE")
with_tags s v q id (some from) none = invalid (text "no To header in INVITE")
with_tags s v q id (some from) (some to) = inr (
  local_tag (present to) (lookup_pair (id, from) s.provisional) v.new_tag,
  record {
    has_invite = true;
    has_tx = true;
    has_ok = false;
    has_from = true;
    ringing = false;
    cancelled = false;
    acked = false;
    leg_tr = q.leg_tr;
    sip_call_id = id;
    tag = from;
    invite_cseq = seq_no q.cseq;
    next_cseq = next_seq q.cseq;
    refer_cseq = 0;
    last_sdp = [];
    sent = [];
  },
)

with_call_id : Server → Env → Request → Option Text → Err ⊎ (Text × Leg)
unfolding with_tags invalid
with_call_id s v q none = invalid (text "no Call-ID header in INVITE")
with_call_id s v q (some id) = elim q.from [
  | none ↦ invalid (text "no From header in INVITE")
  | some tag ↦ with_tags s v q id (present tag) q.to
]

-- The local tag and the leg of a valid INVITE.
unfoldable pub new_inbound : Server → Env → Request → Err ⊎ (Text × Leg)
unfolding with_call_id
new_inbound s v q = with_call_id s v q (present q.call_id)
