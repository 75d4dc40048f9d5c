-- ===== src/Inbound/Auth.antt =====
-- The digest authentication of an INVITE in pkg/sip/inbound.go: the invites in progress that a
-- server keeps, the challenge and its check, and the timer of an unanswered challenge. The digest
-- library is a parameter: how it parses a header and what response it computes.
use sip_server.Prelude.{
  ℕ, zero, suc, ◌+◌, ◌≤◌, ◌<◌, ◌≡◌, Bool, true, false, not, ◌||◌, Option, none, some, List, [], ◌∷◌,
  ◌++◌, length, leb, if◌then◌else◌, Text, text, text_eq, is_empty,
}
pub mod Store
pub mod Verdict
pub mod Round
pub mod Timer
mod Tests

-- digest.Challenge; the algorithm is always MD5.
pub record Challenge : Type 0 where
  pub realm : Text
  pub nonce : Text

-- digest.Credentials, the fields that are read.
pub record Credentials : Type 0 where
  pub cred_username : Text
  pub uri : Text
  pub cred_response : Text

pub record InProgressInvite : Type 0 where
  pub call_id : Text
  pub challenge : Challenge

pub record InboundAuth : Type 0 where
  pub username : Text
  pub password : Text
  pub auth_realm : Text

-- What is read of the request, and the time stamp of a nonce that is made for it.
pub record Request : Type 0 where
  pub method : Text
  pub req_call_id : Text
  pub proxy_authorization : Option Text
  pub stamp : Text

-- The invites in progress, the oldest first.
abbrev pub Store : Type 0
Store = List InProgressInvite

abbrev pub digest_limit : ℕ
digest_limit = 500

unfoldable pub find_invite : Text → Store → Option InProgressInvite
find_invite id [] = none
find_invite id (i ∷ s) = if text_eq i.call_id id then some i else find_invite id s

unfoldable pub evict : Store → Store
evict [] = []
evict (i ∷ s) = if leb digest_limit (length (i ∷ s)) then s else i ∷ s

abbrev pub no_challenge : Challenge
no_challenge = record { realm = []; nonce = [] }

-- What is appended for a Call-ID that is not in progress.
abbrev pub fresh_invite : Text → InProgressInvite
fresh_invite id = record { call_id = id; challenge = no_challenge }

unfoldable pub get_invite_from : Option InProgressInvite → Text → Store → InProgressInvite × Store
get_invite_from (some i) id s = (i, s)
get_invite_from none id s = (fresh_invite id, evict s ++ (fresh_invite id ∷ []))

unfoldable pub get_invite : Text → Store → InProgressInvite × Store
get_invite id s = get_invite_from (find_invite id s) id s

-- `inviteState.challenge = ...` through the pointer that `getInvite` returned.
unfoldable pub set_challenge : Text → Challenge → Store → Store
set_challenge id c [] = []
set_challenge id c (i ∷ s) =
    if text_eq i.call_id id then record i { challenge = c } ∷ s else i ∷ set_challenge id c s

-- `generateNonce`: the time stamp is an argument.
abbrev pub generate_nonce : Text → Text → Text
generate_nonce stamp id = stamp ++ (text "-" ++ id)

-- The two results of `handleInviteAuth`, and the codes that it has sent, in order.
pub record Outcome : Type 0 where
  pub ok : Bool
  pub challenged : Bool
  pub codes : List ℕ

abbrev pub refuse : Outcome
refuse = record { ok = false; challenged = false; codes = 401 ∷ [] }

abbrev pub pass : Outcome
pass = record { ok = true; challenged = false; codes = [] }

abbrev pub ask : Outcome
ask = record { ok = false; challenged = true; codes = 407 ∷ [] }

abbrev pub user_agent : Text
user_agent = text "LiveKit"

abbrev pub realm_of : InboundAuth → Text
realm_of auth = if is_empty auth.auth_realm then user_agent else auth.auth_realm

abbrev pub before : Bool → Outcome × Store → Outcome × Store
before hide (o, s) = (record o { codes = if hide then 100 ∷ o.codes else o.codes }, s)

module _ (parse_credentials : Text → Option Credentials)
    (digest : Challenge → Text → Text → Text → Text → Option Text) where
  -- The comparison with the response that the library computes, if it can.
  unfoldable pub compare_response : Credentials → Option Text → Outcome
  compare_response cred none = refuse
  compare_response cred (some r) = if text_eq cred.cred_response r then pass else refuse

  unfoldable pub check_credentials :
      InboundAuth → Text → InProgressInvite → Option Credentials → Outcome
  check_credentials auth m i none = refuse
  check_credentials auth m i (some cred) =
      if not (text_eq cred.cred_username auth.username)
      then refuse
      else if is_empty i.challenge.realm
      then refuse
      else compare_response cred (digest i.challenge m cred.uri cred.cred_username auth.password)

  unfoldable pub check_header :
      InboundAuth → Request → Text → InProgressInvite × Store → Option Text → Outcome × Store
  check_header auth req realm (i, s) none = (
    ask,
    set_challenge req.req_call_id
        (record { realm = realm; nonce = generate_nonce req.stamp req.req_call_id }) s,
  )
  check_header auth req realm (i, s) (some h) =
      (check_credentials auth req.method i (parse_credentials h), s)

  -- `handleInviteAuth`; `hide` is `HideInboundPort`.
  unfoldable pub handle_invite_auth : Bool → InboundAuth → Request → Store → Outcome × Store
  handle_invite_auth hide auth req s =
      if is_empty auth.username || is_empty auth.password
      then (pass, s)
      else before hide (
          check_header auth req (realm_of auth) (get_invite req.req_call_id s)
            req.proxy_authorization)
