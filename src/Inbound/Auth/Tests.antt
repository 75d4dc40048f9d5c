-- ===== src/Inbound/Auth/Tests.antt =====
-- Runs of the authentication, with a digest library that stands in for the real one.
use sip_server.Prelude.{
  ℕ, ◌≡◌, refl, ◌↔◌, true, false, Option, none, some, List, [], ◌∷◌, ◌++◌, arith, if◌then◌else◌,
  Text, text, text_eq,
}
use sip_server.Inbound.Auth.{
  Challenge, Credentials, InboundAuth, Request, find_invite, get_invite, handle_invite_auth,
}
use sip_server.Inbound.Auth.Store.{IsStore, entries}
use sip_server.Inbound.Auth.Verdict.{Proven, handle_invite_auth_lem}
use sip_server.Inbound.Auth.Round.{serve, serve_round}
use sip_server.Inbound.Auth.Timer.{Timers, schedule, supersede, fire_all, fire_all_lem}

abbrev parse : Text → Option Credentials
parse h = some (record { cred_username = text "bob"; uri = []; cred_response = h })

abbrev digest : Challenge → Text → Text → Text → Text → Option Text
digest c method uri user password = some (password ++ c.nonce)

abbrev auth : InboundAuth
auth = record { username = text "bob"; password = text "pw"; auth_realm = [] }

abbrev bare : Text → Request
bare id = record {
  method = text "INVITE";
  req_call_id = id;
  proxy_authorization = none;
  stamp = text "1";
}

abbrev signed : Request
signed = record (bare (text "a")) { proxy_authorization = some (text "pw1-a") }

abbrev others : List (InboundAuth × Request)
others = (auth, bare (text "b")) ∷ (auth, bare (text "c")) ∷ []

empty-IsStore : IsStore []
unfolding entries
empty-IsStore = record { bounded = omega arith; unique = λ id. omega arith }

serve_round_example :
    let challenged = (handle_invite_auth parse digest false auth (bare (text "a")) []).1 in
    (handle_invite_auth parse digest false auth signed
      (serve parse digest false others challenged)).0.ok
    ≡ true
unfolding text text_eq find_invite
serve_round_example =
    serve_round parse digest false auth (bare (text "a")) signed others [] (text "pw1-a")
      (record { cred_username = text "bob"; uri = []; cred_response = text "pw1-a" }) refl refl
      empty-IsStore refl refl (refl, (refl, tt)) (omega arith) refl refl refl refl refl

handle_invite_auth_example :
    let v = (handle_invite_auth parse digest true auth signed []).0 in
    let i = (get_invite (text "a") []).0 in
    let answers : List ℕ = if v.ok then [] else if v.challenged then 407 ∷ [] else 401 ∷ [] in
    ((v.ok ≡ true) ↔ (
      (h : Text) × (signed.proxy_authorization ≡ some h)
      × Proven parse digest auth signed.method i h))
    × ((v.challenged ≡ true) ↔ (signed.proxy_authorization ≡ none))
    × (v.codes ≡ (if true then 100 ∷ answers else answers))
unfolding text
handle_invite_auth_example = handle_invite_auth_lem parse digest true auth signed [] refl refl

abbrev idle : Timers
idle = record { auth_resolved = true; finalized = [] }

fire_all_example :
    ((fire_all (2 ∷ 1 ∷ []) (schedule idle)).finalized ≡ 2 ∷ [])
    × ((fire_all (2 ∷ 1 ∷ []) (supersede (schedule idle))).finalized ≡ [])
fire_all_example = fire_all_lem 2 (1 ∷ []) idle
