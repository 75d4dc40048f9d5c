-- ===== src/Outbound/Tests.antt =====
-- Runs of the outbound side.
use sip_server.Prelude.{
  ℕ, ◌≤◌, ◌≡◌, ◌≢◌, refl, ◌⊎◌, inr, true, false, Option, none, some, List, [], ◌∷◌, length, All,
  Text, text, ◌==◌, if◌then◌else◌,
}
use sip_server.Errors.{Err}
use sip_server.Outbound.{Response, Attempt, bare, accepted, invite}
use sip_server.Outbound.Invite.{invite_lem}
use sip_server.Outbound.Dialog.{
  Op, invited, acked, closed, run, new_leg, established, byes, byes-run,
}

abbrev answer : ℕ → Response
answer c = record {
  status = c;
  reason = [];
  body = text "sdp";
  twilio_error = none;
  www_authenticate = none;
  proxy_authenticate = some (text "Digest");
  has_to = true;
  to_tag = some (text "tag");
}

abbrev parse : Text → Option Text
parse h = some h

abbrev digest : Text → Err ⊎ Text
digest c = inr (text "credentials")

-- The proxy asks for credentials once.
abbrev transmit : Attempt → ℕ → Err ⊎ Response
transmit a n = inr (if n == 0 then answer 407 else answer 200)

invite_example :
    let w = invite parse digest true transmit in
    (rest : List Attempt) × (w.1 ≡ bare ∷ rest)
    × (length rest ≤ 4)
    × All (λ a. a ≢ bare) rest
    × (true ≡ false → rest ≡ [])
    × ((r : Response) → w.0 ≡ accepted r → r.status ≡ 200)
invite_example = invite_lem parse digest true transmit

abbrev life : List Op
life = invited (accepted (answer 200)) 2 ∷ acked ∷ closed false ∷ closed false ∷ []

byes-run_example : byes (run life new_leg).out_sent ≤ established life
byes-run_example = byes-run life (tt, (tt, (refl, (refl, tt))))
