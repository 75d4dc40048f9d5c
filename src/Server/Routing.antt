-- ===== src/Server/Routing.antt =====
-- The routing of ACK, BYE, NOTIFY and OPTIONS (pkg/sip/inbound.go), what the server does not know going
-- on to the client (pkg/sip/client.go), and `Stop` of pkg/sip/server.go. The goroutines that the client
-- starts for a request are run to their end; the parsers of a Reason header are parameters, and so is
-- the code of a SIP status.
use sip_server.Prelude.{
  ℕ, Bool, true, false, Option, none, some, List, [], ◌∷◌, ◌++◌, map, if◌then◌else◌, Text, text_eq,
}
use sip_server.Errors.{Err, SipStatus, ErrorCode}
use sip_server.Reason.{ReasonHeader}
use sip_server.Reason.Header.{zero_reason, parse_reason_header}
use sip_server.Refer.{Notify, NotifyInfo, Parse, fine, failed, handle_notify, handle_refer_notify}
use sip_server.Refer.Answer.{sip_code_from_error}
use sip_server.Inbound.Leg.{accept_ack}
use sip_server.Inbound.Call as Inbound
use sip_server.Outbound.Call as Outbound
pub mod Answers
pub mod Ends
pub mod Notifies
pub mod Stop
mod Tests

-- What is read of a request: whether there is a To header, and its tag; the Reason header; and what
-- a NOTIFY is read by.
pub record Incoming : Type 0 where
  pub to : Option (Option Text)
  pub reason : Option Text
  pub notify : Notify

-- All calls that there are, by their local tags: `byLocalTag` of the server and `activeCalls` of the
-- client have those that are listed. Further what NOTIFY requests hand over to the transfer of a call,
-- and the codes that the handlers answered, latest first; a leg keeps the 200 for a BYE itself.
-- `down` is that the client shuts down.
pub record Calls : Type 0 where
  pub inbound : List (Text × Inbound.Call)
  pub outbound : List (Text × Outbound.Call)
  pub handed : List (Text × Option Err)
  pub replies : List ℕ
  pub down : Bool

-- What the map of the listed has under a tag.
unfoldable pub find : {A : Type 0} → (A → Bool) → Text → List (Text × A) → Option A
find listed t [] = none
find listed t ((k, c) ∷ m) =
    let rest = find listed t m in if text_eq t k then (if listed c then some c else rest) else rest

-- A method is called on the call that the map has.
unfoldable pub change :
    {A : Type 0} → (A → Bool) → (A → A) → Text → List (Text × A) → List (Text × A)
change listed f t [] = []
change listed f t ((k, c) ∷ m) =
    let kept = (k, c) ∷ change listed f t m in
    if text_eq t k then (if listed c then (k, f c) ∷ m else kept) else kept

abbrev pub in_server : Inbound.Call → Bool
in_server c = c.by_local_tag

abbrev pub in_client : Outbound.Call → Bool
in_client c = c.is_listed

respond_with : ℕ → Calls → Calls
respond_with code w = record w { replies = code ∷ w.replies }

-- `GetLocalTagUAS`
unfoldable pub tag_of : Option (Option Text) → Option Text
tag_of none = none
tag_of (some none) = none
tag_of (some (some t)) = some t

-- The client does not look at the error: without a tag it looks for the empty one.
abbrev tag_or_empty : Option (Option Text) → Text
tag_or_empty to = elim (tag_of to) [ none ↦ [] | some t ↦ t ]

unfoldable pub on_options : Calls → Calls
unfolding respond_with
on_options w = respond_with 200 w

unfoldable pub on_ack : Incoming → Calls → Calls
unfolding tag_of
on_ack q w = elim (tag_of q.to) [
  | none ↦ w
  | some t ↦ record w {
    inbound = change in_server (λ c. record c { leg = accept_ack c.leg }) t w.inbound;
  }
]

-- `onBye` of the client, and whether it took the request.
take_bye : Text → Option Outbound.Call → Calls → Bool × Calls
take_bye t none w = (false, w)
take_bye t (some c) w =
    (true, record w { outbound = change in_client (Outbound.bye w.down) t w.outbound })

client_bye : Incoming → Calls → Bool × Calls
unfolding take_bye
client_bye q w = let t = tag_or_empty q.to in take_bye t (find in_client t w.outbound) w

or_not_found : Bool × Calls → Calls
unfolding respond_with
or_not_found (true, w) = w
or_not_found (false, w) = respond_with 481 w

module _ (unquote : Text → Text) (parse_uint : Text → ℕ × Bool) where
  -- The Reason header of a BYE; it is empty if it is missing or cannot be read.
  bye_reason : Option Text → ReasonHeader
  bye_reason none = zero_reason
  bye_reason (some h) = elim (parse_reason_header unquote parse_uint h) [
    | none ↦ zero_reason
    | some r ↦ r
  ]

  unfoldable pub on_bye : Incoming → Calls → Calls
  unfolding tag_of respond_with bye_reason client_bye or_not_found
  on_bye q w = elim (tag_of q.to) [
    | none ↦ respond_with 400 w
    | some t ↦ elim (find in_server t w.inbound) [
      | none ↦ or_not_found (client_bye q w)
      | some c ↦ record w {
        inbound = change in_server (Inbound.bye (bye_reason q.reason)) t w.inbound;
      }
    ]
  ]

answer_notify : Option Err × Calls → Calls
unfolding respond_with
answer_notify (e, w) = respond_with (sip_code_from_error e) w

module _ (get_error_code : SipStatus → ErrorCode) where
  -- `handleNotify` of a leg whose last REFER had the number `refer_cseq`, with the error that is
  -- answered.
  leg_notify : Text → ℕ → Parse NotifyInfo → Calls → Option Err × Calls
  leg_notify t refer_cseq (failed e) w = (some e, w)
  leg_notify t refer_cseq (fine info) w =
      elim (handle_refer_notify get_error_code info refer_cseq) [
        | none ↦ (none, w)
        | some r ↦ (none, record w { handed = (t, r) ∷ w.handed })
      ]

  -- `onNotify` of the client.
  take_notify : Text → Parse NotifyInfo → Option Outbound.Call → Calls → Calls
  unfolding respond_with leg_notify answer_notify
  take_notify t p none w = respond_with 481 w
  take_notify t p (some c) w = answer_notify (leg_notify t c.leg.refer_cseq p w)

  client_notify : Incoming → Calls → Calls
  unfolding take_notify
  client_notify q w =
      let t = tag_or_empty q.to in
      take_notify t (handle_notify q.notify) (find in_client t w.outbound) w

  unfoldable pub on_notify : Incoming → Calls → Calls
  unfolding tag_of respond_with leg_notify answer_notify client_notify
  on_notify q w = elim (tag_of q.to) [
    | none ↦ respond_with 400 w
    | some t ↦ elim (find in_server t w.inbound) [
      | none ↦ client_notify q w
      | some c ↦ answer_notify (leg_notify t c.leg.refer_cseq (handle_notify q.notify) w)
    ]
  ]

-- `Stop` of the server: it forgets its calls, and shuts them down one by one.
shut_listed : Text × Inbound.Call → Text × Inbound.Call
shut_listed (t, c) =
    (t, if in_server c then Inbound.shutdown (record c { by_local_tag = false }) else c)

unfoldable pub stop : Calls → Calls
unfolding shut_listed
stop w = record w { inbound = map shut_listed w.inbound }
