-- ===== src/Outbound.antt =====
-- The outbound side of pkg/sip/outbound.go: the INVITE with its authentication, and the SIP leg of a
-- call. The digest library is a parameter: what it answers to a challenge.
use sip_server.Prelude.{
  ◌⊎◌, inl, inr, ℤ, pos, negsuc, Parsed, exact, parse_int, first_field, ℕ, zero, suc, ◌+◌, ◌%◌, ◌/◌,
  ◌^◌, Bool, true, false, not, ◌&&◌, ◌||◌, Option, none, some, List, [], ◌∷◌, ◌++◌, ltb, leb, ◌==◌,
  if◌then◌else◌, Text, text, is_empty,
}
use sip_server.Errors.{
  Err, SipStatus, plain, wrapped, rpc, sip_status, sentinel, transaction_timeout, carrier_blocked,
  canceled, failed_precondition, internal, sip_request_timeout, auth_max_retry, auth_missing_creds,
  auth_no_header,
}
pub mod Invite
pub mod Waiting
pub mod Dialog
pub mod Call
pub mod Create
mod Tests

-- What is read of a response.
pub record Response : Type 0 where
  pub status : ℕ
  pub reason : Text
  pub body : Text
  pub twilio_error : Option Text
  pub www_authenticate : Option Text
  pub proxy_authenticate : Option Text
  pub has_to : Bool
  pub to_tag : Option Text

-- The events of the `select` in `sipResponse`.
pub data TxEvent : Type 0 where
  ctx_done stopped tx_done no_response : TxEvent
  got : Response → TxEvent

-- `sipResponse`: an error, or the first response that is not provisional; `none` while it waits.
unfoldable pub sip_response : ℕ → List TxEvent → Option (Err × Bool) × Option Response
sip_response cnt [] = (none, none)
sip_response cnt (ctx_done ∷ es) = (some (rpc canceled (sentinel sip_request_timeout), true), none)
sip_response cnt (stopped ∷ es) =
    (some (rpc canceled (plain (text "service shutting down")), true), none)
sip_response cnt (tx_done ∷ es) = (some (rpc canceled (transaction_timeout cnt), false), none)
sip_response cnt (no_response ∷ es) = (some (rpc canceled (transaction_timeout cnt), false), none)
sip_response cnt (got r ∷ es) =
    let rest = sip_response (cnt + 1) es in if r.status / 100 == 1 then rest else (none, some r)

-- One transmission of the INVITE: the credentials that it carries.
pub data Attempt : Type 0 where
  bare : Attempt
  authorization : Text → Attempt
  proxy_authorization : Text → Attempt

-- How the loop of `Invite` ends.
pub data Answer : Type 0 where
  accepted : Response → Answer
  refused : Err → Answer

abbrev status_of : Response → Text → SipStatus
status_of r phrase = record { code = r.status; status = phrase }

abbrev is_block : Parsed ℤ → Bool
is_block (exact (pos n)) = n == 32203
is_block _ = false

-- `parseLeadingProviderCode`, for the one code that `twilioPermanentBlockCodes` holds.
unfoldable pub is_blocked : Response → Bool
is_blocked r = elim r.twilio_error [
  | none ↦ false
  | some v ↦ is_block (parse_int 64 (first_field v))
]

-- `carrierBlockFromResponse` goes before the error that the status alone would give.
carrier_block : Response → Text → Err → Err
carrier_block r phrase e =
    if is_blocked r
    then wrapped (text "INVITE blocked by carrier: ")
        (carrier_blocked (status_of r phrase) (text "twilio") 32203)
    else e

-- The phrase of a plain failure: the body, or the provider's header, or the reason.
abbrev pub failure_phrase : Response → Text
failure_phrase r =
    if not (is_empty r.body) then r.body else elim r.twilio_error [ none ↦ r.reason | some e ↦ e ]

abbrev is_plain_failure : ℕ → Bool
is_plain_failure c = c == 400 || c == 404 || c == 480 || c == 488 || c == 486

-- A response that ends the loop without success.
unfoldable pub refusal : Response → Err
unfolding carrier_block
refusal r =
    if is_plain_failure r.status
    then carrier_block r (failure_phrase r)
        (wrapped (text "INVITE failed: ") (sip_status (status_of r (failure_phrase r))))
    else carrier_block r r.reason (
        wrapped (text "unexpected status from INVITE response: ")
          (sip_status (status_of r r.reason)))

module _ {Challenge : Type 0} (parse_challenge : Text → Option Challenge)
    -- the header for a challenge, with the user and the password of the call
    (digest : Challenge → Err ⊎ Text) (credentials : Bool)
    -- what the transmission with that number comes to
    (transmit : Attempt → ℕ → Err ⊎ Response) where
  -- From a challenge to the next header.
  answer_parsed : Response → Option Challenge → Err ⊎ Text
  answer_parsed r none = inl (rpc internal (plain (text "invalid challenge")))
  answer_parsed r (some c) =
      if r.has_to then digest c else inl (rpc internal (plain (text "no 'To' header on Response")))

  answer_header : Response → Option Text → Err ⊎ Text
  unfolding answer_parsed
  answer_header r none = inl (rpc failed_precondition (sentinel auth_no_header))
  answer_header r (some h) = answer_parsed r (parse_challenge h)

  resume :
      (Attempt → ℕ → Answer × List Attempt)
      → (Text → Attempt)
      → ℕ
      → Err ⊎ Text
      → Answer × List Attempt
  resume again named try (inl e) = (refused e, [])
  resume again named try (inr h) = again (named h) try

  unfoldable pub retry :
      (Attempt → ℕ → Answer × List Attempt)
      → (Text → Attempt)
      → Response
      → Option Text
      → ℕ
      → Answer × List Attempt
  unfolding answer_header resume
  retry again named r header try =
      if not credentials
      then (refused (rpc failed_precondition (sentinel auth_missing_creds)), [])
      else resume again named try (answer_header r header)

  -- The switch on the result of a transmission.
  after_response :
      (Attempt → ℕ → Answer × List Attempt) → ℕ → Err ⊎ Response → Answer × List Attempt
  after_response again try (inl e) = (refused e, [])
  after_response again try (inr r) =
      if r.status == 200
      then (accepted r, [])
      else if r.status == 401
      then retry again authorization r r.www_authenticate try
      else if r.status == 407
      then retry again proxy_authorization r r.proxy_authenticate try
      else (refused (refusal r), [])

  -- The loop; `left` tries of five are left, and the transmissions are returned in order.
  unfoldable pub invite_loop : ℕ → Attempt → ℕ → Answer × List Attempt
  unfolding after_response
  invite_loop zero a try = (refused (rpc failed_precondition (sentinel auth_max_retry)), [])
  invite_loop (suc left) a try =
      let (answer, sent) = after_response (invite_loop left) (try + 1) (transmit a try) in
      (answer, a ∷ sent)

  unfoldable pub invite : Answer × List Attempt
  invite = invite_loop 5 bare 0

-- What `Invite` returns after the loop: the SDP answer, or an error for a response without a tag.
unfoldable pub invite_result : Answer → Err ⊎ Text
invite_result (refused e) = inl e
invite_result (accepted r) =
    if not r.has_to
    then inl (rpc internal (plain (text "no To header in INVITE response")))
    else elim r.to_tag [
      | none ↦ inl (rpc internal (plain (text "no tag in To header in INVITE response")))
      | some t ↦ inr r.body
    ]

-- The SIP leg: whether `invite` and `inviteOk` are set, and what was sent, latest first. `closing` is
-- that the service shuts down.
pub data Sent : Type 0 where
  ack bye_ok cancel_request : Sent
  -- a BYE, with its own number or with the one that the library gives it
  bye : Option ℕ → Sent
  refer : ℕ → Sent

pub record OutLeg : Type 0 where
  pub has_invite : Bool
  pub has_ok : Bool
  pub next_cseq : ℕ
  pub refer_cseq : ℕ
  pub out_sent : List Sent

abbrev put : Sent → OutLeg → OutLeg
put m l = record l { out_sent = m ∷ l.out_sent }

abbrev advance : OutLeg → OutLeg
advance l = record l { next_cseq = (l.next_cseq + 1) % 2 ^ 32 }

unfoldable pub drop : OutLeg → OutLeg
drop l = record l { has_invite = false; has_ok = false; next_cseq = 0 }

-- What `Invite` leaves in the leg: each transmission takes a number.
unfoldable pub after_invite_loop : Answer → ℕ → OutLeg → OutLeg
after_invite_loop (accepted r) sent l = record l {
  has_invite = true;
  has_ok = true;
  next_cseq = (l.next_cseq + sent) % 2 ^ 32;
}
after_invite_loop (refused e) sent l = record l { next_cseq = (l.next_cseq + sent) % 2 ^ 32 }

unfoldable pub send_bye : Bool → OutLeg → OutLeg
unfolding drop
send_bye closing l =
    if not l.has_invite || not l.has_ok
    then l
    else if closing
    then put (bye none) l
    else put (bye (some l.next_cseq)) (drop (advance l))

unfoldable pub send_cancel : OutLeg → OutLeg
unfolding drop
send_cancel l = if l.has_invite then drop (put cancel_request l) else l

unfoldable pub close_leg : Bool → OutLeg → OutLeg
unfolding send_bye send_cancel drop
close_leg closing l =
    if l.has_ok then send_bye closing l else if l.has_invite then send_cancel l else drop l

unfoldable pub accept_bye : OutLeg → OutLeg
unfolding drop
accept_bye l = drop (put bye_ok l)

unfoldable pub ack_invite_ok : OutLeg → OutLeg × Option Err
ack_invite_ok l =
    if not l.has_invite || not l.has_ok
    then (l, some (rpc canceled (plain (text "call already closed"))))
    else (put ack l, none)

-- `transferCall` up to the sending of the REFER.
unfoldable pub transfer : Bool → OutLeg → OutLeg × Option Err
transfer closing l =
    if not l.has_invite || not l.has_ok
    then (l, some (rpc failed_precondition (plain (text "can't transfer non established call"))))
    else if closing
    then (l, some (rpc failed_precondition (plain (text "can't transfer hung up call"))))
    else (put (refer l.next_cseq) (record (advance l) { refer_cseq = l.next_cseq }), none)
