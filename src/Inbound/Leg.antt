-- ===== src/Inbound/Leg.antt =====
-- `sipInbound` of pkg/sip/inbound.go: the SIP dialog of one inbound call. The messages themselves are
-- only copied into what is sent, so that the pointers `invite`, `inviteTx` and `inviteOk` are kept as
-- whether they are set; `sent` is what the leg has put on the wire, latest first. Each method holds
-- the mutex throughout, so a history is a sequence of calls, but for TransferCall: it numbers the REFER
-- under the mutex and sends it later, so that it is two calls, between which others may come.
use sip_server.Prelude.{
  ℕ, zero, suc, ◌+◌, ◌-◌, ◌*◌, ◌%◌, ◌^◌, Bool, true, false, not, ◌&&◌, ◌||◌, ◌⊎◌, inl, inr, Option,
  none, some, List, [], ◌∷◌, ◌++◌, ltb, leb, if◌then◌else◌, replicate, Text, text, text_eq,
  is_empty,
}
use sip_server.Errors.{Err, plain, sentinel, no_ack, rpc, failed_precondition, invalid_argument}
use sip_server.Codes.{Result, new_response}
pub mod Accept
pub mod Dialog
pub mod Closing
pub mod Unacked
pub mod Sequence
mod Tests

pub data Sent : Type 0 where
  -- a response to the INVITE: code and reason
  response : ℕ → Text → Sent
  -- the 200 of `Accept`, with the SDP answer
  ok_sdp : Text → Sent
  -- the 200 to a BYE of the other side
  bye_ok : Sent
  -- requests of ours inside the dialog, with their CSeq
  bye : ℕ → Sent
  refer : ℕ → Sent
  -- the INVITE transaction is terminated
  tx_closed : Sent

pub record Leg : Type 0 where
  pub has_invite : Bool
  pub has_tx : Bool
  pub has_ok : Bool
  pub has_from : Bool
  pub ringing : Bool
  pub cancelled : Bool
  pub acked : Bool
  pub leg_tr : Text
  pub sip_call_id : Text
  pub tag : Text
  pub invite_cseq : ℕ
  pub next_cseq : ℕ
  pub refer_cseq : ℕ
  pub last_sdp : Text
  pub sent : List Sent

-- The `uint32` of a CSeq.
abbrev pub u32 : ℕ → ℕ
u32 n = n % 2 ^ 32

abbrev push : Sent → Leg → Leg
push m l = record l { sent = m ∷ l.sent }

unfoldable pub stop_ringing : Leg → Leg
stop_ringing l = record l { ringing = false }

unfoldable pub drop : Leg → Leg
unfolding stop_ringing
drop l =
    let l1 = stop_ringing l in
    let l2 : Leg = if l1.has_tx then push tx_closed l1 else l1 in
    record l2 { has_tx = false; has_invite = false; has_ok = false; next_cseq = 0 }

unfoldable pub respond : ℕ → Text → Leg → Leg
respond status reason l = if l.has_tx then push (response status reason) l else l

unfoldable pub processing : Leg → Leg
unfolding respond
processing l = respond 100 (text "Processing") l

unfoldable pub send_ringing : Leg → Leg
unfolding respond
send_ringing l = respond 180 (text "Ringing") l

-- `StartRinging` up to the start of the ticker. It calls a method of `inviteTx`, and panics (`none`)
-- where that is nil.
unfoldable pub start_ringing : Leg → Option Leg
unfolding send_ringing
start_ringing l = if l.has_tx then some (record (send_ringing l) { ringing = true }) else none

-- A tick of the goroutine: it may have left its `select` just before the ringing was stopped.
unfoldable pub ringing_tick : Leg → Leg
unfolding send_ringing
ringing_tick l = send_ringing l

-- The goroutine sees a CANCEL: the CANCEL is answered, the INVITE by the others.
unfoldable pub cancel : Leg → Leg
cancel l = record l { cancelled = true }

-- The replay cache of the server, newest entry first; `none` if it is disabled.
abbrev pub Cache : Type 0
Cache = Option (List ((Text × Text) × (ℕ × Text)))

unfoldable pub respond_and_drop : ℕ → Text → Leg → Cache → Leg × Cache
unfolding stop_ringing respond drop
respond_and_drop status reason l cache =
    let l' = drop (respond status reason (stop_ringing l)) in
    elim cache [
      | none ↦ (l', none)
      | some entries ↦ (
        l',
        some (
            if leb 300 status && not (is_empty l.sip_call_id)
            then ((l.sip_call_id, l.tag), (status, reason)) ∷ entries
            else entries),
      )
    ]

-- The settings that `Accept` reads.
pub record Config : Type 0 where
  pub wait_ack : Bool

-- What meets one transmission of the 200: the write fails, an ACK arrives, or the timer fires.
pub data Reply : Type 0 where
  write_failed : Err → Reply
  got_ack timed_out : Reply

-- How the retry loop of `Accept` ends: by the error of a write, by an ACK, at once because nothing is
-- waited for, or with no ACK after the last retry.
pub data Ending : Type 0 where
  write_error : Err → Ending
  acknowledged not_awaited unacknowledged : Ending

-- The retry loop: how many 200s were written, how long it waited in whole timer intervals
-- (milliseconds), and how it ended.
pub record Attempt : Type 0 where
  pub oks : ℕ
  pub waited : ℕ
  pub ending : Ending

abbrev pub ok_retry_interval : ℕ
ok_retry_interval = 250

abbrev pub ok_retry_interval_max : ℕ
ok_retry_interval_max = 3000

-- min(2 * retryAfter, inviteOkRetryIntervalMax)
abbrev pub next_interval : ℕ → ℕ
next_interval t = if ltb (t * 2) ok_retry_interval_max then t * 2 else ok_retry_interval_max

-- The bounds of the loop: for a transport that retransmits by itself one retry.
unfoldable pub max_retries : Config → Text → ℕ
max_retries c tr = if text_eq tr (text "udp") then (if c.wait_ack then 5 else 2) else 1

unfoldable pub first_interval : Text → ℕ
first_interval tr = if text_eq tr (text "udp") then ok_retry_interval else ok_retry_interval_max

-- `for try := 1; ; try++`, with what happens at each try; `none` if the fuel runs out.
module _ (unawaited : Bool) (max : ℕ) (env : ℕ → Reply) where
  -- The `select` and what follows it; `again` is the next round.
  after_write : ℕ → ℕ → ℕ → Option Attempt → Reply → Option Attempt
  after_write try interval waited again (write_failed e) =
      some (record { oks = try - 1; waited = waited; ending = write_error e })
  after_write try interval waited again got_ack = some (record {
    oks = try;
    waited = waited;
    ending = if unawaited then not_awaited else acknowledged;
  })
  after_write try interval waited again timed_out =
      if unawaited
      then some (record { oks = try; waited = waited; ending = not_awaited })
      else if ltb max try
      then some (record { oks = try; waited = waited + interval; ending = unacknowledged })
      else again

  unfoldable pub accept_loop : ℕ → ℕ → ℕ → ℕ → Option Attempt
  unfolding after_write
  accept_loop zero try interval waited = none
  accept_loop (suc fuel) try interval waited =
      let again = accept_loop fuel (try + 1) (next_interval interval) (waited + interval) in
      after_write try interval waited again (env try)

-- What `Accept` leaves once the loop has ended.
finish_accept : Config → Text → Leg → Attempt → Leg × Option Err
finish_accept c sdp l a =
    let l' : Leg = record l { sent = replicate a.oks (ok_sdp sdp) ++ l.sent } in
    let accepted : Leg = record l' { has_ok = true; has_tx = false } in
    elim a.ending [
      | write_error e ↦ (l', some e)
      | acknowledged ↦ (accepted, none)
      | not_awaited ↦ (accepted, none)
      | unacknowledged ↦ (accepted, if c.wait_ack then some (sentinel no_ack) else none)
    ]

after_loop : Config → Text → Leg → Option Attempt → Leg × Option Err
unfolding finish_accept
after_loop c sdp l none = (l, none)
after_loop c sdp l (some a) = finish_accept c sdp l a

-- The loop is given one round more than the retries, which is enough (`accept_loop-Ends`).
unfoldable pub accept : Config → (ℕ → Reply) → Text → Leg → Leg × Option Err
unfolding stop_ringing max_retries first_interval after_loop
accept c env sdp l =
    let l1 = stop_ringing (record l { last_sdp = sdp }) in
    let unawaited = not (text_eq l.leg_tr (text "udp")) && not c.wait_ack in
    let max = max_retries c l.leg_tr in
    if l.has_tx
    then after_loop c sdp l1 (accept_loop unawaited max env (suc max) 1 (first_interval l.leg_tr) 0)
    else (l, some (plain (text "call already rejected")))

unfoldable pub accept_ack : Leg → Leg
accept_ack l = record l { acked = true }

unfoldable pub accept_bye : Leg → Leg
unfolding drop
accept_bye l = drop (push bye_ok l)

-- `setCSeq` numbers a request of ours.
abbrev pub set_cseq : Leg → ℕ × Leg
set_cseq l = (l.next_cseq, record l { next_cseq = u32 (l.next_cseq + 1) })

unfoldable pub send_bye : Leg → Leg
unfolding drop
send_bye l =
    let (n, l1) = set_cseq l in if l.has_ok && l.has_invite then push (bye n) (drop l1) else l

unfoldable pub send_status : Result → Leg → Leg
unfolding drop
send_status r l =
    let r' = new_response r in
    if l.has_ok then l else if l.has_tx then drop (push (response r'.code r'.status) l) else l

unfoldable pub close_with_status : Result → Leg → Leg
unfolding send_bye send_status drop
close_with_status r l =
    if l.has_ok then send_bye l else if l.has_tx then send_status r l else drop l

-- `AcceptAsKeepAlive`: the 200 to a re-INVITE, on a leg that was made for it. The transaction stays.
unfoldable pub accept_as_keep_alive : Leg → Leg
unfolding respond
accept_as_keep_alive l = respond 200 (text "OK") l

-- `newReferReq`: the CSeq of the REFER that is to be sent.
unfoldable pub new_refer : Leg → Leg × (Err ⊎ ℕ)
new_refer l =
    let (n, l1) = set_cseq l in
    if not l.has_invite || not l.has_ok
    then (l, inl (rpc failed_precondition (plain (text "can't transfer non established call"))))
    else if not l.has_from
    then (l, inl (rpc invalid_argument (plain (text "no From URI in invite"))))
    else (record l1 { refer_cseq = n }, inr n)

-- What `TransferCall` puts on the wire with it, once the mutex is released.
unfoldable pub send_refer : ℕ → Leg → Leg
send_refer n l = push (refer n) l
