-- ===== src/Transfer/Response/Ends.antt =====
-- How the ends of a transfer reach the caller of TransferSIPParticipant (pkg/sip/service.go and
-- pkg/sip/protocol.go).
use sip_server.Prelude.{
  ℕ, ◌≡◌, ◌≢◌, refl, true, false, Option, none, some, [], arith, ◌↔◌, ◌⊎◌, inl, inr, Text,
  Bool-cases, Option-cases, ◌==◌, ◌||◌, ◌&&◌, leb, ltb,
}
use sip_server.Errors.{
  Err, SipStatus, ErrorCode, Sentinel, rpc, transfer_call_ended, is, find_status, find_rpc,
  same_sentinel,
}
use sip_server.Refer.{NotifyInfo, handle_refer_notify, terminated}
use sip_server.Refer.Answer.{Awaited, refer_done, wait_refer_result}
use sip_server.Transfer.Response.{
  transfer_successful, completed, call_ended, subscription_terminated, rejected, Response,
  failure_reason, response_to, transfer_response, Ended, out_received, ctx_ended, answer_request,
  is_call_ended, with_status, apply_sip_status, answer_rpc,
}

-- What the response tells of an error.
record IsTold (e : Option Err) (resp : Response) : Type 0 where
  success_lem : (resp.status ≡ transfer_successful) ↔ (e ≡ none)
  completed_lem : (resp.reason ≡ completed) ↔ (e ≡ none)
  ended_lem : (resp.reason ≡ call_ended) ↔ (is_call_ended e ≡ true)

failure_reason_told :
    (e : Err)
    → ((failure_reason e).0 ≢ completed)
      × (((failure_reason e).0 ≡ call_ended) ↔ (is transfer_call_ended e ≡ true))
unfolding failure_reason
failure_reason_told e = elim (Option-cases (find_status e)) [
  | inl n ↦ ground (arith, n)
  | inr (st, f) ↦ ground (arith, f)
]

response_to-IsTold : (id : Text) (e : Option Err) → IsTold e (response_to id e)
unfolding response_to is_call_ended
response_to-IsTold id none = record {
  success_lem = ground arith;
  completed_lem = ground arith;
  ended_lem = ground arith;
}
response_to-IsTold id (some e) =
    let k = failure_reason_told e in
    record {
      success_lem = ground arith;
      completed_lem = ground (arith, k);
      ended_lem = ground (arith, k);
    }

answer_request-IsTold : (x : Ended) → IsTold (answer_request x).1 (answer_request x).0
unfolding answer_request transfer_response
answer_request-IsTold (out_received out) = response_to-IsTold out.transfer_id out.err
answer_request-IsTold (ctx_ended e) = response_to-IsTold [] _

-- No error stays no error; an error stays an error that answers to the same sentinels, and one that
-- wraps a SIP status answers to the RPC code of that status.
apply_sip_status-some :
    (error_code : SipStatus → ErrorCode) (e : Err)
    → (f : Err) × (apply_sip_status error_code (some e) ≡ some f)
      × ((s : Sentinel) → is s f ≡ is s e)
      × ((st : SipStatus) → find_status e ≡ some st → find_rpc f ≡ some (error_code st))
unfolding apply_sip_status with_status is find_rpc
apply_sip_status-some error_code e = elim (Option-cases (find_status e)) [
  | inl n ↦ (e, rw (apply_sip_status, n) refl, λ s. refl, λ st h. ground (arith, n, h))
  | inr (st, f) ↦
      (rpc (error_code st) e, rw (apply_sip_status, f) refl, λ s. refl, λ t h. ground (arith, f, h))
]

apply_sip_status-none :
    (error_code : SipStatus → ErrorCode) → apply_sip_status error_code none ≡ none
unfolding apply_sip_status
apply_sip_status-none error_code = refl

-- How the caller's error answers to an error of the transfer.
abbrev pub Answers : (SipStatus → ErrorCode) → Option Err → Option Err → Type 0
Answers error_code none a = a ≡ none
Answers error_code (some e) a =
    ((is transfer_call_ended e ≡ true) × (a ≡ none))
    ⊎ ((is transfer_call_ended e ≡ false)
        × ((f : Err) × (a ≡ some f)
            × ((s : Sentinel) → is s f ≡ is s e)
            × ((st : SipStatus) → find_status e ≡ some st → find_rpc f ≡ some (error_code st))))

-- What the caller of the RPC gets for a response and an error.
pub record IsAnswered (error_code : SipStatus → ErrorCode) (e : Option Err)
    (a : Response × Option Err) : Type 0 where
  no_error : (a.1 ≡ none) ↔ ((a.0.status ≡ transfer_successful) ⊎ (a.0.reason ≡ call_ended))
  success : (a.0.status ≡ transfer_successful) ↔ (a.0.reason ≡ completed)
  answers : Answers error_code e a.1

module _ (error_code : SipStatus → ErrorCode) where
  answered_told :
      (resp : Response) (e : Option Err)
      → IsTold e resp
      → IsAnswered error_code e (answer_rpc error_code (resp, e))
  unfolding answer_rpc is_call_ended
  answered_told resp none t = record {
    no_error =
        ground
          (arith, apply_sip_status-none error_code, t.success_lem, t.completed_lem, t.ended_lem);
    success = ground (arith, t.success_lem, t.completed_lem);
    answers = apply_sip_status-none error_code;
  }
  answered_told resp (some e) t =
      let (f, q, m, c) = apply_sip_status-some error_code e in
      elim (Bool-cases (is transfer_call_ended e)) [
        | inl h ↦ record {
          no_error = ground (arith, t.success_lem, t.completed_lem, t.ended_lem, h);
          success = ground (arith, t.success_lem, t.completed_lem);
          answers = inl (h, rw (answer_rpc, is_call_ended, h) refl);
        }
        | inr h ↦ record {
          no_error = ground (arith, q, t.success_lem, t.completed_lem, t.ended_lem, h);
          success = ground (arith, t.success_lem, t.completed_lem);
          answers = inr (h, (f, rw (answer_rpc, is_call_ended, h) q, m, c));
        }
      ]

  -- A request for a transfer, however its wait ends, is answered without an error if and only if the
  -- response says that the transfer was successful, or that the call ended before it was; and it
  -- says successful together with completed. An error of the wait is hidden if the call ended; any
  -- other reaches the caller as an error that answers to the same sentinels, and with the RPC code of
  -- the SIP status if it wraps one.
  pub answer_rpc_lem :
      (x : Ended)
      → IsAnswered error_code (answer_request x).1 (answer_rpc error_code (answer_request x))
  answer_rpc_lem x =
      answered_told (answer_request x).0 (answer_request x).1 (answer_request-IsTold x)

-- What the wait for the result says to the caller: the response, and the error.
abbrev pub reported : Text → Awaited → Response × Option Err
reported id a =
    answer_request (out_received (record { transfer_id = id; err = wait_refer_result a }))

-- A NOTIFY that ends the wait for a transfer: the response says successful if and only if its status
-- was 200; after another final status it says rejected with that status and its reason; and with no
-- final status, for a subscription that has terminated, it says subscription_terminated.
pub reported-handle_refer_notify :
    (get_error_code : SipStatus → ErrorCode) (info : NotifyInfo) (refer_cseq : ℕ) (id : Text)
    (r : Option Err)
    → handle_refer_notify get_error_code info refer_cseq ≡ some r
    → let resp = (reported id (refer_done r)).0 in
      ((info.status ≡ 200) × (resp.status ≡ transfer_successful) × (resp.sip_status ≡ none))
      ⊎ ((info.status ≢ 200)
          × (resp.reason ≡ rejected)
          × (resp.sip_status ≡ some (record { code = info.status; status = info.reason })))
      ⊎ ((info.status ≢ 200)
          × (terminated info.sub ≡ true)
          × (resp.reason ≡ subscription_terminated)
          × (resp.sip_status ≡ none))
unfolding handle_refer_notify answer_request transfer_response response_to failure_reason
    wait_refer_result is same_sentinel find_status
reported-handle_refer_notify get_error_code info refer_cseq id r e =
    elim (Bool-cases (info.status == 200)) [
      | inl t ↦ inl (ground (arith, t, e))
      | inr f ↦
          elim (Bool-cases (info.status == 0 || (leb 100 info.status && ltb info.status 200))) [
            | inl p ↦ inr (inr (ground (arith, e, f, p)))
            | inr q ↦ inr (inl (ground (arith, e, f, q)))
          ]
    ]
