-- ===== src/Refer/Answer.antt =====
-- How errors are answered (pkg/sip/protocol.go), and how the end of a transfer is awaited.
use sip_server.Prelude.{
  Option, Option-cases, arith, inl, inr, none, refl, some, text, true, ℕ, ◌<◌, ◌↔◌, ◌≡◌, ◌≤◌, ◌⊎◌,
}
use sip_server.Errors.{
  Err, ErrorCode, aborted, already_exists, canceled, data_loss, deadline_exceeded,
  failed_precondition, find_rpc, internal, invalid_argument, is, malformed_request,
  malformed_response, not_acceptable, not_found, ok, other_code, out_of_range, permission_denied,
  resource_exhausted, rpc, same_sentinel, sentinel, transfer_call_ended, unauthenticated,
  unavailable, unimplemented, unknown, upstream_client_error, upstream_server_error, wrapped,
}

-- What ends the wait for the outcome: the context, a result, or the end of the call, after which a
-- result may still come within the grace period.
pub data Awaited : Type 0 where
  ctx_done : Err → Awaited
  refer_done : Option Err → Awaited
  call_done : Option (Option Err) → Awaited

unfoldable pub wait_refer_result : Awaited → Option Err
wait_refer_result (ctx_done e) = some (rpc canceled (wrapped (text "refer canceled") e))
wait_refer_result (refer_done r) = r
wait_refer_result (call_done (some r)) = r
wait_refer_result (call_done none) = some (rpc aborted (sentinel transfer_call_ended))

unfoldable pub sip_status_for_error_code : ErrorCode → ℕ
sip_status_for_error_code ok = 200
sip_status_for_error_code canceled = 408
sip_status_for_error_code deadline_exceeded = 408
sip_status_for_error_code unknown = 500
sip_status_for_error_code malformed_response = 500
sip_status_for_error_code internal = 500
sip_status_for_error_code data_loss = 500
sip_status_for_error_code invalid_argument = 400
sip_status_for_error_code malformed_request = 400
sip_status_for_error_code not_found = 404
sip_status_for_error_code not_acceptable = 406
sip_status_for_error_code already_exists = 409
sip_status_for_error_code aborted = 409
sip_status_for_error_code permission_denied = 403
sip_status_for_error_code resource_exhausted = 480
sip_status_for_error_code failed_precondition = 481
sip_status_for_error_code out_of_range = 416
sip_status_for_error_code unimplemented = 501
sip_status_for_error_code unavailable = 503
sip_status_for_error_code unauthenticated = 401
sip_status_for_error_code upstream_server_error = 502
sip_status_for_error_code upstream_client_error = 480
sip_status_for_error_code (other_code c) = 500

-- The code of `sipCodeAndMessageFromError`.
unfoldable pub sip_code_from_error : Option Err → ℕ
sip_code_from_error none = 200
sip_code_from_error (some e) = elim (find_rpc e) [
  | none ↦ 500
  | some c ↦ sip_status_for_error_code c
]

sip_status_for_error_code-bounds :
    (c : ErrorCode)
    → ((c ≡ ok) × (sip_status_for_error_code c ≡ 200))
      ⊎ ((400 ≤ sip_status_for_error_code c) × (sip_status_for_error_code c < 600))
unfolding sip_status_for_error_code
sip_status_for_error_code-bounds ok = inl (refl, refl)
sip_status_for_error_code-bounds _ = inr (ground arith)

-- A request is answered with 200 if there was no error or the error's RPC code is OK, and otherwise
-- with a code of 400 to 599.
pub sip_code_from_error-bounds :
    (o : Option Err)
    → (((o ≡ none) ⊎ ((e : Err) × (o ≡ some e) × (find_rpc e ≡ some ok)))
        × (sip_code_from_error o ≡ 200))
      ⊎ ((400 ≤ sip_code_from_error o) × (sip_code_from_error o < 600))
unfolding sip_code_from_error
sip_code_from_error-bounds none = inl (inl refl, refl)
sip_code_from_error-bounds (some e) = elim (Option-cases (find_rpc e)) [
  | inl n ↦ inr (ground (arith, n))
  | inr (c, f) ↦ elim (sip_status_for_error_code-bounds c) [
    | inl (k, v) ↦ inl (inr (e, refl, ground (arith, f, k)), ground (arith, f, v))
    | inr v ↦ inr (ground (arith, f, v))
  ]
]

-- A transfer succeeds if and only if a result says so, at once or within the grace period after the
-- call has ended; the end of the call without a result is the failure `transfer_call_ended`.
pub wait_refer_result_lem :
    (a : Awaited)
    → ((wait_refer_result a ≡ none) ↔ ((a ≡ refer_done none) ⊎ (a ≡ call_done (some none))))
      × ((e : Err)
          → a ≡ call_done none
          → wait_refer_result a ≡ some e
          → is transfer_call_ended e ≡ true)
unfolding wait_refer_result is same_sentinel
wait_refer_result_lem (ctx_done e) = (ground arith, λ f p q. ground (arith, p, q))
wait_refer_result_lem (refer_done none) =
    ((λ _. inl refl, λ _. refl), λ f p q. ground (arith, p, q))
wait_refer_result_lem (refer_done (some e)) = (ground arith, λ f p q. ground (arith, p, q))
wait_refer_result_lem (call_done none) = (ground arith, λ f p q. ground (arith, p, q))
wait_refer_result_lem (call_done (some none)) =
    ((λ _. inr refl, λ _. refl), λ f p q. ground (arith, p, q))
wait_refer_result_lem (call_done (some (some e))) = (ground arith, λ f p q. ground (arith, p, q))
