-- ===== src/Refer/Outcome.antt =====
-- What a NOTIFY says about a transfer (`handleReferNotify` of pkg/sip/protocol.go).
use sip_server.Prelude.{
  ℕ, ◌≤◌, ◌<◌, ◌≡◌, ◌≢◌, ◌⊎◌, inl, inr, ◌↔◌, true, false, none, some, arith, Bool-cases, ◌==◌, ◌||◌,
  ◌&&◌, leb, ltb,
}
use sip_server.Errors.{
  ErrorCode, SipStatus, Err, find_rpc, find_status, is, same_sentinel,
  refer_subscription_terminated, internal, unavailable, upstream_server_error,
}
use sip_server.Refer.{terminated, NotifyInfo, failure_code, handle_refer_notify}

-- No final status: none at all, or a provisional one.
abbrev pub Pending : NotifyInfo → Type 0
Pending info = (info.status ≡ 0) ⊎ ((100 ≤ info.status) × (info.status < 200))

module _ (get_error_code : SipStatus → ErrorCode) where
  failure_code-upstream :
      (status : ℕ) (c : ErrorCode)
      → (failure_code get_error_code status c ≢ internal)
        × (failure_code get_error_code status c ≢ unavailable)
  unfolding failure_code
  failure_code-upstream status c = ground arith

  -- The error that is reported.
  pub record Failure (info : NotifyInfo) (e : Err) : Type 0 where
    pub code : ErrorCode
    pub found : find_rpc e ≡ some code
    pub not_internal : code ≢ internal
    pub not_unavailable : code ≢ unavailable
    pub cause :
        (find_status e ≡ some (record { code = info.status; status = info.reason }))
        ⊎ ((is refer_subscription_terminated e ≡ true) × Pending info)

  handle_refer_notify-Failure :
      (info : NotifyInfo) (refer_cseq : ℕ) (e : Err)
      → handle_refer_notify get_error_code info refer_cseq ≡ some (some e)
      → Failure info e
  unfolding handle_refer_notify find_rpc find_status is same_sentinel
  handle_refer_notify-Failure info refer_cseq e q =
      elim (Bool-cases (info.status == 0 || (leb 100 info.status && ltb info.status 200))) [
        | inl p ↦ record {
          code = upstream_server_error;
          found = ground (arith, q);
          not_internal = ground arith;
          not_unavailable = ground arith;
          cause = inr (ground (arith, q), ground (arith, p));
        }
        | inr p ↦ record {
          code =
              failure_code get_error_code info.status
                (get_error_code (record { code = info.status; status = info.reason }));
          found = ground (arith, q);
          not_internal =
              (failure_code-upstream info.status
                (get_error_code (record { code = info.status; status = info.reason }))).0;
          not_unavailable =
              (failure_code-upstream info.status
                (get_error_code (record { code = info.status; status = info.reason }))).1;
          cause = inl (ground (arith, q));
        }
      ]

  -- A NOTIFY for the REFER in progress: it reports success if and only if its status is 200; it
  -- leaves the transfer waiting if and only if there is no final status and the subscription is not
  -- terminated; and an error that it reports is an RPC error that is neither internal nor
  -- unavailable, and that carries the status, or says that the subscription was terminated before a
  -- final status.
  pub handle_refer_notify_lem :
      (info : NotifyInfo) (refer_cseq : ℕ)
      → (info.cseq ≡ 0) ⊎ (info.cseq ≡ refer_cseq)
      → let r = handle_refer_notify get_error_code info refer_cseq in
        ((r ≡ some none) ↔ (info.status ≡ 200))
        × ((r ≡ none) ↔ (Pending info × (terminated info.sub ≡ false)))
        × ((e : Err) → r ≡ some (some e) → Failure info e)
  unfolding handle_refer_notify
  handle_refer_notify_lem info refer_cseq h = (
    (λ r. ground (arith, r), λ s. ground arith),
    (λ r. ground (arith, r), λ s. ground arith),
    handle_refer_notify-Failure info refer_cseq,
  )
