-- ===== src/Classify/Retry.antt =====
-- A call that was placed is not placed again: `afterInvite` of pkg/sip/errors.go.
use sip_server.Prelude.{◌≡◌, ◌≢◌, Option, none, some, arith}
use sip_server.Stats.{server_failure}
use sip_server.Errors.{ErrorCode, failed_precondition, find_rpc}
use sip_server.Classify.{InviteFailure, after_invite}

-- The code that the caller of the RPC sees.
abbrev pub return_code : InviteFailure → Option ErrorCode
return_code f = elim f.return_err [ none ↦ none | some e ↦ find_rpc e ]

-- Once an INVITE was sent, a failure that is counted against the server returns the code
-- FailedPrecondition, any other failure is returned as it was, and what is recorded of the call
-- stays the same in both cases.
pub after_invite_lem :
    (f : InviteFailure)
    → ((after_invite f).end ≡ f.end)
      × (f.end.term.result ≡ server_failure
          → return_code (after_invite f) ≡ some failed_precondition)
      × (f.end.term.result ≢ server_failure → after_invite f ≡ f)
unfolding after_invite find_rpc
after_invite_lem f = ground arith
