-- ===== src/Transfer/Tests.antt =====
-- Runs of the transfers: two requests for one call, and a third for another target.
use sip_server.Prelude.{
  ℕ, ◌≡◌, ◌⊎◌, refl, false, Option, none, some, List, [], ◌∷◌, ◌++◌, All, replicate, Text, text,
  text_eq,
}
use sip_server.Errors.{
  Err, SipStatus, ErrorCode, wrapped, sip_status, unknown, rpc, sentinel, context_deadline,
}
use sip_server.Stats.Transfers.{TransferCounts, Monitor}
use sip_server.Refer.{NotifyInfo, handle_refer_notify, failure_code, no_subscription}
use sip_server.Transfer.{
  Outcome, Pending, Event, requested, worker_runs, received, run, step, new_service, get_elem?,
  find_pending, transfer_sip_participant, get_or_create_pending_transfer, created, asked,
  new_pending, is_elsewhere, receive, receive_from, load_outcome, worker_step, send_done, sent,
}
use sip_server.Transfer.Spec
use sip_server.Transfer.Invariant.{decided}
use sip_server.Transfer.Refines.{run_refines}
use sip_server.Transfer.Views.{seen_run, abstract}
use sip_server.Transfer.Single.{run_single}
use sip_server.Transfer.Answers.{run_answers, works_on, drain, drain-works_on}
use sip_server.Transfer.Response.{Ended, out_received, answer_rpc, answer_request}
use sip_server.Transfer.Response.Ends.{IsAnswered, answer_rpc_lem}

abbrev done_well : Outcome
done_well = record { transfer_id = 7 ∷ []; err = none }

-- Both requests wait; the worker has sent its outcome, and the first request has received it.
abbrev es : List Event
es =
    requested none (1 ∷ []) (2 ∷ [])
    ∷ requested none (1 ∷ []) (2 ∷ [])
    ∷ requested none (1 ∷ []) (3 ∷ [])
    ∷ worker_runs 0 done_well
    ∷ received 0
    ∷ []

abbrev reached : Pending
reached = record {
  call_id = 1 ∷ [];
  transfer_to = 2 ∷ [];
  done = none;
  done_closed = false;
  outcome = none;
  worker = sent done_well;
  waiting = 1;
  answers = done_well ∷ [];
}

run-es : get_elem? (run es new_service).store 0 ≡ some reached
unfolding run step new_service find_pending transfer_sip_participant get_or_create_pending_transfer
    created asked new_pending is_elsewhere receive receive_from load_outcome worker_step send_done
    text_eq
run-es = refl

run_refines_example :
    abstract (run es new_service) ≡ Spec.run (seen_run es new_service) Spec.new_spec
run_refines_example = run_refines es

run_answers_example : All (λ o. decided reached.worker ≡ some o) reached.answers
run_answers_example = run_answers es 0 reached run-es

run_single_example : let i : ℕ = 0 in i ≡ i
run_single_example = run_single es 0 0 reached reached run-es run-es refl refl refl

drain-works_on_example :
    let q = works_on 3 done_well reached in
    (o : Outcome) × (((o ≡ done_well) × (decided reached.worker ≡ none))
      ⊎ (decided reached.worker ≡ some o))
    × ((drain q.waiting q).waiting ≡ 0)
    × ((drain q.waiting q).answers ≡ replicate reached.waiting o ++ reached.answers)
drain-works_on_example = drain-works_on es 0 reached done_well run-es

abbrev late : Err
late = sentinel context_deadline

abbrev refused : Err
refused = sip_status (record { code = 486; status = [] })

abbrev turned_down : Ended
turned_down = out_received (record { transfer_id = 7 ∷ []; err = some refused })

abbrev busy : NotifyInfo
busy = record { cseq = 0; status = 486; reason = []; sub = no_subscription }

abbrev code_of : SipStatus → ErrorCode
code_of st = unknown

answer_rpc_example :
    IsAnswered code_of
      (answer_request turned_down).1
      (answer_rpc code_of (answer_request turned_down))
answer_rpc_example = answer_rpc_lem code_of turned_down

abbrev declined : Err
declined =
    rpc unknown
      (wrapped (text "call transfer failed") (sip_status (record { code = 486; status = [] })))

busy_handled : handle_refer_notify code_of busy 5 ≡ some (some declined)
unfolding handle_refer_notify failure_code
busy_handled = refl

abbrev zeros : TransferCounts
zeros = record {
  transfers_total = 0;
  transfers_active = 0;
  transfers_succeeded = 0;
  transfers_failed = [];
}

abbrev idle : Monitor
idle = record { in_counts = zeros; out_counts = zeros }

abbrev three : List (Option (Text × Option Err) × Option (Text × Option Err))
three = (some ([], none), none) ∷ (none, some ([], some late)) ∷ (none, none) ∷ []
