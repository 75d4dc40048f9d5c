-- ===== src/Inbound/Leg/Tests.antt =====
-- Runs of the inbound leg.
use sip_server.Prelude.{
  ℕ, ◌+◌, ◌≤◌, ◌<◌, ◌≡◌, refl, true, false, Option, none, some, List, [], ◌∷◌, arith, text, text_eq,
  if◌then◌else◌, ◌==◌, ◌≢◌,
}
use sip_server.Errors.{Err}
use sip_server.Codes.{Result, new_response}
use sip_server.Inbound.Leg.{
  response, ok_sdp, write_failed, bye, refer, Leg, Config, Reply, got_ack, timed_out,
  unacknowledged, accept_loop, accept, processing, start_ringing, drop, close_with_status,
  new_refer, send_refer,
}
use sip_server.Inbound.Leg.Dialog.{
  Op, process, start, refer_op, send_refer_op, accept_op, close, step, run, accepts, rejections,
  byes, IsNew, run_ends_once,
}
use sip_server.Inbound.Leg.Closing.{IsClosed}
use sip_server.Inbound.Leg.Sequence.{
  numbers, Distinct, Disjoint, run_owed, both, owed_refers, numbered, take_out, after_taking,
  run-Distinct,
}

abbrev fresh : Leg
fresh = record {
  has_invite = true;
  has_tx = true;
  has_ok = false;
  has_from = true;
  ringing = false;
  cancelled = false;
  acked = false;
  leg_tr = text "udp";
  sip_call_id = text "call";
  tag = text "tag";
  invite_cseq = 7;
  next_cseq = 8;
  refer_cseq = 0;
  last_sdp = [];
  sent = [];
}

abbrev config : Config
config = record { wait_ack = false }

abbrev busy : Result
busy = record { code = 486; status = text "Rejected" }

-- The first transmission of the 200 meets no ACK, the second does.
abbrev late_ack : ℕ → Reply
late_ack n = if n == 1 then timed_out else got_ack

late_ack-writes : (n : ℕ) (e : Err) → late_ack n ≢ write_failed e
late_ack-writes n e h = ground arith

-- An INVITE that is answered at the second transmission and hung up by us, between the numbering and
-- the sending of a REFER.
abbrev answered : List Op
answered =
    process
    ∷ (start
        ∷ (accept_op late_ack (text "sdp") ∷ (refer_op ∷ (close busy ∷ (send_refer_op 8 ∷ [])))))

abbrev last_leg : Option Leg → Leg
last_leg none = fresh
last_leg (some l) = l

abbrev ended : Leg
ended = last_leg (run config answered fresh)

run-answered : run config answered fresh ≡ some ended
unfolding run step processing start_ringing accept accept_loop new_refer send_refer
    close_with_status text text_eq
run-answered = refl

ended-sent :
    ended.sent
    ≡ refer 8
      ∷ (bye 9
          ∷ (ok_sdp (text "sdp")
              ∷ (ok_sdp (text "sdp")
                  ∷ (response 180 (text "Ringing") ∷ (response 100 (text "Processing") ∷ [])))))
unfolding run step processing start_ringing accept accept_loop new_refer send_refer
    close_with_status text text_eq
ended-sent = refl

fresh-IsNew : IsNew fresh
fresh-IsNew = ground arith

run_ends_once_example :
    (rejections ended.sent + byes ended.sent ≤ 1)
    × (0 < rejections ended.sent → accepts ended.sent ≡ 0)
    × (0 < byes ended.sent → 0 < accepts ended.sent)
unfolding new_response
run_ends_once_example =
    run_ends_once config answered fresh fresh-IsNew
      (tt, (tt, (late_ack-writes, (tt, (omega arith, (tt, tt)))))) run-answered

run_owed-answered : run_owed config answered fresh [] ≡ some (ended, [])
unfolding run run_owed both owed_refers numbered take_out after_taking step processing start_ringing
    accept accept_loop new_refer send_refer close_with_status text text_eq
run_owed-answered = refl

run-Distinct_example :
    Distinct (numbers ended.sent) × Distinct [] × Disjoint [] (numbers ended.sent)
run-Distinct_example =
    run-Distinct config answered fresh fresh-IsNew (omega arith) run_owed-answered

abbrev closed : Leg
closed = drop fresh

closed-IsClosed : IsClosed closed
unfolding drop
closed-IsClosed = ground arith

abbrev never : ℕ → Reply
never n = timed_out

-- Without an ACK over UDP the call is held for 1.75 seconds, over a reliable transport for 6.
waits_udp :
    accept_loop false 2 never 3 1 250 0
    ≡ some (record { oks = 3; waited = 1750; ending = unacknowledged })
unfolding accept_loop
waits_udp = refl

waits_tcp :
    accept_loop false 1 never 2 1 3000 0
    ≡ some (record { oks = 2; waited = 6000; ending = unacknowledged })
unfolding accept_loop
waits_tcp = refl
