-- ===== src/Stats/Once.antt =====
-- The counters of one call over any sequence of monitor calls (pkg/stats/monitor.go).
use sip_server.Prelude.{◌≡◌, refl, true, false, List, [], ◌∷◌, arith, length, if◌then◌else◌}
use sip_server.Stats.{Termination, CallMonitor, new_call, call_start, call_end, call_terminate}

-- The calls that move the counters of one call.
pub data Op : Type 0 where
  start : Op
  finish : Op
  terminate : Termination → Op

unfoldable pub step : CallMonitor → Op → CallMonitor
step c start = call_start c
step c finish = call_end c
step c (terminate t) = call_terminate c t

unfoldable pub run : CallMonitor → List Op → CallMonitor
run c [] = c
run c (o ∷ os) = run (step c o) os

-- What this call has added to the gauge and to the counter agrees with its two flags.
pub record IsCounted (c : CallMonitor) : Type 0 where
  pub active : c.calls_active ≡ (if c.started then 1 else 0)
  pub once : length c.ended ≡ (if c.terminated then 1 else 0)

new_call-IsCounted : IsCounted new_call
unfolding new_call
new_call-IsCounted = ground arith

step-IsCounted : (c : CallMonitor) (o : Op) → IsCounted c → IsCounted (step c o)
unfolding step call_start call_end call_terminate
step-IsCounted c start h = ground arith
step-IsCounted c finish h = ground arith
step-IsCounted c (terminate t) h = ground arith

run-IsCounted : (c : CallMonitor) (os : List Op) → IsCounted c → IsCounted (run c os)
unfolding run
run-IsCounted c [] h = h
run-IsCounted c (o ∷ os) h = run-IsCounted (step c o) os (step-IsCounted c o h)

-- The first termination that the calls report.
pub first_termination : List Op → List Termination
first_termination [] = []
first_termination (start ∷ os) = first_termination os
first_termination (finish ∷ os) = first_termination os
first_termination (terminate t ∷ os) = t ∷ []

run-ended_closed :
    (c : CallMonitor) (os : List Op) → c.terminated ≡ true → (run c os).ended ≡ c.ended
unfolding run step call_start call_end call_terminate
run-ended_closed c [] h = refl
run-ended_closed c (start ∷ os) h = ground (arith, run-ended_closed (call_start c) os)
run-ended_closed c (finish ∷ os) h = ground (arith, run-ended_closed (call_end c) os)
run-ended_closed c (terminate t ∷ os) h = ground (arith, run-ended_closed (call_terminate c t) os)

run-ended_open :
    (c : CallMonitor) (os : List Op)
    → c.terminated ≡ false
    → c.ended ≡ []
    → (run c os).ended ≡ first_termination os
unfolding run step call_start call_end call_terminate first_termination
run-ended_open c [] h e = e
run-ended_open c (start ∷ os) h e = ground (arith, run-ended_open (call_start c) os)
run-ended_open c (finish ∷ os) h e = ground (arith, run-ended_open (call_end c) os)
run-ended_open c (terminate t ∷ os) h e = ground (arith, run-ended_closed (call_terminate c t) os)

-- Over any sequence of CallStart, CallEnd and CallTerminate on a new call monitor: the call adds 1
-- to the active gauge while it is started and 0 otherwise, and exactly the first termination that
-- was reported is counted.
pub run_counts :
    (os : List Op)
    → let c = run new_call os in
      (c.calls_active ≡ (if c.started then 1 else 0)) × (c.ended ≡ first_termination os)
unfolding new_call
run_counts os =
    ((run-IsCounted new_call os new_call-IsCounted).active, run-ended_open new_call os refl refl)
