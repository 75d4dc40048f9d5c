-- ===== src/Stats/Tests.antt =====
-- Runs of the call counters.
use sip_server.Prelude.{◌≡◌, refl, List, [], ◌∷◌, text, if◌then◌else◌}
use sip_server.Stats.{
  Termination, new_call, call_start, call_end, call_terminate, client_error, server_error,
}
use sip_server.Stats.Once.{Op, start, finish, terminate, step, run, first_termination, run_counts}

abbrev busy : Termination
busy = client_error (text "busy")

abbrev life : List Op
life = start ∷ terminate busy ∷ terminate (server_error (text "other")) ∷ finish ∷ finish ∷ []

run_counts_example :
    let c = run new_call life in
    (c.calls_active ≡ (if c.started then 1 else 0)) × (c.ended ≡ first_termination life)
run_counts_example = run_counts life

run-life : (run new_call life).ended ≡ busy ∷ []
unfolding run step new_call call_start call_end call_terminate
run-life = refl
