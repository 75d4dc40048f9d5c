-- ===== src/Stats.antt =====
-- pkg/stats/termination.go and the per-call counters of pkg/stats/monitor.go. A Prometheus counter
-- is a number; the labels of a counter are left out where one call uses only one label set.
use sip_server.Prelude.{ℕ, ◌+◌, ◌-◌, Bool, true, false, Text, List, [], ◌∷◌, if◌then◌else◌}
pub mod Once
pub mod Transfers
mod Tests

pub data TerminationResult : Type 0 where
  success server_failure client_failure indeterminate_result upstream_failure : TerminationResult

pub record Termination : Type 0 where
  pub result : TerminationResult
  pub reason : Text

abbrev pub success_term : Text → Termination
success_term r = record { result = success; reason = r }

abbrev pub server_error : Text → Termination
server_error r = record { result = server_failure; reason = r }

abbrev pub client_error : Text → Termination
client_error r = record { result = client_failure; reason = r }

abbrev pub indeterminate : Text → Termination
indeterminate r = record { result = indeterminate_result; reason = r }

abbrev pub upstream_error : Text → Termination
upstream_error r = record { result = upstream_failure; reason = r }

-- A `CallMonitor` with the values that its own calls have added to the shared collectors:
-- `calls_active` is its part of the gauge, `ended` what it added to `callsTerminated`, latest first.
pub record CallMonitor : Type 0 where
  pub started : Bool
  pub terminated : Bool
  pub calls_active : ℕ
  pub ended : List Termination

unfoldable pub new_call : CallMonitor
new_call = record { started = false; terminated = false; calls_active = 0; ended = [] }

unfoldable pub call_start : CallMonitor → CallMonitor
call_start c =
    if c.started then c else record c { started = true; calls_active = c.calls_active + 1 }

-- `Dec` runs only after this call's own `Inc`, so the subtraction never meets 0.
unfoldable pub call_end : CallMonitor → CallMonitor
call_end c =
    if c.started then record c { started = false; calls_active = c.calls_active - 1 } else c

unfoldable pub call_terminate : CallMonitor → Termination → CallMonitor
call_terminate c t = if c.terminated then c else record c { terminated = true; ended = t ∷ c.ended }
