-- ===== src/Analytics/Tests.antt =====
-- Runs of the call state; the information is a number.
use sip_server.Prelude.{ℕ, ◌+◌, true, Option, some, List, [], ◌∷◌, text}
use sip_server.Errors.{Err, plain}
use sip_server.Analytics.{CallState}
use sip_server.Analytics.Reports.{Op, deferred, flushed, started}

abbrev ops : List (Op ℕ)
ops = flushed ∷ deferred (λ n. n + 1) ∷ started 7 (text "tel:1") ∷ deferred (λ n. n + 1) ∷ []

abbrev busy : Option Err
busy = some (plain (text "busy"))

abbrev start : CallState ℕ
start = record { call_info = 0; transfers = []; dirty = true; reports = [] }
