-- ===== src/Analytics/Reports.antt =====
-- What the handler knows of a call (pkg/sip/analytics.go).
use sip_server.Prelude.{ℕ, ◌≡◌, refl, false, Option, none, some, List, [], ◌∷◌, arith, Text}
use sip_server.Errors.{Err}
use sip_server.Analytics.{
  TransferInfo, Reported, update_report, transfer_report, context_report, CallState, new_call_state,
  defer_update, update, flush, force_flush, record_call_context, start_transfer, end_transfer,
  find_transfer, end_found,
}

-- The calls of the methods.
pub data Op (Info : Type 0) : Type 0 where
  deferred updated context : (Info → Info) → Op Info
  flushed forced : Op Info
  started : ℕ → Text → Op Info
  ended : ℕ → Option Err → Op Info

module _ {Info : Type 0} where
  unfoldable pub step : Op Info → CallState Info → CallState Info
  step (deferred f) s = defer_update f s
  step (updated f) s = update f s
  step (context f) s = record_call_context f s
  step flushed s = flush s
  step forced s = force_flush s
  step (started id to) s = start_transfer id to s
  step (ended id e) s = end_transfer id e s

  unfoldable pub run : List (Op Info) → CallState Info → CallState Info
  run [] s = s
  run (o ∷ os) s = run os (step o s)

  -- The information that the handler was given last.
  unfoldable pub known : List (Reported Info) → Option Info
  known [] = none
  known (update_report i ∷ rs) = some i
  known (context_report i ∷ rs) = some i
  known (transfer_report t ∷ rs) = known rs

  -- If nothing is to be flushed, the handler has the present information.
  abbrev pub IsKnown : CallState Info → Type 0
  IsKnown s = s.dirty ≡ false → known s.reports ≡ some s.call_info

  end_found-IsKnown :
      (e : Option Err) (s : CallState Info) (o : Option TransferInfo)
      → IsKnown s
      → IsKnown (end_found e s o)
  unfolding end_found known
  end_found-IsKnown e s none k = k
  end_found-IsKnown e s (some t) k = k

  step-IsKnown : (o : Op Info) (s : CallState Info) → IsKnown s → IsKnown (step o s)
  unfolding step defer_update update flush force_flush record_call_context start_transfer
      end_transfer known
  step-IsKnown (deferred f) s k = λ d. ground (arith, d)
  step-IsKnown (updated f) s k = λ d. refl
  step-IsKnown (context f) s k = λ d. refl
  step-IsKnown flushed s k = λ d. ground (arith, d, k)
  step-IsKnown forced s k = λ d. refl
  step-IsKnown (started id to) s k = k
  step-IsKnown (ended id e) s k = end_found-IsKnown e _ (find_transfer id s.transfers) k

  run-IsKnown : (os : List (Op Info)) (s : CallState Info) → IsKnown s → IsKnown (run os s)
  unfolding run
  run-IsKnown [] s k = k
  run-IsKnown (o ∷ os) s k = run-IsKnown os (step o s) (step-IsKnown o s k)

  new-IsKnown : (i : Info) → IsKnown (new_call_state i)
  unfolding new_call_state
  new-IsKnown i d = ground (arith, d)

  -- After any sequence of the methods of a new state, a flush leaves the handler with the present
  -- information about the call, and a second flush reports nothing more.
  pub flush-run :
      (os : List (Op Info)) (i : Info)
      → let s = flush (run os (new_call_state i)) in
        (known s.reports ≡ some s.call_info) × (flush s ≡ s)
  unfolding flush known
  flush-run os i =
      let s = run os (new_call_state i) in
      let k = run-IsKnown os (new_call_state i) (new-IsKnown i) in ground (arith, k)
