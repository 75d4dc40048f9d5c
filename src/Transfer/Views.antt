-- ===== src/Transfer/Views.antt =====
-- What the callers see of the transfers, and of what happens to them (pkg/sip/service.go).
use sip_server.Prelude.{
  ℕ, ◌&&◌, ◌||◌, Option, none, some, List, [], ◌∷◌, ◌++◌, map, ltb, is_some, if◌then◌else◌,
}
use sip_server.Transfer.{
  Outcome, running, closed, Pending, Service, Event, requested, worker_runs, received, gave_up,
  step, get_elem?,
}
use sip_server.Transfer.Spec
use sip_server.Transfer.Invariant.{decided}

-- What a caller sees of an object: the result from the time that the worker has sent it.
abbrev pub abstract_pending : Pending → Spec.Transfer
abstract_pending p = record {
  target = p.transfer_to;
  result = decided p.worker;
  outstanding = p.waiting;
  replies = p.answers;
}

abbrev pub abstract : Service → Spec.Spec
abstract s = record { transfers = map abstract_pending s.store; current = s.pending_transfers }

-- What a caller sees of the next event.
unfoldable pub seen_worker : ℕ → Outcome → Option Pending → List Spec.Event
seen_worker r out none = []
seen_worker r out (some p) = elim p.worker [
  | running ↦ Spec.came_to r out ∷ []
  | closed o ↦ Spec.over p.call_id ∷ []
  | _ ↦ []
]

unfoldable pub seen_receive : ℕ → Option Pending → List Spec.Event
seen_receive r none = []
seen_receive r (some p) =
    if ltb 0 p.waiting && (is_some p.done || p.done_closed) then Spec.replied r ∷ [] else []

unfoldable pub seen : Event → Service → List Spec.Event
unfolding seen_worker seen_receive
seen (requested (some e) c to) s = []
seen (requested none c to) s = Spec.asked c to ∷ []
seen (worker_runs r out) s = seen_worker r out (get_elem? s.store r)
seen (received r) s = seen_receive r (get_elem? s.store r)
seen (gave_up r) s = Spec.left r ∷ []

unfoldable pub seen_run : List Event → Service → List Spec.Event
unfolding seen
seen_run [] s = []
seen_run (e ∷ es) s = seen e s ++ seen_run es (step e s)
