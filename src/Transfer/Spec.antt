-- ===== src/Transfer/Spec.antt =====
-- What the callers of TransferSIPParticipant of pkg/sip/service.go rely on: a transfer of a call has
-- one target and comes to one result, and a request for it is counted until it gets that result.
use sip_server.Prelude.{
  ℕ, ◌+◌, ◌-◌, Option, none, some, List, [], ◌∷◌, ◌++◌, length, Text, text_eq, if◌then◌else◌,
}
use sip_server.Transfer.{Outcome, modify, find_pending, delete_pending}

pub record Transfer : Type 0 where
  pub target : Text
  pub result : Option Outcome
  pub outstanding : ℕ
  pub replies : List Outcome

-- The transfers in the order of their start, and the one that each call is in.
pub record Spec : Type 0 where
  pub transfers : List Transfer
  pub current : List (Text × ℕ)

pub data Event : Type 0 where
  asked : Text → Text → Event
  came_to : ℕ → Outcome → Event
  replied left : ℕ → Event
  over : Text → Event

unfoldable pub new_spec : Spec
new_spec = record { transfers = []; current = [] }

abbrev pub join : Text → Transfer → Transfer
join to t = if text_eq t.target to then record t { outstanding = t.outstanding + 1 } else t

unfoldable pub asked_at : Text → Text → Spec → Option ℕ → Spec
asked_at c to s (some r) = record s { transfers = modify r (join to) s.transfers }
asked_at c to s none =
    let t : Transfer = record { target = to; result = none; outstanding = 1; replies = [] } in
    record { transfers = s.transfers ++ t ∷ []; current = (c, length s.transfers) ∷ s.current }

abbrev pub settle : Outcome → Transfer → Transfer
settle o t = elim t.result [ none ↦ record t { result = some o } | some _ ↦ t ]

abbrev pub reply : Transfer → Transfer
reply t = elim t.result [
  | none ↦ t
  | some o ↦ record t { outstanding = t.outstanding - 1; replies = o ∷ t.replies }
]

abbrev pub leave : Transfer → Transfer
leave t = record t { outstanding = t.outstanding - 1 }

unfoldable pub step : Event → Spec → Spec
unfolding asked_at
step (asked c to) s = asked_at c to s (find_pending c s.current)
step (came_to r o) s = record s { transfers = modify r (settle o) s.transfers }
step (replied r) s = record s { transfers = modify r reply s.transfers }
step (left r) s = record s { transfers = modify r leave s.transfers }
step (over c) s = record s { current = delete_pending c s.current }

unfoldable pub run : List Event → Spec → Spec
run [] s = s
run (e ∷ es) s = run es (step e s)
