-- ===== src/Transfer.antt =====
-- The transfers of pkg/sip/service.go: the requests for a call that is being transferred wait for one
-- worker, through the channel `Done` of capacity 1 and the pointer `Outcome`.
use sip_server.Prelude.{
  ℕ, zero, suc, ◌+◌, ◌-◌, Bool, true, false, Option, none, some, List, [], ◌∷◌, ◌++◌, length, ltb,
  if◌then◌else◌, Text, text, text_eq,
}
use sip_server.Errors.{Err, plain, rpc, invalid_argument}
pub mod Objects
pub mod Spec
pub mod Invariant
pub mod Good
pub mod Views
pub mod Refines
pub mod Listed
pub mod Single
pub mod Answers
pub mod Response
pub mod Process
mod Tests

pub record Outcome : Type 0 where
  pub transfer_id : Text
  pub err : Option Err

-- Where the worker of a transfer stands, with its `out`: in processParticipantTransfer, after the
-- send on `Done`, the store of `Outcome`, the close of `Done`, the delete from the map.
pub data Worker : Type 0 where
  running : Worker
  sent published closed returned : Outcome → Worker

-- PendingTransfer; `done` is the buffer of `Done`. With it, the number of the requests that wait, and
-- the outcomes that were given to others, latest first.
pub record Pending : Type 0 where
  pub call_id : Text
  pub transfer_to : Text
  pub done : Option Outcome
  pub done_closed : Bool
  pub outcome : Option Outcome
  pub worker : Worker
  pub waiting : ℕ
  pub answers : List Outcome

-- The objects in the order of their creation, and the map from a call to the position of its object.
pub record Service : Type 0 where
  pub store : List Pending
  pub pending_transfers : List (Text × ℕ)

unfoldable pub new_service : Service
new_service = record { store = []; pending_transfers = [] }

unfoldable pub find_pending : Text → List (Text × ℕ) → Option ℕ
find_pending c [] = none
find_pending c ((d, r) ∷ m) = let rest = find_pending c m in if text_eq c d then some r else rest

unfoldable pub delete_pending : Text → List (Text × ℕ) → List (Text × ℕ)
delete_pending c [] = []
delete_pending c ((d, r) ∷ m) =
    let rest = delete_pending c m in if text_eq c d then rest else (d, r) ∷ rest

-- A change of one object.
abbrev pub modify : {A : Type 0} → ℕ → (A → A) → List A → List A
modify r f [] = []
modify zero f (p ∷ ps) = f p ∷ ps
modify (suc r) f (p ∷ ps) = p ∷ modify r f ps

abbrev pub get_elem? : {A : Type 0} → List A → ℕ → Option A
get_elem? [] r = none
get_elem? (p ∷ ps) zero = some p
get_elem? (p ∷ ps) (suc r) = get_elem? ps r

unfoldable pub new_pending : Text → Text → Pending
new_pending c to = record {
  call_id = c;
  transfer_to = to;
  done = none;
  done_closed = false;
  outcome = none;
  worker = running;
  waiting = 0;
  answers = [];
}

-- The object of a call, and whether it is new.
created : Text → Text → Service → Option ℕ → Service × ℕ × Bool
unfolding new_pending
created c to s (some r) = (s, r, false)
created c to s none =
    let r = length s.store in
    (
      record {
        store = s.store ++ new_pending c to ∷ [];
        pending_transfers = (c, r) ∷ s.pending_transfers;
      },
      r,
      true,
    )

unfoldable pub get_or_create_pending_transfer : Text → Text → Service → Service × ℕ × Bool
unfolding created
get_or_create_pending_transfer c to s = created c to s (find_pending c s.pending_transfers)

-- A request is refused at once, or waits for the object at a position.
pub data Request : Type 0 where
  refused : Err → Request
  waits : ℕ → Request

abbrev elsewhere : Err
elsewhere = rpc invalid_argument (plain (text "call already being transferred elsewhere"))

abbrev wait : Pending → Pending
wait p = record p { waiting = p.waiting + 1 }

is_elsewhere : Text → Option Pending → Bool
is_elsewhere to none = true
is_elsewhere to (some p) = if text_eq p.transfer_to to then false else true

asked : Text → Service × ℕ × Bool → Service × Request
unfolding is_elsewhere
asked to (s, r, true) = (record s { store = modify r wait s.store }, waits r)
asked to (s, r, false) =
    if is_elsewhere to (get_elem? s.store r)
    then (s, refused elsewhere)
    else (record s { store = modify r wait s.store }, waits r)

-- `transferSIPParticipant` up to its wait; the first argument is what checkInternalProviderRequest
-- returns. A new object has its worker started.
unfoldable pub transfer_sip_participant : Option Err → Text → Text → Service → Service × Request
unfolding asked
transfer_sip_participant (some e) c to s = (s, refused e)
transfer_sip_participant none c to s = asked to (get_or_create_pending_transfer c to s)

-- The `select` of the worker: a full buffer keeps its value.
send_done : Outcome → Option Outcome → Option Outcome
send_done out none = some out
send_done out (some o) = some o

-- The next statement of the worker; `out` is what processParticipantTransfer returns.
unfoldable pub worker_step : Outcome → Worker → Pending → Pending
unfolding send_done
worker_step out running p = record p { done = send_done out p.done; worker = sent out }
worker_step out (sent o) p = record p { outcome = some o; worker = published o }
worker_step out (published o) p = record p { done_closed = true; worker = closed o }
worker_step out (closed o) p = record p { worker = returned o }
worker_step out (returned o) p = p

-- The last statement is the delete from the map.
worker_map : Option Pending → List (Text × ℕ) → List (Text × ℕ)
worker_map none m = m
worker_map (some p) m = elim p.worker [ closed o ↦ delete_pending p.call_id m | _ ↦ m ]

-- A received success is replaced by the outcome that was stored, if one was.
unfoldable pub load_outcome : Option Err → Option Outcome → Outcome → Outcome
load_outcome (some e) o out = out
load_outcome none none out = out
load_outcome none (some o) out = o

abbrev pub zero_outcome : Outcome
zero_outcome = record { transfer_id = []; err = none }

abbrev answer : Outcome → Pending → Pending
answer out p = record p { waiting = p.waiting - 1; answers = out ∷ p.answers }

-- A receive from `Done`: the buffered value, or the zero value of a closed channel, or no receive.
unfoldable pub receive_from : Option Outcome → Bool → Pending → Pending
unfolding load_outcome
receive_from (some out) b p = answer (load_outcome out.err p.outcome out) (record p { done = none })
receive_from none true p = answer (load_outcome none p.outcome zero_outcome) p
receive_from none false p = p

unfoldable pub receive : Pending → Pending
receive p = if ltb 0 p.waiting then receive_from p.done p.done_closed p else p

-- A request whose context is done no longer waits.
unfoldable pub give_up : Pending → Pending
give_up p = record p { waiting = p.waiting - 1 }

-- What may happen next, in any order.
pub data Event : Type 0 where
  requested : Option Err → Text → Text → Event
  worker_runs : ℕ → Outcome → Event
  received gave_up : ℕ → Event

unfoldable pub step : Event → Service → Service
unfolding worker_map
step (requested check c to) s = (transfer_sip_participant check c to s).0
step (worker_runs r out) s = record {
  store = modify r (λ p. worker_step out p.worker p) s.store;
  pending_transfers = worker_map (get_elem? s.store r) s.pending_transfers;
}
step (received r) s = record s { store = modify r receive s.store }
step (gave_up r) s = record s { store = modify r give_up s.store }

unfoldable pub run : List Event → Service → Service
run [] s = s
run (e ∷ es) s = run es (step e s)
