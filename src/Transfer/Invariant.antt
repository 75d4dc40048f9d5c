-- ===== src/Transfer/Invariant.antt =====
-- The objects of the transfers over any interleaving (pkg/sip/service.go).
use sip_server.Prelude.{
  ◌≡◌, refl, Bool, true, false, Option, none, some, List, [], ◌∷◌, All, arith, ◌⊎◌, Text, subst,
}
use sip_server.Transfer.{
  Outcome, Worker, running, sent, published, closed, returned, Pending, new_pending, worker_step,
  receive_from, receive, give_up, load_outcome, zero_outcome, wait, send_done,
}

-- The outcome that the worker has come to.
abbrev pub decided : Worker → Option Outcome
decided running = none
decided (sent o) = some o
decided (published o) = some o
decided (closed o) = some o
decided (returned o) = some o

-- What the channel and the pointer hold at each statement of the worker.
abbrev pub IsConsistent : Worker → Option Outcome → Bool → Option Outcome → Type 0
IsConsistent running d c o = (d ≡ none) × (c ≡ false) × (o ≡ none)
IsConsistent (sent out) d c o = ((d ≡ none) ⊎ (d ≡ some out)) × (c ≡ false) × (o ≡ none)
IsConsistent (published out) d c o = ((d ≡ none) ⊎ (d ≡ some out)) × (c ≡ false) × (o ≡ some out)
IsConsistent (closed out) d c o = ((d ≡ none) ⊎ (d ≡ some out)) × (c ≡ true) × (o ≡ some out)
IsConsistent (returned out) d c o = ((d ≡ none) ⊎ (d ≡ some out)) × (c ≡ true) × (o ≡ some out)

-- Every answer was the outcome of the worker.
pub record IsGood (p : Pending) : Type 0 where
  pub consistent : IsConsistent p.worker p.done p.done_closed p.outcome
  pub answered : All (λ o. decided p.worker ≡ some o) p.answers

pub new_pending-IsGood : (c to : Text) → IsGood (new_pending c to)
unfolding new_pending
new_pending-IsGood c to = ground arith

all_decided :
    (v w : Worker) (os : List Outcome)
    → ((o : Outcome) → decided v ≡ some o → decided w ≡ some o)
    → All (λ o. decided v ≡ some o) os
    → All (λ o. decided w ≡ some o) os
all_decided v w [] h a = a
all_decided v w (o ∷ os) h (a, q) = (h o a, all_decided v w os h q)

worker_at-IsGood :
    (out : Outcome) (w : Worker) (p : Pending)
    → p.worker ≡ w
    → IsGood p
    → IsGood (worker_step out w p)
unfolding worker_step send_done
worker_at-IsGood out running p e v =
    let a = all_decided p.worker (sent out) p.answers (λ o q. ground (arith, e, q)) v.answered in
    let c : IsConsistent running p.done p.done_closed p.outcome = ground (arith, e, v) in
    ground arith
worker_at-IsGood out (sent o) p e v =
    let a = all_decided p.worker (published o) p.answers (λ o q. ground (arith, e, q)) v.answered in
    let c : IsConsistent (sent o) p.done p.done_closed p.outcome = ground (arith, e, v) in
    ground arith
worker_at-IsGood out (published o) p e v =
    let a = all_decided p.worker (closed o) p.answers (λ o q. ground (arith, e, q)) v.answered in
    let c : IsConsistent (published o) p.done p.done_closed p.outcome = ground (arith, e, v) in
    ground arith
worker_at-IsGood out (closed o) p e v =
    let a = all_decided p.worker (returned o) p.answers (λ o q. ground (arith, e, q)) v.answered in
    let c : IsConsistent (closed o) p.done p.done_closed p.outcome = ground (arith, e, v) in
    ground arith
worker_at-IsGood out (returned o) p e v = v

-- What a request receives is what the worker has decided.
pub decided-load_outcome :
    (w : Worker) (out : Outcome) (c : Bool) (o : Option Outcome)
    → IsConsistent w (some out) c o
    → decided w ≡ some (load_outcome out.err o out)
unfolding load_outcome
decided-load_outcome running out c o v = ground arith
decided-load_outcome (sent x) out c o v = ground arith
decided-load_outcome (published x) out c o v = ground arith
decided-load_outcome (closed x) out c o v = ground arith
decided-load_outcome (returned x) out c o v = ground arith

pub load_outcome-closed :
    (w : Worker) (out : Outcome) (d o : Option Outcome)
    → IsConsistent w d true o
    → decided w ≡ some (load_outcome none o out)
unfolding load_outcome
load_outcome-closed running out d o v = ground arith
load_outcome-closed (sent x) out d o v = ground arith
load_outcome-closed (published x) out d o v = ground arith
load_outcome-closed (closed x) out d o v = ground arith
load_outcome-closed (returned x) out d o v = ground arith

-- The buffer may be emptied once it was filled.
drained :
    (w : Worker) (out : Outcome) (c : Bool) (o : Option Outcome)
    → IsConsistent w (some out) c o
    → IsConsistent w none c o
drained running out c o v = ground arith
drained (sent x) out c o v = ground arith
drained (published x) out c o v = ground arith
drained (closed x) out c o v = ground arith
drained (returned x) out c o v = ground arith

receive_from-IsGood :
    (d : Option Outcome) (c : Bool) (p : Pending)
    → p.done ≡ d
    → p.done_closed ≡ c
    → IsGood p
    → IsGood (receive_from d c p)
unfolding receive_from
receive_from-IsGood none false p e f v = v
receive_from-IsGood none true p e f v =
    let k : IsConsistent p.worker p.done true p.outcome =
      subst (λ b. IsConsistent p.worker p.done b p.outcome) f v.consistent in
    let h = load_outcome-closed p.worker zero_outcome p.done p.outcome k in
    record { consistent = v.consistent; answered = (h, v.answered) }
receive_from-IsGood (some out) c p e f v =
    let k : IsConsistent p.worker (some out) p.done_closed p.outcome =
      subst (λ d. IsConsistent p.worker d p.done_closed p.outcome) e v.consistent in
    let h = decided-load_outcome p.worker out p.done_closed p.outcome k in
    let g = drained p.worker out p.done_closed p.outcome k in
    record { consistent = g; answered = (h, v.answered) }

pub receive-IsGood : (p : Pending) → IsGood p → IsGood (receive p)
unfolding receive
receive-IsGood p v =
    let h = receive_from-IsGood p.done p.done_closed p refl refl v in ground (arith, h)

pub worker_step-IsGood :
    (out : Outcome) (p : Pending) → IsGood p → IsGood (worker_step out p.worker p)
worker_step-IsGood out p v = worker_at-IsGood out p.worker p refl v

pub give_up-IsGood : (p : Pending) → IsGood p → IsGood (give_up p)
unfolding give_up
give_up-IsGood p v = record { consistent = v.consistent; answered = v.answered }

pub wait-IsGood : (p : Pending) → IsGood p → IsGood (wait p)
wait-IsGood p v = record { consistent = v.consistent; answered = v.answered }
