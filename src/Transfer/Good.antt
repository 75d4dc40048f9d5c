-- ===== src/Transfer/Good.antt =====
-- Every object of a service is as its worker left it (pkg/sip/service.go).
use sip_server.Prelude.{ℕ, Bool, true, false, Option, none, some, List, [], ◌∷◌, All, arith, Text}
use sip_server.Transfer.{
  Service, receive, give_up, Event, requested, worker_runs, received, gave_up, step, run,
  transfer_sip_participant, created, asked, wait, get_or_create_pending_transfer, find_pending,
}
use sip_server.Transfer.Invariant.{
  IsGood, new_pending-IsGood, receive-IsGood, worker_step-IsGood, give_up-IsGood, wait-IsGood,
}
use sip_server.Transfer.Objects.{modify-All, append-All}

created-IsGood :
    (c to : Text) (s : Service) (o : Option ℕ)
    → All IsGood s.store
    → All IsGood (created c to s o).0.store
unfolding created
created-IsGood c to s none v = append-All IsGood s.store _ v (new_pending-IsGood c to)
created-IsGood c to s (some r) v = v

asked-IsGood :
    (to : Text) (s : Service) (r : ℕ) (b : Bool)
    → All IsGood s.store
    → All IsGood (asked to (s, r, b)).0.store
unfolding asked
asked-IsGood to s r true v = modify-All IsGood r wait s.store wait-IsGood v
asked-IsGood to s r false v =
    let w = modify-All IsGood r wait s.store wait-IsGood v in ground (arith, w, v)

pub step-IsGood : (e : Event) (s : Service) → All IsGood s.store → All IsGood (step e s).store
unfolding step transfer_sip_participant get_or_create_pending_transfer
step-IsGood (requested (some e) c to) s v = v
step-IsGood (requested none c to) s v =
    let found = find_pending c s.pending_transfers in
    asked-IsGood to _ _ _ (created-IsGood c to s found v)
step-IsGood (worker_runs r out) s v =
    modify-All IsGood r _ s.store (λ p. worker_step-IsGood out p) v
step-IsGood (received r) s v = modify-All IsGood r receive s.store receive-IsGood v
step-IsGood (gave_up r) s v = modify-All IsGood r give_up s.store give_up-IsGood v

pub run-IsGood : (es : List Event) (s : Service) → All IsGood s.store → All IsGood (run es s).store
unfolding run
run-IsGood [] s v = v
run-IsGood (e ∷ es) s v = run-IsGood es (step e s) (step-IsGood e s v)
