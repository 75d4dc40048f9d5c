-- ===== src/Transfer/Refines.antt =====
-- The transfers as their callers see them, and that the channel and the pointer of pkg/sip/service.go
-- implement it: a transfer has one result, and each request that waits gets it.
use sip_server.Prelude.{
  ℕ, ◌≡◌, refl, ap, Bool, true, false, ◌&&◌, ◌||◌, Option, none, some, List, [], ◌∷◌, ◌++◌, map,
  All, arith, ltb, is_some, if◌then◌else◌, Text, Option-cases, inl, inr, subst, sym, text_eq,
  Bool-cases,
}
use sip_server.Errors.{Err}
use sip_server.Transfer.{
  Outcome, Worker, running, sent, published, closed, returned, Pending, Service, new_pending,
  modify, worker_step, worker_map, receive_from, receive, give_up, zero_outcome, Event, requested,
  worker_runs, received, gave_up, step, run, new_service, transfer_sip_participant, created, asked,
  is_elsewhere, wait, get_or_create_pending_transfer, find_pending, get_elem?,
}
use sip_server.Transfer.Spec
use sip_server.Transfer.Invariant.{IsGood, IsConsistent, load_outcome-closed, decided-load_outcome}
use sip_server.Transfer.Objects.{
  get_elem?-All, length-map, map_append, map-modify, map-modify_same, map-modify_idle,
  modify_append,
}
use sip_server.Transfer.Good.{step-IsGood}
use sip_server.Transfer.Views.{
  abstract_pending, abstract, seen_worker, seen_receive, seen, seen_run,
}

abbrev view : List Spec.Transfer → List (Text × ℕ) → Spec.Spec
view l m = record { transfers = l; current = m }

-- At a position that holds `p`, a change of the objects is known by its effect on `p`.
module _ (s : Service) (r : ℕ) (p : Pending) (at : get_elem? s.store r ≡ some p) where
  only_p : (q : Pending) → get_elem? s.store r ≡ some q → q ≡ p
  only_p q e = ground (arith, e, at)

  same-abstract :
      (f : Pending → Pending)
      → abstract_pending (f p) ≡ abstract_pending p
      → map abstract_pending (modify r f s.store) ≡ map abstract_pending s.store
  same-abstract f h =
      map-modify_same abstract_pending r f s.store (λ q e. ground (arith, only_p q e, h))

  change-abstract :
      (f : Pending → Pending) (g : Spec.Transfer → Spec.Transfer)
      → abstract_pending (f p) ≡ g (abstract_pending p)
      → map abstract_pending (modify r f s.store) ≡ modify r g (map abstract_pending s.store)
  change-abstract f g h =
      map-modify abstract_pending r f g s.store
        (λ q e. subst (λ x. abstract_pending (f x) ≡ g (abstract_pending x)) (sym (only_p q e)) h)

new-abstract :
    (c to : Text) (s : Service)
    → abstract (asked to (created c to s none)).0 ≡ Spec.asked_at c to (abstract s) none
unfolding asked created Spec.asked_at new_pending
new-abstract c to s =
    let m = modify_append wait s.store (new_pending c to) in
    let a = map_append abstract_pending s.store (wait (new_pending c to)) in
    let l = length-map abstract_pending s.store in ground (arith, m, a, l)

joined-abstract :
    (c to : Text) (s : Service) (r : ℕ) (p : Pending)
    → get_elem? s.store r ≡ some p
    → abstract (asked to (created c to s (some r))).0 ≡ Spec.asked_at c to (abstract s) (some r)
unfolding asked created Spec.asked_at is_elsewhere
joined-abstract c to s r p at = elim (Bool-cases (text_eq p.transfer_to to)) [
  | inl t ↦
      let k = change-abstract s r p at wait (Spec.join to) (ground (arith, t)) in
      ground (arith, at, t, k)
  | inr t ↦
      let k =
        map-modify_idle abstract_pending r (Spec.join to) s.store
          (λ q e. let o = only_p s r p at q e in ground (arith, o, t)) in
      ground (arith, at, t, k)
]

old-abstract :
    (c to : Text) (s : Service) (r : ℕ)
    → abstract (asked to (created c to s (some r))).0 ≡ Spec.asked_at c to (abstract s) (some r)
unfolding asked created Spec.asked_at is_elsewhere
old-abstract c to s r = elim (Option-cases (get_elem? s.store r)) [
  | inl n ↦
      let i =
        map-modify_idle abstract_pending r (Spec.join to) s.store (λ p e. ground (arith, n, e)) in
      ground (arith, n, i)
  | inr (p, f) ↦ joined-abstract c to s r p f
]

asked-abstract :
    (c to : Text) (s : Service) (o : Option ℕ)
    → abstract (asked to (created c to s o)).0 ≡ Spec.asked_at c to (abstract s) o
asked-abstract c to s none = new-abstract c to s
asked-abstract c to s (some r) = old-abstract c to s r

missing-abstract :
    (s : Service) (r : ℕ) (f : Pending → Pending)
    → get_elem? s.store r ≡ none
    → map abstract_pending (modify r f s.store) ≡ map abstract_pending s.store
missing-abstract s r f n =
    map-modify_same abstract_pending r f s.store (λ p e. ground (arith, n, e))

worker_at-abstract :
    (s : Service) (r : ℕ) (out : Outcome) (p : Pending) (w : Worker)
    → get_elem? s.store r ≡ some p
    → p.worker ≡ w
    → abstract (step (worker_runs r out) s)
      ≡ Spec.run (seen_worker r out (get_elem? s.store r)) (abstract s)
unfolding step worker_map seen_worker Spec.run Spec.step worker_step
worker_at-abstract s r out p running at e =
    let k =
      change-abstract s r p at (λ q. worker_step out q.worker q) (Spec.settle out)
        (ground (arith, e)) in
    ground (arith, at, e, k)
worker_at-abstract s r out p (sent o) at e =
    let k = same-abstract s r p at (λ q. worker_step out q.worker q) (ground (arith, e)) in
    ground (arith, at, e, k)
worker_at-abstract s r out p (published o) at e =
    let k = same-abstract s r p at (λ q. worker_step out q.worker q) (ground (arith, e)) in
    ground (arith, at, e, k)
worker_at-abstract s r out p (closed o) at e =
    let k = same-abstract s r p at (λ q. worker_step out q.worker q) (ground (arith, e)) in
    ground (arith, at, e, k)
worker_at-abstract s r out p (returned o) at e =
    let k = same-abstract s r p at (λ q. worker_step out q.worker q) (ground (arith, e)) in
    ground (arith, at, e, k)

worker-abstract :
    (s : Service) (r : ℕ) (out : Outcome)
    → abstract (step (worker_runs r out) s)
      ≡ Spec.run (seen_worker r out (get_elem? s.store r)) (abstract s)
unfolding step worker_map seen_worker Spec.run
worker-abstract s r out = elim (Option-cases (get_elem? s.store r)) [
  | inl n ↦ let k = missing-abstract s r (λ q. worker_step out q.worker q) n in ground (arith, n, k)
  | inr (p, at) ↦ worker_at-abstract s r out p p.worker at refl
]

-- A receive gives a request the result.
receive_from-reply :
    (d : Option Outcome) (c : Bool) (p : Pending)
    → p.done ≡ d
    → p.done_closed ≡ c
    → IsGood p
    → (is_some d || c) ≡ true
    → abstract_pending (receive_from d c p) ≡ Spec.reply (abstract_pending p)
unfolding receive_from
receive_from-reply none false p e f v h = ground (arith, h)
receive_from-reply none true p e f v h =
    let k : IsConsistent p.worker p.done true p.outcome =
      subst (λ b. IsConsistent p.worker p.done b p.outcome) f v.consistent in
    ground (arith, load_outcome-closed p.worker zero_outcome p.done p.outcome k)
receive_from-reply (some out) c p e f v h =
    let k : IsConsistent p.worker (some out) p.done_closed p.outcome =
      subst (λ d. IsConsistent p.worker d p.done_closed p.outcome) e v.consistent in
    ground (arith, decided-load_outcome p.worker out p.done_closed p.outcome k)

-- Whether a request receives.
abbrev receives : Pending → Bool
receives p = ltb 0 p.waiting && (is_some p.done || p.done_closed)

receive-reply :
    (p : Pending)
    → IsGood p
    → receives p ≡ true
    → abstract_pending (receive p) ≡ Spec.reply (abstract_pending p)
unfolding receive
receive-reply p v h =
    let k = receive_from-reply p.done p.done_closed p refl refl v (ground (arith, h)) in
    ground (arith, k, h)

receive-idle :
    (d : Option Outcome) (c : Bool) (p : Pending)
    → (ltb 0 p.waiting && (is_some d || c)) ≡ false
    → (if ltb 0 p.waiting then receive_from d c p else p) ≡ p
unfolding receive_from
receive-idle none false p h = ground (arith, h)
receive-idle none true p h = ground (arith, h)
receive-idle (some out) c p h = ground (arith, h)

receive_at-abstract :
    (s : Service) (r : ℕ) (p : Pending)
    → get_elem? s.store r ≡ some p
    → IsGood p
    → abstract (step (received r) s) ≡ Spec.run (seen_receive r (get_elem? s.store r)) (abstract s)
unfolding step seen_receive Spec.run Spec.step receive
receive_at-abstract s r p at v = elim (Bool-cases (receives p)) [
  | inl h ↦
      let k = change-abstract s r p at receive Spec.reply (receive-reply p v h) in
      ground (arith, at, h, k)
  | inr h ↦
      let k =
        same-abstract s r p at receive
          (ap abstract_pending (receive-idle p.done p.done_closed p h)) in
      ground (arith, at, h, k)
]

refused-abstract :
    (s : Service) (e : Err) (c to : Text)
    → abstract (step (requested (some e) c to) s) ≡ Spec.run [] (abstract s)
unfolding step transfer_sip_participant Spec.run
refused-abstract s e c to = refl

requested-abstract :
    (s : Service) (c to : Text)
    → abstract (step (requested none c to) s) ≡ Spec.run (Spec.asked c to ∷ []) (abstract s)
unfolding step transfer_sip_participant get_or_create_pending_transfer Spec.run Spec.step
requested-abstract s c to = asked-abstract c to s (find_pending c s.pending_transfers)

gave_up-abstract :
    (s : Service) (r : ℕ) → abstract (step (gave_up r) s) ≡ Spec.run (Spec.left r ∷ []) (abstract s)
unfolding step give_up Spec.run Spec.step
gave_up-abstract s r =
    ap (λ l. view l s.pending_transfers)
      (map-modify abstract_pending r give_up Spec.leave s.store (λ p e. refl))

receive-abstract :
    (s : Service) (r : ℕ)
    → All IsGood s.store
    → abstract (step (received r) s) ≡ Spec.run (seen_receive r (get_elem? s.store r)) (abstract s)
unfolding step seen_receive Spec.run
receive-abstract s r v = elim (Option-cases (get_elem? s.store r)) [
  | inl n ↦ let k = missing-abstract s r receive n in ground (arith, n, k)
  | inr (p, at) ↦ receive_at-abstract s r p at (get_elem?-All IsGood r s.store p v at)
]

step-abstract :
    (e : Event) (s : Service)
    → All IsGood s.store
    → abstract (step e s) ≡ Spec.run (seen e s) (abstract s)
unfolding seen
step-abstract (requested (some e) c to) s v = refused-abstract s e c to
step-abstract (requested none c to) s v = requested-abstract s c to
step-abstract (worker_runs r out) s v = worker-abstract s r out
step-abstract (received r) s v = receive-abstract s r v
step-abstract (gave_up r) s v = gave_up-abstract s r

run_append :
    (xs ys : List Spec.Event) (s : Spec.Spec) → Spec.run (xs ++ ys) s ≡ Spec.run ys (Spec.run xs s)
unfolding Spec.run
run_append [] ys s = refl
run_append (x ∷ xs) ys s = run_append xs ys (Spec.step x s)

run_from_refines :
    (es : List Event) (s : Service)
    → All IsGood s.store
    → abstract (run es s) ≡ Spec.run (seen_run es s) (abstract s)
unfolding run seen_run Spec.run
run_from_refines [] s v = refl
run_from_refines (e ∷ es) s v =
    let k = run_from_refines es (step e s) (step-IsGood e s v) in
    let a = run_append (seen e s) (seen_run es (step e s)) (abstract s) in
    cc (k, a, step-abstract e s v)

-- Over any interleaving of requests, of the statements of the workers, of receives from the channels
-- and of contexts that end: what the callers see of the service, that is, target, result, waiting
-- requests and replies of each transfer and the transfer that each call is in, is what the
-- specification comes to on the events that they see.
pub run_refines :
    (es : List Event)
    → abstract (run es new_service) ≡ Spec.run (seen_run es new_service) Spec.new_spec
unfolding new_service Spec.new_spec
run_refines es = run_from_refines es new_service tt
