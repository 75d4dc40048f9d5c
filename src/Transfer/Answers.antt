-- ===== src/Transfer/Answers.antt =====
-- What the requests that wait for a transfer are answered (pkg/sip/service.go).
use sip_server.Prelude.{
  ℕ, zero, suc, ◌-◌, ◌≡◌, refl, ap, ◌∙◌, true, Option, none, some, List, ◌∷◌, ◌++◌, All, arith,
  replicate, subst, ltb, ◌⊎◌, inl, inr,
}
use sip_server.Transfer.{
  Outcome, Worker, running, sent, published, closed, returned, Pending, worker_step, receive_from,
  receive, zero_outcome, Event, run, new_service, get_elem?,
}
use sip_server.Transfer.Invariant.{
  decided, IsConsistent, IsGood, receive-IsGood, worker_step-IsGood, load_outcome-closed,
  decided-load_outcome,
}
use sip_server.Transfer.Objects.{get_elem?-All}
use sip_server.Transfer.Good.{run-IsGood}

reached :
    (es : List Event) (r : ℕ) (p : Pending)
    → get_elem? (run es new_service).store r ≡ some p
    → IsGood p
unfolding new_service
reached es r p e = get_elem?-All IsGood r _ p (run-IsGood es new_service tt) e

-- Over any interleaving, whatever a request for a transfer has received is the outcome of the worker
-- of that transfer, so that all requests for it received the same.
pub run_answers :
    (es : List Event) (r : ℕ) (p : Pending)
    → get_elem? (run es new_service).store r ≡ some p
    → All (λ o. decided p.worker ≡ some o) p.answers
run_answers es r p e = (reached es r p e).answered

-- The worker's statements up to the close of `Done`.
pub works_on : ℕ → Outcome → Pending → Pending
works_on zero out p = p
works_on (suc n) out p = works_on n out (worker_step out p.worker p)

pub drain : ℕ → Pending → Pending
drain zero p = p
drain (suc n) p = drain n (receive p)

receive_from-answer :
    (d : Option Outcome) (p : Pending) (o : Outcome)
    → p.done ≡ d
    → IsGood p
    → p.done_closed ≡ true
    → decided p.worker ≡ some o
    → let q = receive_from d true p in
      (q.answers ≡ o ∷ p.answers)
      × (q.waiting ≡ p.waiting - 1)
      × (q.worker ≡ p.worker)
      × (q.done_closed ≡ true)
unfolding receive_from
receive_from-answer none p o e v c k =
    let g : IsConsistent p.worker p.done true p.outcome =
      subst (λ b. IsConsistent p.worker p.done b p.outcome) c v.consistent in
    ground (arith, load_outcome-closed p.worker zero_outcome p.done p.outcome g, k, c)
receive_from-answer (some out) p o e v c k =
    let g : IsConsistent p.worker (some out) p.done_closed p.outcome =
      subst (λ d. IsConsistent p.worker d p.done_closed p.outcome) e v.consistent in
    ground (arith, decided-load_outcome p.worker out p.done_closed p.outcome g, k, c)

replicate_snoc :
    (n : ℕ) (o : Outcome) (os : List Outcome) → replicate n o ++ o ∷ os ≡ o ∷ replicate n o ++ os
replicate_snoc zero o os = refl
replicate_snoc (suc n) o os = ap (λ l. o ∷ l) (replicate_snoc n o os)

receive-answer :
    (p : Pending) (o : Outcome)
    → ltb 0 p.waiting ≡ true
    → IsGood p
    → p.done_closed ≡ true
    → decided p.worker ≡ some o
    → ((receive p).answers ≡ o ∷ p.answers)
      × ((receive p).waiting ≡ p.waiting - 1)
      × ((receive p).worker ≡ p.worker)
      × ((receive p).done_closed ≡ true)
unfolding receive
receive-answer p o w v c k =
    let a = receive_from-answer p.done p o refl v c k in ground (arith, w, c, a)

drain-answers :
    (n : ℕ) (p : Pending) (o : Outcome)
    → p.waiting ≡ n
    → IsGood p
    → p.done_closed ≡ true
    → decided p.worker ≡ some o
    → ((drain n p).waiting ≡ 0) × ((drain n p).answers ≡ replicate n o ++ p.answers)
unfolding drain
drain-answers zero p o e v c k = (e, refl)
drain-answers (suc n) p o e v c k =
    let (a, w, x, y) = receive-answer p o (ground (arith, e)) v c k in
    let (z, r) =
      drain-answers n (receive p) o (ground (arith, w, e)) (receive-IsGood p v) y
        (ap decided x ∙ k) in
    (z, r ∙ (ap (λ l. replicate n o ++ l) a ∙ replicate_snoc n o p.answers))

works_on-IsGood : (n : ℕ) (out : Outcome) (p : Pending) → IsGood p → IsGood (works_on n out p)
unfolding works_on
works_on-IsGood zero out p v = v
works_on-IsGood (suc n) out p v = works_on-IsGood n out _ (worker_step-IsGood out p v)

worker-IsConsistent :
    (p : Pending) (w : Worker)
    → p.worker ≡ w
    → IsGood p
    → IsConsistent w p.done p.done_closed p.outcome
worker-IsConsistent p w e v =
    subst (λ x. IsConsistent x p.done p.done_closed p.outcome) e v.consistent

-- Where the three statements leave the worker.
served :
    (out : Outcome) (p : Pending) (w : Worker)
    → p.worker ≡ w
    → IsConsistent w p.done p.done_closed p.outcome
    → ((works_on 3 out p).waiting ≡ p.waiting)
      × ((works_on 3 out p).answers ≡ p.answers)
      × ((works_on 3 out p).done_closed ≡ true)
      × (((decided (works_on 3 out p).worker ≡ some out) × (decided p.worker ≡ none))
          ⊎ ((o : Outcome) × (decided (works_on 3 out p).worker ≡ some o)
              × (decided p.worker ≡ some o)))
unfolding works_on worker_step
served out p running e c =
    (ground (arith, e), ground (arith, e), ground (arith, e), inl (ground (arith, e)))
served out p (sent o) e c = (
  ground (arith, e),
  ground (arith, e),
  ground (arith, e),
  inr (o, ground (arith, e), ground (arith, e)),
)
served out p (published o) e c = (
  ground (arith, e),
  ground (arith, e),
  ground (arith, e),
  inr (o, ground (arith, e), ground (arith, e)),
)
served out p (closed o) e c = (
  ground (arith, e),
  ground (arith, e),
  ground (arith, e, c),
  inr (o, ground (arith, e), ground (arith, e)),
)
served out p (returned o) e c = (
  ground (arith, e),
  ground (arith, e),
  ground (arith, e, c),
  inr (o, ground (arith, e), ground (arith, e)),
)

drain_closed :
    (p q : Pending) (o : Outcome)
    → q.waiting ≡ p.waiting
    → q.answers ≡ p.answers
    → q.done_closed ≡ true
    → IsGood q
    → decided q.worker ≡ some o
    → ((drain q.waiting q).waiting ≡ 0)
      × ((drain q.waiting q).answers ≡ replicate p.waiting o ++ p.answers)
drain_closed p q o w a c v k =
    let (z, r) = drain-answers q.waiting q o refl v c k in ground (arith, z, r, w, a)

-- From any state that an interleaving reaches, once three more statements of a worker have run, each
-- request that waits for its transfer receives an answer, and all of them the same: the outcome
-- that the worker had already come to, or else the one that processParticipantTransfer returns.
pub drain-works_on :
    (es : List Event) (r : ℕ) (p : Pending) (out : Outcome)
    → get_elem? (run es new_service).store r ≡ some p
    → let q = works_on 3 out p in
      (o : Outcome) × (((o ≡ out) × (decided p.worker ≡ none)) ⊎ (decided p.worker ≡ some o))
      × ((drain q.waiting q).waiting ≡ 0)
      × ((drain q.waiting q).answers ≡ replicate p.waiting o ++ p.answers)
drain-works_on es r p out e =
    let v = reached es r p e in
    let q = works_on 3 out p in
    let g = works_on-IsGood 3 out p v in
    let (w, a, c, k) = served out p p.worker refl (worker-IsConsistent p p.worker refl v) in
    elim k [
      | inl (d, n) ↦ let (y, z) = drain_closed p q out w a c g d in (out, inl (refl, n), y, z)
      | inr (o, d, n) ↦ let (y, z) = drain_closed p q o w a c g d in (o, inr n, y, z)
    ]
