-- ===== src/Transfer/Single.antt =====
-- A call is in one transfer at a time (pkg/sip/service.go).
use sip_server.Prelude.{
  ℕ, ◌≡◌, ◌≢◌, refl, sym, ap, Bool, true, false, Option, none, some, List, [], ◌∷◌, ◌++◌, arith,
  Text, text_eq, text_eq_self, text_eq→eq, Option-cases, Bool-cases, inl, inr, length, subst, ◌∙◌,
}
use sip_server.Transfer.{
  Outcome, Worker, running, sent, published, closed, returned, Pending, Service, new_pending,
  modify, worker_step, worker_map, receive_from, receive, give_up, Event, requested, worker_runs,
  received, gave_up, step, run, new_service, transfer_sip_participant, created, asked, is_elsewhere,
  wait, get_or_create_pending_transfer, find_pending, get_elem?,
}
use sip_server.Transfer.Objects.{
  get_elem?-append_old, get_elem?-append_new, get_elem?-append_cases, get_elem?-bound,
}
use sip_server.Transfer.Listed.{
  is_live, IsListed, text_ne, Keeps, keep-IsListed, same_at, delete-IsListed,
}

-- How one service makes its changes.
stays :
    (r : ℕ) (f : Pending → Pending) (store : List Pending) (m : List (Text × ℕ))
    → ((p : Pending) → ((f p).call_id ≡ p.call_id) × (is_live (f p).worker ≡ is_live p.worker))
    → IsListed store m
    → IsListed (modify r f store) m
unfolding Keeps
stays r f store m h v = keep-IsListed r f store m (λ p e. h p) v

receive_from_keeps :
    (d : Option Outcome) (c : Bool) (p : Pending)
    → ((receive_from d c p).call_id ≡ p.call_id) × ((receive_from d c p).worker ≡ p.worker)
unfolding receive_from
receive_from_keeps none false p = (refl, refl)
receive_from_keeps none true p = (refl, refl)
receive_from_keeps (some o) c p = (refl, refl)

receive_keeps :
    (p : Pending)
    → ((receive p).call_id ≡ p.call_id) × (is_live (receive p).worker ≡ is_live p.worker)
unfolding receive
receive_keeps p = let k = receive_from_keeps p.done p.done_closed p in ground (arith, k)

-- Each statement of the worker but the last.
worker_keeps :
    (out : Outcome) (w : Worker) (p : Pending)
    → p.worker ≡ w
    → ((o : Outcome) → w ≢ closed o)
    → ((worker_step out w p).call_id ≡ p.call_id)
      × (is_live (worker_step out w p).worker ≡ is_live p.worker)
unfolding worker_step
worker_keeps out running p e n = ground (arith, e)
worker_keeps out (sent o) p e n = ground (arith, e)
worker_keeps out (published o) p e n = ground (arith, e)
worker_keeps out (closed o) p e n = elim (n o refl) [ ]
worker_keeps out (returned o) p e n = ground (arith, e)

abbrev works : Outcome → Pending → Pending
works out q = worker_step out q.worker q

ordinary-IsListed :
    (r : ℕ) (out : Outcome) (store : List Pending) (m : List (Text × ℕ)) (p : Pending)
    → get_elem? store r ≡ some p
    → ((o : Outcome) → p.worker ≢ closed o)
    → IsListed store m
    → IsListed (modify r (works out) store) m
unfolding Keeps
ordinary-IsListed r out store m p at n v =
    keep-IsListed r (works out) store m
      (λ q e.
        let k = same_at store r r p q at e refl in
        worker_keeps out q.worker q refl (λ o z. n o (ap (λ x. x.worker) (sym k) ∙ z)))
      v

worker_at-IsListed :
    (r : ℕ) (out : Outcome) (store : List Pending) (m : List (Text × ℕ)) (p : Pending) (w : Worker)
    → get_elem? store r ≡ some p
    → p.worker ≡ w
    → IsListed store m
    → IsListed (modify r (works out) store) (worker_map (some p) m)
unfolding worker_map worker_step
worker_at-IsListed r out store m p (closed o) at e v =
    let k = delete-IsListed r store m p (works out) at (ground (arith, e)) v (ground (arith, e)) in
    ground (arith, e, k)
worker_at-IsListed r out store m p running at e v =
    let k = ordinary-IsListed r out store m p at (λ o z. ground (arith, e, z)) v in
    ground (arith, e, k)
worker_at-IsListed r out store m p (sent o) at e v =
    let k = ordinary-IsListed r out store m p at (λ o z. ground (arith, e, z)) v in
    ground (arith, e, k)
worker_at-IsListed r out store m p (published o) at e v =
    let k = ordinary-IsListed r out store m p at (λ o z. ground (arith, e, z)) v in
    ground (arith, e, k)
worker_at-IsListed r out store m p (returned o) at e v =
    let k = ordinary-IsListed r out store m p at (λ o z. ground (arith, e, z)) v in
    ground (arith, e, k)

missing-IsListed :
    (r : ℕ) (f : Pending → Pending) (store : List Pending) (m : List (Text × ℕ))
    → get_elem? store r ≡ none
    → IsListed store m
    → IsListed (modify r f store) m
unfolding Keeps
missing-IsListed r f store m n v = keep-IsListed r f store m (λ q e. ground (arith, n, e)) v

new-IsListed :
    (c to : Text) (s : Service)
    → find_pending c s.pending_transfers ≡ none
    → IsListed s.store s.pending_transfers
    → IsListed (created c to s none).0.store (created c to s none).0.pending_transfers
unfolding created new_pending find_pending
new-IsListed c to s n v = record {
  listed = λ i p g l. elim (get_elem?-append_cases i s.store (new_pending c to) p g) [
    | inl e ↦
        let a = v.listed i p e l in
        let u = text_ne p.call_id c (λ z.
          let b = subst (λ x. find_pending x s.pending_transfers ≡ some i) z a in
          ground (arith, b, n)) in
        ground (arith, u, a)
    | inr (a, b) ↦ ground (arith, a, b, text_eq_self c)
  ];
  held = λ d i g. elim (Bool-cases (text_eq d c)) [
    | inl t ↦
        let k : length s.store ≡ i = ground (arith, t, g) in
        (
          new_pending c to,
          subst (λ n. get_elem? (s.store ++ new_pending c to ∷ []) n ≡ some (new_pending c to)) k
              (get_elem?-append_new s.store (new_pending c to)),
          sym (text_eq→eq d c t),
          refl,
        )
    | inr f ↦
        let (q, e, k, l) = v.held d i (ground (arith, f, g)) in
        (
          q,
          get_elem?-append_old i s.store (new_pending c to ∷ []) (get_elem?-bound i s.store q e)
              ∙ e,
          k,
          l,
        )
  ];
}

created-IsListed :
    (c to : Text) (s : Service) (o : Option ℕ)
    → find_pending c s.pending_transfers ≡ o
    → IsListed s.store s.pending_transfers
    → IsListed (created c to s o).0.store (created c to s o).0.pending_transfers
unfolding created
created-IsListed c to s (some r) n v = v
created-IsListed c to s none n v = new-IsListed c to s n v

asked-IsListed :
    (to : Text) (s : Service) (r : ℕ) (b : Bool)
    → IsListed s.store s.pending_transfers
    → IsListed (asked to (s, r, b)).0.store (asked to (s, r, b)).0.pending_transfers
unfolding asked
asked-IsListed to s r true v = stays r wait s.store s.pending_transfers (λ p. (refl, refl)) v
asked-IsListed to s r false v =
    let k = stays r wait s.store s.pending_transfers (λ p. (refl, refl)) v in
    elim (Bool-cases (is_elsewhere to (get_elem? s.store r))) [
      | inl t ↦ ground (arith, t, v)
      | inr f ↦ ground (arith, f, k)
    ]

worker-IsListed :
    (r : ℕ) (out : Outcome) (store : List Pending) (m : List (Text × ℕ))
    → IsListed store m
    → IsListed (modify r (works out) store) (worker_map (get_elem? store r) m)
unfolding worker_map
worker-IsListed r out store m v = elim (Option-cases (get_elem? store r)) [
  | inl n ↦
      subst (λ x. IsListed (modify r (works out) store) (worker_map x m)) (sym n)
        (missing-IsListed r (works out) store m n v)
  | inr (p, at) ↦
      subst (λ x. IsListed (modify r (works out) store) (worker_map x m)) (sym at)
        (worker_at-IsListed r out store m p p.worker at refl v)
]

step-IsListed :
    (e : Event) (s : Service)
    → IsListed s.store s.pending_transfers
    → IsListed (step e s).store (step e s).pending_transfers
unfolding step transfer_sip_participant get_or_create_pending_transfer give_up
step-IsListed (requested (some e) c to) s v = v
step-IsListed (requested none c to) s v =
    asked-IsListed to _ _ _ (created-IsListed c to s (find_pending c s.pending_transfers) refl v)
step-IsListed (worker_runs r out) s v = worker-IsListed r out s.store s.pending_transfers v
step-IsListed (received r) s v = stays r receive s.store s.pending_transfers receive_keeps v
step-IsListed (gave_up r) s v = stays r give_up s.store s.pending_transfers (λ p. (refl, refl)) v

run-IsListed :
    (es : List Event) (s : Service)
    → IsListed s.store s.pending_transfers
    → IsListed (run es s).store (run es s).pending_transfers
unfolding run
run-IsListed [] s v = v
run-IsListed (e ∷ es) s v = run-IsListed es (step e s) (step-IsListed e s v)

new_service-IsListed : IsListed new_service.store new_service.pending_transfers
unfolding new_service find_pending
new_service-IsListed = record {
  listed = λ i p e l. ground (arith, e);
  held = λ c i e. ground (arith, e);
}

-- Over any interleaving of requests, of the statements of the workers, of receives and of contexts
-- that end: two transfers of the same call whose workers have not returned are one transfer.
pub run_single :
    (es : List Event) (i j : ℕ) (p q : Pending)
    → get_elem? (run es new_service).store i ≡ some p
    → get_elem? (run es new_service).store j ≡ some q
    → p.call_id ≡ q.call_id
    → is_live p.worker ≡ true
    → is_live q.worker ≡ true
    → i ≡ j
run_single es i j p q a b c l m =
    let v = run-IsListed es new_service new_service-IsListed in
    let x = v.listed i p a l in let y = v.listed j q b m in ground (arith, x, y, c)
