-- ===== src/Inbound/Leg/Sequence.antt =====
-- The numbering of our requests inside the dialog (`setCSeq` of pkg/sip/inbound.go), where a REFER that
-- TransferCall has numbered may be sent at any time later.
use sip_server.Prelude.{
  ℕ, suc, ◌+◌, ◌^◌, ◌≤◌, ◌<◌, ◌≡◌, ◌≢◌, ◌⊎◌, inl, inr, refl, true, false, Option, none, some, List,
  [], ◌∷◌, ◌++◌, All, arith, length, replicate, Text, text, text_eq, not, ◌&&◌, zero, ◌==◌, ==→eq,
  Bool, sym, subst,
}
use sip_server.Codes.{Result}
use sip_server.Errors.{Err}
use sip_server.Inbound.Leg.{
  Sent, ok_sdp, bye, refer, Leg, Config, Attempt, Reply, drop, respond, processing, send_ringing,
  start_ringing, ringing_tick, cancel, respond_and_drop, accept, accept_loop, after_loop,
  finish_accept, accept_ack, accept_bye, close_with_status, accept_as_keep_alive, new_refer,
  send_refer, max_retries, first_interval,
}
use sip_server.Inbound.Leg.Dialog.{
  Op, process, start, tick, cancelled_op, got_ack_op, got_bye, refer_op, drop_op, reject, accept_op,
  keep_alive_op, send_refer_op, close, step, IsNew,
}

-- The CSeq of our requests on the wire.
abbrev pub numbers : List Sent → List ℕ
numbers [] = []
numbers (bye n ∷ m) = n ∷ numbers m
numbers (refer n ∷ m) = n ∷ numbers m
numbers (_ ∷ m) = numbers m

-- The REFERs that are numbered and not sent yet, without the one that is sent.
unfoldable pub after_taking : ℕ → Bool → List ℕ → Option (List ℕ) → Option (List ℕ)
after_taking p true ps rest = some ps
after_taking p false ps none = none
after_taking p false ps (some qs) = some (p ∷ qs)

unfoldable pub take_out : ℕ → List ℕ → Option (List ℕ)
unfolding after_taking
take_out n [] = none
take_out n (p ∷ ps) = after_taking p (n == p) ps (take_out n ps)

unfoldable pub numbered : Err ⊎ ℕ → List ℕ → List ℕ
numbered (inl e) ps = ps
numbered (inr n) ps = n ∷ ps

-- A call of TransferCall sends the REFER that it has numbered, once.
unfoldable pub owed_refers : Op → Leg → List ℕ → Option (List ℕ)
unfolding numbered take_out
owed_refers refer_op l ps = some (numbered (new_refer l).1 ps)
owed_refers (send_refer_op n) l ps = take_out n ps
owed_refers _ l ps = some ps

unfoldable pub both : Option Leg → Option (List ℕ) → Option (Leg × List ℕ)
both (some k) (some qs) = some (k, qs)
both _ _ = none

-- A history of calls that does not panic, with the REFERs that it owes; `none` where it sends another.
unfoldable pub run_owed : Config → List Op → Leg → List ℕ → Option (Leg × List ℕ)
unfolding both owed_refers
run_owed c [] l ps = some (l, ps)
run_owed c (o ∷ os) l ps = elim (both (step c o l) (owed_refers o l ps)) [
  | none ↦ none
  | some x ↦ run_owed c os x.0 x.1
]

abbrev pub Distinct : List ℕ → Type 0
Distinct [] = Unit {0}
Distinct (n ∷ r) = All (λ m. n ≢ m) r × Distinct r

abbrev Below : ℕ → List ℕ → Type 0
Below n r = All (λ m. m < n) r

abbrev pub Disjoint : List ℕ → List ℕ → Type 0
Disjoint ps r = All (λ p. All (λ m. p ≢ m) r) ps

All-map : {P Q : ℕ → Type 0} (r : List ℕ) → ((m : ℕ) → P m → Q m) → All P r → All Q r
All-map [] f v = tt
All-map (m ∷ r) f v = (f m v.0, All-map r f v.1)

Below-suc : (n : ℕ) (r : List ℕ) → Below n r → Below (suc n) r
Below-suc n r b = All-map r (λ m h. omega arith) b

Below-apart : (n : ℕ) (r : List ℕ) → Below n r → All (λ m. n ≢ m) r
Below-apart n r b = All-map r (λ m h e. omega arith) b

-- One more number on the wire.
Disjoint-more : (n : ℕ) (ps r : List ℕ) → All (λ m. n ≢ m) ps → Disjoint ps r → Disjoint ps (n ∷ r)
Disjoint-more n [] r a d = tt
Disjoint-more n (p ∷ ps) r a d = ((λ e. a.0 (sym e), d.0), Disjoint-more n ps r a.1 d.1)

after_taking-All :
    (P : ℕ → Type 0) (n p : ℕ) (b : Bool) (ps : List ℕ) (o : Option (List ℕ)) {qs : List ℕ}
    → (n == p) ≡ b
    → after_taking p b ps o ≡ some qs
    → All P (p ∷ ps)
    → ((rs : List ℕ) → o ≡ some rs → P n × All P rs)
    → P n × All P qs
unfolding after_taking
after_taking-All P n p true ps o {qs} t e v f =
    let q : ps ≡ qs = ground (arith, e) in (subst P (sym (==→eq n p t)) v.0, subst (All P) q v.1)
after_taking-All P n p false ps none t e v f = ground (arith, e)
after_taking-All P n p false ps (some rs) {qs} t e v f =
    let q : p ∷ rs ≡ qs = ground (arith, e) in
    let w = f rs refl in (w.0, subst (All P) q (v.0, w.1))

take_out-All :
    (P : ℕ → Type 0) (n : ℕ) (ps : List ℕ) {qs : List ℕ}
    → take_out n ps ≡ some qs
    → All P ps
    → P n × All P qs
unfolding take_out
take_out-All P n [] e v = ground (arith, e)
take_out-All P n (p ∷ ps) e v =
    after_taking-All P n p (n == p) ps (take_out n ps) refl e v (λ rs f. take_out-All P n ps f v.1)

after_taking-Distinct :
    (n p : ℕ) (b : Bool) (ps : List ℕ) (o : Option (List ℕ)) {qs : List ℕ}
    → (n == p) ≡ b
    → after_taking p b ps o ≡ some qs
    → Distinct (p ∷ ps)
    → ((rs : List ℕ)
        → o ≡ some rs
        → (All (λ m. n ≢ m) rs × Distinct rs) × (p ≢ n) × All (λ m. p ≢ m) rs)
    → All (λ m. n ≢ m) qs × Distinct qs
unfolding after_taking
after_taking-Distinct n p true ps o {qs} t e v f =
    let q : ps ≡ qs = ground (arith, e) in
    subst (λ r. All (λ m. n ≢ m) r × Distinct r) q
      (subst (λ x. All (λ m. x ≢ m) ps) (sym (==→eq n p t)) v.0, v.1)
after_taking-Distinct n p false ps none t e v f = ground (arith, e)
after_taking-Distinct n p false ps (some rs) {qs} t e v f =
    let q : p ∷ rs ≡ qs = ground (arith, e) in
    let (w, a, d) = f rs refl in
    subst (λ r. All (λ m. n ≢ m) r × Distinct r) q (((λ z. a (sym z)), w.0), (d, w.1))

take_out-Distinct :
    (n : ℕ) (ps : List ℕ) {qs : List ℕ}
    → take_out n ps ≡ some qs
    → Distinct ps
    → All (λ m. n ≢ m) qs × Distinct qs
unfolding take_out
take_out-Distinct n [] e v = ground (arith, e)
take_out-Distinct n (p ∷ ps) e v =
    after_taking-Distinct n p (n == p) ps (take_out n ps) refl e v (λ rs f.
      let w = take_out-All (λ m. p ≢ m) n ps f v.0 in (take_out-Distinct n ps f v.1, w.0, w.1))

-- The numbers on the wire and those of the REFERs that are owed are all different.
record Numbered (ps : List ℕ) (l : Leg) : Type 0 where
  distinct : Distinct (numbers l.sent)
  owed_distinct : Distinct ps
  apart : Disjoint ps (numbers l.sent)
  fresh :
      (l.has_tx ≡ true) ⊎ (l.has_ok ≡ true)
      → Below l.next_cseq (numbers l.sent) × Below l.next_cseq ps

-- One step keeps the numbering, and takes at most one number.
abbrev Kept : List ℕ → ℕ → Leg → Type 0
Kept ps n k = Numbered ps k × (k.next_cseq ≤ suc n)

numbers-oks : (k : ℕ) (s : Text) (r : List Sent) → numbers (replicate k (ok_sdp s) ++ r) ≡ numbers r
numbers-oks zero s r = refl
numbers-oks (suc k) s r = numbers-oks k s r

take_refer :
    (n : ℕ) (ps : List ℕ) (l : Leg) {qs : List ℕ}
    → take_out n ps ≡ some qs
    → Numbered ps l
    → Kept qs l.next_cseq (send_refer n l)
unfolding send_refer
take_refer n ps l {qs} e v =
    let d = take_out-Distinct n ps e v.owed_distinct in
    let a = take_out-All (λ p. All (λ m. p ≢ m) (numbers l.sent)) n ps e v.apart in
    (
      record {
        distinct = (a.0, v.distinct);
        owed_distinct = d.1;
        apart = Disjoint-more n qs (numbers l.sent) d.0 a.1;
        fresh = λ h.
            let f = v.fresh h in
            let b = take_out-All (λ m. m < l.next_cseq) n ps e f.1 in ((b.0, f.0), b.1);
      },
      omega arith,
    )

new_refer-Kept :
    (ps : List ℕ) (l : Leg)
    → l.next_cseq + 1 < 2 ^ 32
    → Numbered ps l
    → Kept (numbered (new_refer l).1 ps) l.next_cseq (new_refer l).0
unfolding new_refer numbered
new_refer-Kept ps l h v = ground (
  arith,
  Below-suc l.next_cseq ps,
  Below-suc l.next_cseq (numbers l.sent),
  Below-apart l.next_cseq ps,
  Below-apart l.next_cseq (numbers l.sent),
)

module _ (ps : List ℕ) where
  finish_accept-Kept :
      (c : Config) (s : Text) (l : Leg) (a : Attempt)
      → l.has_tx ≡ true
      → Numbered ps l
      → Kept ps l.next_cseq (finish_accept c s l a).0
  unfolding finish_accept
  finish_accept-Kept c s l a t v =
      let f = v.fresh (inl t) in
      let q = sym (numbers-oks a.oks s l.sent) in
      ground (
        arith,
        subst Distinct q v.distinct,
        subst (Disjoint ps) q v.apart,
        subst (Below l.next_cseq) q f.0,
        f,
      )

  after_loop-Kept :
      (c : Config) (s : Text) (l : Leg) (a : Option Attempt)
      → l.has_tx ≡ true
      → Numbered ps l
      → Kept ps l.next_cseq (after_loop c s l a).0
  unfolding after_loop
  after_loop-Kept c s l none t v = ground arith
  after_loop-Kept c s l (some a) t v = finish_accept-Kept c s l a t v

  close-Kept : (r : Result) (l : Leg) → Numbered ps l → Kept ps l.next_cseq (close_with_status r l)
  unfolding close_with_status
  close-Kept r l v = ground (
    arith,
    Below-apart l.next_cseq (numbers l.sent),
    Below-apart l.next_cseq ps,
    Disjoint-more l.next_cseq ps (numbers l.sent),
  )

  accept-Kept :
      (c : Config) (env : ℕ → Reply) (s : Text) (l : Leg)
      → Numbered ps l
      → Kept ps l.next_cseq (accept c env s l).0
  unfolding accept
  accept-Kept c env s l v =
      let u = not (text_eq l.leg_tr (text "udp")) && not c.wait_ack in
      let max = max_retries c l.leg_tr in
      let begun : Leg = record l { last_sdp = s; ringing = false } in
      let a = accept_loop u max env (suc max) 1 (first_interval l.leg_tr) 0 in
      ground (arith, after_loop-Kept c s begun a)

  quiet-Kept :
      (s : ℕ) (r : Text) (l : Leg)
      → Numbered ps l
      → Kept ps l.next_cseq (respond s r l)
        × Kept ps l.next_cseq (drop l)
        × Kept ps l.next_cseq (accept_bye l)
        × Kept ps l.next_cseq (respond_and_drop s r l none).0
  unfolding respond drop accept_bye respond_and_drop
  quiet-Kept s r l v = (ground arith, ground arith, ground arith, ground arith)

step-Kept :
    (c : Config) (o : Op) (l : Leg) (ps : List ℕ) {k : Leg} {qs : List ℕ}
    → l.next_cseq + 1 < 2 ^ 32
    → step c o l ≡ some k
    → owed_refers o l ps ≡ some qs
    → Numbered ps l
    → Kept qs l.next_cseq k
unfolding step owed_refers processing ringing_tick send_ringing start_ringing cancel accept_ack
    accept_as_keep_alive
step-Kept c process l ps h e w v = ground (arith, (quiet-Kept ps 100 (text "Processing") l v).0)
step-Kept c start l ps h e w v = ground (arith, (quiet-Kept ps 180 (text "Ringing") l v).0)
step-Kept c tick l ps h e w v = ground (arith, (quiet-Kept ps 180 (text "Ringing") l v).0)
step-Kept c cancelled_op l ps h e w v = ground arith
step-Kept c got_ack_op l ps h e w v = ground arith
step-Kept c got_bye l ps h e w v = ground (arith, (quiet-Kept ps 100 (text "") l v).2)
step-Kept c refer_op l ps h e w v = ground (arith, new_refer-Kept ps l h v)
step-Kept c drop_op l ps h e w v = ground (arith, (quiet-Kept ps 100 (text "") l v).1)
step-Kept c keep_alive_op l ps h e w v = ground (arith, (quiet-Kept ps 200 (text "OK") l v).0)
step-Kept c (send_refer_op n) l ps h e w v = ground (arith, take_refer n ps l w v)
step-Kept c (reject s r) l ps h e w v = ground (arith, (quiet-Kept ps s r l v).3)
step-Kept c (accept_op env sdp) l ps h e w v = ground (arith, accept-Kept ps c env sdp l v)
step-Kept c (close r) l ps h e w v = ground (arith, close-Kept ps r l v)

both-some :
    (x : Option Leg) (y : Option (List ℕ))
    → (both x y ≡ none)
      ⊎ ((k : Leg) × (qs : List ℕ) × (x ≡ some k) × (y ≡ some qs) × (both x y ≡ some (k, qs)))
unfolding both
both-some none y = inl refl
both-some (some k) none = inl refl
both-some (some k) (some qs) = inr (k, qs, refl, refl, refl)

run-Numbered :
    (c : Config) (os : List Op) (l : Leg) (ps : List ℕ) {x : Leg × List ℕ}
    → l.next_cseq + length os < 2 ^ 32
    → run_owed c os l ps ≡ some x
    → Numbered ps l
    → Numbered x.1 x.0
unfolding run_owed
run-Numbered c [] l ps h e v = ground arith
run-Numbered c (o ∷ os) l ps h e v = elim (both-some (step c o l) (owed_refers o l ps)) [
  | inl n ↦ ground (arith, rw (n, run_owed) at e)
  | inr (k, qs, s, w, b) ↦
      let kept = step-Kept c o l ps (omega arith) s w v in
      run-Numbered c os k qs (omega (arith, kept.1)) (rw (b, run_owed) at e) kept.0
]

-- From a new INVITE on, over any sequence of the leg's methods that does not panic and is short enough
-- for the 32 bits of a CSeq, in which a REFER that TransferCall has numbered is sent once and at any
-- time later: no two of the BYEs and REFERs on the wire, and of the REFERs that are still to be sent,
-- have the same CSeq.
pub run-Distinct :
    (c : Config) (os : List Op) (l : Leg) {k : Leg} {ps : List ℕ}
    → IsNew l
    → l.next_cseq + length os < 2 ^ 32
    → run_owed c os l [] ≡ some (k, ps)
    → Distinct (numbers k.sent) × Distinct ps × Disjoint ps (numbers k.sent)
run-Distinct c os l n h e =
    let v = run-Numbered c os l [] h e (new-Numbered n) in (v.distinct, v.owed_distinct, v.apart)
  where
    new-Numbered : IsNew l → Numbered [] l
    new-Numbered m = ground arith
