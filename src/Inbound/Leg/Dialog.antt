-- ===== src/Inbound/Leg/Dialog.antt =====
-- What a dialog of the inbound leg puts on the wire over any sequence of the leg's methods
-- (`sipInbound` of pkg/sip/inbound.go).
use sip_server.Prelude.{
  ℕ, zero, suc, ◌+◌, ◌≤◌, ◌<◌, ◌≡◌, ◌≢◌, refl, true, false, Option, none, some, Option-cases, inl,
  inr, All, List, [], ◌∷◌, ◌++◌, arith, leb, replicate, if◌then◌else◌, Text, text, text_eq, not,
  ◌&&◌,
}
use sip_server.Errors.{Err}
use sip_server.Codes.{Result, new_response}
use sip_server.Inbound.Leg.{
  Sent, response, ok_sdp, bye, Leg, Config, Reply, write_failed, Attempt, drop, respond, processing,
  send_ringing, start_ringing, ringing_tick, cancel, respond_and_drop, accept, accept_loop,
  finish_accept, after_loop, max_retries, first_interval, accept_ack, accept_bye, close_with_status,
  accept_as_keep_alive, new_refer, send_refer,
}
use sip_server.Inbound.Leg.Accept.{Written, accept_loop-Written}

-- The calls of the leg's methods, and the events of its goroutine.
pub data Op : Type 0 where
  process start tick cancelled_op got_ack_op got_bye refer_op drop_op keep_alive_op : Op
  send_refer_op : ℕ → Op
  reject : ℕ → Text → Op
  accept_op : (ℕ → Reply) → Text → Op
  close : Result → Op

-- `none` where the code panics.
unfoldable pub step : Config → Op → Leg → Option Leg
step c process l = some (processing l)
step c start l = start_ringing l
step c tick l = some (ringing_tick l)
step c cancelled_op l = some (cancel l)
step c got_ack_op l = some (accept_ack l)
step c got_bye l = some (accept_bye l)
step c refer_op l = some (new_refer l).0
step c drop_op l = some (drop l)
step c keep_alive_op l = some (accept_as_keep_alive l)
step c (send_refer_op n) l = some (send_refer n l)
step c (reject s r) l = some (respond_and_drop s r l none).0
step c (accept_op env sdp) l = some (accept c env sdp l).0
step c (close r) l = some (close_with_status r l)

-- How the code calls them on the leg of a new INVITE: a rejection has a code of a final failure, the
-- writes of the 200 do not fail, and AcceptAsKeepAlive is left to the legs of re-INVITEs.
abbrev pub IsProper : Op → Type 0
IsProper (reject s r) = 300 ≤ s
IsProper (accept_op env sdp) = (n : ℕ) (e : Err) → env n ≢ write_failed e
IsProper (close r) = 300 ≤ (new_response r).code
IsProper keep_alive_op = true ≡ false
IsProper _ = Unit {0}

-- What was sent, counted.
abbrev pub accepts : List Sent → ℕ
accepts [] = 0
accepts (ok_sdp s ∷ m) = suc (accepts m)
accepts (_ ∷ m) = accepts m

abbrev pub rejections : List Sent → ℕ
rejections [] = 0
rejections (response c r ∷ m) = (if leb 300 c then 1 else 0) + rejections m
rejections (_ ∷ m) = rejections m

abbrev pub byes : List Sent → ℕ
byes [] = 0
byes (bye n ∷ m) = suc (byes m)
byes (_ ∷ m) = byes m

pub record Inv (l : Leg) : Type 0 where
  pub tx_invite : l.has_tx ≡ true → l.has_invite ≡ true
  pub ok_invite : l.has_ok ≡ true → l.has_invite ≡ true
  pub exclusive : l.has_ok ≡ true → l.has_tx ≡ false
  pub pending : l.has_tx ≡ true → accepts l.sent + rejections l.sent + byes l.sent ≡ 0
  pub open_dialog : l.has_ok ≡ true → rejections l.sent + byes l.sent ≡ 0
  pub answered : l.has_ok ≡ true → 0 < accepts l.sent
  pub one_end : rejections l.sent + byes l.sent ≤ 1
  pub not_both : 0 < rejections l.sent → accepts l.sent ≡ 0
  pub bye_answered : 0 < byes l.sent → 0 < accepts l.sent

pub drop-Inv : (l : Leg) → Inv l → Inv (drop l)
unfolding drop
drop-Inv l v = ground arith

respond-Inv : (s : ℕ) (r : Text) (l : Leg) → s < 300 → Inv l → Inv (respond s r l)
unfolding respond
respond-Inv s r l h v = ground arith

pub reject-Inv :
    (s : ℕ) (r : Text) (l : Leg) → 300 ≤ s → Inv l → Inv (respond_and_drop s r l none).0
unfolding respond_and_drop
reject-Inv s r l h v = ground arith

pub close-Inv :
    (r : Result) (l : Leg) → 300 ≤ (new_response r).code → Inv l → Inv (close_with_status r l)
unfolding close_with_status
close-Inv r l h v = ground arith

refer-Inv : (l : Leg) → Inv l → Inv (new_refer l).0
unfolding new_refer
refer-Inv l v = ground arith

send_refer-Inv : (n : ℕ) (l : Leg) → Inv l → Inv (send_refer n l)
unfolding send_refer
send_refer-Inv n l v = ground arith

pub accepts-replicate :
    (n : ℕ) (s : Text) (m : List Sent) → accepts (replicate n (ok_sdp s) ++ m) ≡ n + accepts m
accepts-replicate zero s m = omega arith
accepts-replicate (suc n) s m = omega (arith, accepts-replicate n s m)

rejections-replicate :
    (n : ℕ) (s : Text) (m : List Sent) → rejections (replicate n (ok_sdp s) ++ m) ≡ rejections m
rejections-replicate zero s m = refl
rejections-replicate (suc n) s m = rejections-replicate n s m

byes-replicate : (n : ℕ) (s : Text) (m : List Sent) → byes (replicate n (ok_sdp s) ++ m) ≡ byes m
byes-replicate zero s m = refl
byes-replicate (suc n) s m = byes-replicate n s m

finish_accept-Inv :
    (c : Config) (s : Text) (l : Leg) (a : Attempt)
    → Written (some a)
    → l.has_tx ≡ true
    → Inv l
    → Inv (finish_accept c s l a).0
unfolding finish_accept
finish_accept-Inv c s l a w t v = ground (
  arith,
  accepts-replicate a.oks s l.sent,
  rejections-replicate a.oks s l.sent,
  byes-replicate a.oks s l.sent,
)

after_loop-Inv :
    (c : Config) (s : Text) (l : Leg) (a : Option Attempt)
    → Written a
    → l.has_tx ≡ true
    → Inv l
    → Inv (after_loop c s l a).0
unfolding after_loop
after_loop-Inv c s l none w t v = v
after_loop-Inv c s l (some a) w t v = finish_accept-Inv c s l a w t v

pub accept-Inv :
    (c : Config) (env : ℕ → Reply) (s : Text) (l : Leg)
    → ((n : ℕ) (e : Err) → env n ≢ write_failed e)
    → Inv l
    → Inv (accept c env s l).0
unfolding accept
accept-Inv c env s l h v =
    let u = not (text_eq l.leg_tr (text "udp")) && not c.wait_ack in
    let max = max_retries c l.leg_tr in
    let begun : Leg = record l { last_sdp = s; ringing = false } in
    let a = accept_loop u max env (suc max) 1 (first_interval l.leg_tr) 0 in
    ground (
      arith,
      after_loop-Inv c s begun a
          (accept_loop-Written u max env (suc max) 1 (first_interval l.leg_tr) 0 (omega arith) h),
    )

pub start-Inv : (l : Leg) {k : Leg} → start_ringing l ≡ some k → Inv l → Inv k
unfolding start_ringing
start-Inv l e v = ground arith

pub accept_ack-Inv : (l : Leg) → Inv l → Inv (accept_ack l)
unfolding accept_ack
accept_ack-Inv l v = ground arith

pub accept_bye-Inv : (l : Leg) → Inv l → Inv (accept_bye l)
unfolding accept_bye
accept_bye-Inv l v = ground arith

cancel-Inv : (l : Leg) → Inv l → Inv (cancel l)
unfolding cancel
cancel-Inv l v = ground arith

step-Inv :
    (c : Config) (o : Op) (l : Leg) {k : Leg} → IsProper o → step c o l ≡ some k → Inv l → Inv k
unfolding step processing ringing_tick send_ringing
step-Inv c process l p e v = ground (arith, respond-Inv 100 (text "Processing") l)
step-Inv c start l p e v = start-Inv l e v
step-Inv c tick l p e v = ground (arith, respond-Inv 180 (text "Ringing") l)
step-Inv c cancelled_op l p e v = ground (arith, cancel-Inv l)
step-Inv c got_ack_op l p e v = ground (arith, accept_ack-Inv l)
step-Inv c got_bye l p e v = ground (arith, accept_bye-Inv l)
step-Inv c refer_op l p e v = ground (arith, refer-Inv l)
step-Inv c drop_op l p e v = ground (arith, drop-Inv l)
step-Inv c keep_alive_op l p e v = ground (arith, p)
step-Inv c (send_refer_op n) l p e v = ground (arith, send_refer-Inv n l)
step-Inv c (reject s r) l p e v = ground (arith, reject-Inv s r l)
step-Inv c (accept_op env sdp) l p e v = ground (arith, accept-Inv c env sdp l p)
step-Inv c (close r) l p e v = ground (arith, close-Inv r l p)

-- A history of calls that does not panic.
unfoldable pub run : Config → List Op → Leg → Option Leg
run c [] l = some l
run c (o ∷ os) l = elim (step c o l) [ none ↦ none | some k ↦ run c os k ]

-- The leg as `newInbound` makes it.
pub record IsNew (l : Leg) : Type 0 where
  pub invite : l.has_invite ≡ true
  pub tx : l.has_tx ≡ true
  pub ok : l.has_ok ≡ false
  pub sent : l.sent ≡ []

pub IsNew-Inv : (l : Leg) → IsNew l → Inv l
IsNew-Inv l n = ground arith

run-Inv :
    (c : Config) (os : List Op) (l : Leg) {k : Leg}
    → All IsProper os
    → run c os l ≡ some k
    → Inv l
    → Inv k
unfolding run
run-Inv c [] l p e v = ground arith
run-Inv c (o ∷ os) l p e v = elim (Option-cases (step c o l)) [
  | inl stuck ↦ ground arith
  | inr (k, s) ↦ run-Inv c os k p.1 (rw (s, run) at e) (step-Inv c o l p.0 s v)
]

-- From a new INVITE on, over any sequence of the calls of its leg in `Op` that does not panic, in which
-- rejections have codes of 300 or more, the writes of the 200 do not fail, and AcceptAsKeepAlive, which
-- answers a re-INVITE on a leg of its own, is not called: the INVITE is rejected or the dialog is ended
-- by a BYE of ours, at most once in all; no INVITE is both rejected and accepted; and a BYE is sent only
-- after a 200.
pub run_ends_once :
    (c : Config) (os : List Op) (l : Leg) {k : Leg}
    → IsNew l
    → All IsProper os
    → run c os l ≡ some k
    → (rejections k.sent + byes k.sent ≤ 1)
      × (0 < rejections k.sent → accepts k.sent ≡ 0)
      × (0 < byes k.sent → 0 < accepts k.sent)
run_ends_once c os l n p e =
    let v = run-Inv c os l p e (IsNew-Inv l n) in (v.one_end, v.not_both, v.bye_answered)
