-- ===== src/Outbound/Dialog.antt =====
-- What the outbound leg sends over any sequence of its methods (pkg/sip/outbound.go).
use sip_server.Prelude.{
  ℕ, suc, ◌+◌, ◌≤◌, ◌≡◌, Bool, false, List, [], ◌∷◌, All, arith, if◌then◌else◌,
}
use sip_server.Outbound.{
  Answer, accepted, refused, Sent, cancel_request, bye, OutLeg, drop, after_invite_loop, send_bye,
  send_cancel, close_leg, accept_bye, ack_invite_ok, transfer,
}

-- The calls of the leg's methods. `Invite` brings its answer and the number of its transmissions; a
-- close and a transfer meet the service in operation or shutting down.
pub data Op : Type 0 where
  invited : Answer → ℕ → Op
  acked got_bye dropped : Op
  closed transferred : Bool → Op

unfoldable pub step : Op → OutLeg → OutLeg
step (invited a n) l = after_invite_loop a n l
step acked l = (ack_invite_ok l).0
step got_bye l = accept_bye l
step dropped l = drop l
step (closed b) l = close_leg b l
step (transferred b) l = (transfer b l).0

unfoldable pub run : List Op → OutLeg → OutLeg
run [] l = l
run (o ∷ os) l = run os (step o l)

-- How many calls were established by the operations, and which of them meet no shutdown.
abbrev pub established : List Op → ℕ
established [] = 0
established (invited (accepted r) n ∷ os) = suc (established os)
established (_ ∷ os) = established os

abbrev pub InOperation : Op → Type 0
InOperation (closed b) = b ≡ false
InOperation _ = Unit {0}

abbrev pub cancels : List Sent → ℕ
cancels [] = 0
cancels (cancel_request ∷ m) = suc (cancels m)
cancels (_ ∷ m) = cancels m

abbrev pub byes : List Sent → ℕ
byes [] = 0
byes (bye n ∷ m) = suc (byes m)
byes (_ ∷ m) = byes m

-- `invite` and `inviteOk` are set together, and no CANCEL was sent.
pub record Inv (l : OutLeg) : Type 0 where
  pub together : l.has_invite ≡ l.has_ok
  pub no_cancel : cancels l.out_sent ≡ 0

step-Inv : (o : Op) (l : OutLeg) → Inv l → Inv (step o l)
unfolding step after_invite_loop ack_invite_ok accept_bye drop close_leg send_bye send_cancel
    transfer
step-Inv (invited (accepted r) n) l v = ground arith
step-Inv (invited (refused e) n) l v = ground arith
step-Inv acked l v = ground arith
step-Inv got_bye l v = ground arith
step-Inv dropped l v = ground arith
step-Inv (closed b) l v = ground arith
step-Inv (transferred b) l v = ground arith

run-Inv : (os : List Op) (l : OutLeg) → Inv l → Inv (run os l)
unfolding run
run-Inv [] l v = v
run-Inv (o ∷ os) l v = run-Inv os (step o l) (step-Inv o l v)

-- BYEs sent, and one more if a dialog is established.
owed : OutLeg → ℕ
owed l = byes l.out_sent + (if l.has_ok then 1 else 0)

step-owed :
    (o : Op) (l : OutLeg) → InOperation o → Inv l → owed (step o l) ≤ owed l + established (o ∷ [])
unfolding owed step after_invite_loop ack_invite_ok accept_bye drop close_leg send_bye send_cancel
    transfer
step-owed (invited (accepted r) n) l p v = ground arith
step-owed (invited (refused e) n) l p v = ground arith
step-owed acked l p v = ground arith
step-owed got_bye l p v = ground arith
step-owed dropped l p v = ground arith
step-owed (closed b) l p v = ground (arith, p)
step-owed (transferred b) l p v = ground arith

established-cons :
    (o : Op) (os : List Op) → established (o ∷ os) ≡ established (o ∷ []) + established os
established-cons (invited (accepted r) n) os = omega arith
established-cons (invited (refused e) n) os = omega arith
established-cons acked os = omega arith
established-cons got_bye os = omega arith
established-cons dropped os = omega arith
established-cons (closed b) os = omega arith
established-cons (transferred b) os = omega arith

run-owed :
    (os : List Op) (l : OutLeg)
    → All InOperation os
    → Inv l
    → owed (run os l) ≤ owed l + established os
unfolding run
run-owed [] l p v = omega arith
run-owed (o ∷ os) l (p, ps) v =
    omega
      (arith, run-owed os (step o l) ps (step-Inv o l v), step-owed o l p v, established-cons o os)

-- The leg as it is created.
abbrev pub new_leg : OutLeg
new_leg = record {
  has_invite = false;
  has_ok = false;
  next_cseq = 1;
  refer_cseq = 0;
  out_sent = [];
}

pub new_leg-Inv : Inv new_leg
new_leg-Inv = ground arith

-- Over any sequence of the methods of a new leg, closing it never sends a CANCEL, since `invite` is
-- only ever set together with `inviteOk`.
pub cancels-run : (os : List Op) → cancels (run os new_leg).out_sent ≡ 0
cancels-run os = (run-Inv os new_leg new_leg-Inv).no_cancel

-- Over any sequence of the methods of a new leg in which no close meets a shutdown, there is at most
-- one BYE for each INVITE that was accepted.
pub byes-run : (os : List Op) → All InOperation os → byes (run os new_leg).out_sent ≤ established os
unfolding owed
byes-run os p = omega (arith, run-owed os new_leg p new_leg-Inv)
