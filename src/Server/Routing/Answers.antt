-- ===== src/Server/Routing/Answers.antt =====
-- What the requests of a dialog are answered (pkg/sip/inbound.go and pkg/sip/client.go).
use sip_server.Prelude.{
  ℕ, suc, ◌+◌, ◌≡◌, refl, ap, ◌∙◌, Bool, false, inl, inr, Option, none, some, List, [], ◌∷◌, length,
  arith, Text, text, text_eq, text_eq→eq, Option-cases, if◌then◌else◌,
}
use sip_server.Reason.{ReasonHeader}
use sip_server.Inbound.Leg as Leg
use sip_server.Inbound.Leg.{accept_ack}
use sip_server.Inbound.Call as Inbound
use sip_server.Outbound.Call as Outbound
use sip_server.Outbound as OutLeg
use sip_server.Classify.{EndCall}
use sip_server.Stats.{success_term}
use sip_server.Status.{call_hangup, client_initiated}
use sip_server.Server.Routing.{
  Incoming, Calls, find, change, in_server, in_client, respond_with, tag_of, tag_or_empty,
  bye_reason, client_bye, take_bye, or_not_found, on_bye,
}

-- The calls under one tag are changed, and no others.
module _ {A : Type 0} (listed : A → Bool) (f : A → A) (t : Text) where
  change-others :
      (u : Text) (m : List (Text × A))
      → text_eq u t ≡ false
      → find listed u (change listed f t m) ≡ find listed u m
  unfolding find change
  change-others u [] n = refl
  change-others u ((k, c) ∷ m) n = ground (arith, text_eq→eq t k, change-others u m n)

abbrev total : {A : Type 0} → (A → ℕ) → List (Text × A) → ℕ
total weight [] = 0
total weight ((k, c) ∷ m) = weight c + total weight m

-- A sum over the calls changes with the one that is found.
total-change :
    {A : Type 0} (listed : A → Bool) (f : A → A) (t : Text) (weight : A → ℕ)
    → ((c : A) → weight (f c) ≡ suc (weight c))
    → (m : List (Text × A)) (c : A) → find listed t m ≡ some c
    → total weight (change listed f t m) ≡ suc (total weight m)
unfolding find change
total-change listed f t weight adds [] c h = absurd (ground arith)
total-change listed f t weight adds ((k, d) ∷ m) c h =
    ground (arith, adds d, total-change listed f t weight adds m c)

-- The BYEs that a leg answered.
abbrev bye_oks : List Leg.Sent → ℕ
bye_oks [] = 0
bye_oks (Leg.Sent.bye_ok ∷ m) = suc (bye_oks m)
bye_oks (_ ∷ m) = bye_oks m

abbrev out_bye_oks : List OutLeg.Sent → ℕ
out_bye_oks [] = 0
out_bye_oks (OutLeg.Sent.bye_ok ∷ m) = suc (out_bye_oks m)
out_bye_oks (_ ∷ m) = out_bye_oks m

abbrev answered : Inbound.Call → ℕ
answered c = bye_oks c.leg.sent

abbrev out_answered : Outbound.Call → ℕ
out_answered c = out_bye_oks c.leg.out_sent

-- The answers that were sent: by the handlers, and by the legs.
abbrev pub answers : Calls → ℕ
answers w = length w.replies + total answered w.inbound + total out_answered w.outbound

answered-bye : (r : ReasonHeader) (c : Inbound.Call) → answered (Inbound.bye r c) ≡ suc (answered c)
unfolding Inbound.bye Inbound.cancel_call Leg.accept_bye
answered-bye r c = ground arith

abbrev bye_end : EndCall
bye_end = Outbound.end_as none call_hangup (success_term (text "bye")) client_initiated

close_body-leg :
    (down : Bool) (e : EndCall) (c : Outbound.Call)
    → (Outbound.close down e c).0.leg ≡ (if c.stopped then c.leg else OutLeg.close_leg down c.leg)
unfolding Outbound.close Outbound.set_status Outbound.stop_sip
close_body-leg down e c = ground arith

out_answered-bye :
    (down : Bool) (c : Outbound.Call) → out_answered (Outbound.bye down c) ≡ suc (out_answered c)
unfolding Outbound.bye OutLeg.accept_bye OutLeg.close_leg
out_answered-bye down c =
    let k = close_body-leg down bye_end (record c { leg = OutLeg.accept_bye c.leg }) in
    ap (λ (l : OutLeg.OutLeg). out_bye_oks l.out_sent) k ∙ (ground arith)

abbrev same_tag : Text → Option (Option Text) → Bool
same_tag u to = elim (tag_of to) [ none ↦ false | some t ↦ text_eq u t ]

-- One answer, and nothing happens to the calls under the tag `u`.
pub record IsServed (u : Text) (w v : Calls) : Type 0 where
  pub answered_once : answers v ≡ suc (answers w)
  pub same_inbound : find in_server u v.inbound ≡ find in_server u w.inbound
  pub same_outbound : find in_client u v.outbound ≡ find in_client u w.outbound

respond_with-IsServed : (u : Text) (code : ℕ) (w : Calls) → IsServed u w (respond_with code w)
unfolding respond_with
respond_with-IsServed u code w = record {
  answered_once = omega arith;
  same_inbound = refl;
  same_outbound = refl;
}

inbound-IsServed :
    (r : ReasonHeader) (u t : Text) (w : Calls) (c : Inbound.Call)
    → text_eq u t ≡ false
    → find in_server t w.inbound ≡ some c
    → IsServed u w (record w { inbound = change in_server (Inbound.bye r) t w.inbound })
inbound-IsServed r u t w c n f = record {
  answered_once =
      omega
        (arith, total-change in_server (Inbound.bye r) t answered (answered-bye r) w.inbound c f);
  same_inbound = change-others in_server (Inbound.bye r) t u w.inbound n;
  same_outbound = refl;
}

outbound-IsServed :
    (u t : Text) (w : Calls) (c : Outbound.Call)
    → text_eq u t ≡ false
    → find in_client t w.outbound ≡ some c
    → IsServed u w (record w { outbound = change in_client (Outbound.bye w.down) t w.outbound })
outbound-IsServed u t w c n f = record {
  answered_once = omega (
    arith,
    total-change in_client (Outbound.bye w.down) t out_answered (out_answered-bye w.down) w.outbound
        c f,
  );
  same_inbound = refl;
  same_outbound = change-others in_client (Outbound.bye w.down) t u w.outbound n;
}

take_bye-IsServed :
    (u t : Text) (w : Calls) (o : Option Outbound.Call)
    → text_eq u t ≡ false
    → find in_client t w.outbound ≡ o
    → IsServed u w (or_not_found (take_bye t o w))
unfolding take_bye or_not_found
take_bye-IsServed u t w none n f = respond_with-IsServed u 481 w
take_bye-IsServed u t w (some c) n f = outbound-IsServed u t w c n f

module _ (unquote : Text → Text) (parse_uint : Text → ℕ × Bool) where
  -- A BYE is answered exactly once, whoever has the call, and also if nobody has it or the request
  -- has no tag; and the calls under any tag that it does not name stay as they are.
  pub on_bye-IsServed :
      (q : Incoming) (w : Calls) (u : Text)
      → same_tag u q.to ≡ false
      → IsServed u w (on_bye unquote parse_uint q w)
  unfolding on_bye client_bye
  on_bye-IsServed q w u n = elim (Option-cases (tag_of q.to)) [
    | inl e ↦ rw (on_bye, e) (respond_with-IsServed u 400 w)
    | inr (t, e) ↦ elim (Option-cases (find in_server t w.inbound)) [
      | inr (c, f) ↦
          rw (on_bye, e, f)
            (inbound-IsServed (bye_reason unquote parse_uint q.reason) u t w c (ground (arith, e))
              f)
      | inl f ↦
          rw (on_bye, e, f) (take_bye-IsServed u (tag_or_empty q.to) w _ (ground (arith, e)) refl)
    ]
  ]
