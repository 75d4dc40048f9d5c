-- ===== src/Outbound/Call/Dial/Answered.antt =====
-- What the INVITE and the DTMF after it leave of an outbound call (pkg/sip/outbound.go).
use sip_server.Prelude.{
  ℕ, ◌≡◌, refl, ◌∙◌, ap, Bool, true, false, Option, none, some, List, [], ◌∷◌, ◌⊎◌, inl, inr, arith,
  if◌then◌else◌, is_empty, Text, Option-cases, Bool-cases, not, leb, ltb, ◌&&◌,
}
use sip_server.Status.{CallStatus, call_ringing, call_active, call_automation}
use sip_server.Errors.{Err, find_status}
use sip_server.Outbound.{
  Answer, accepted, refused, OutLeg, after_invite_loop, invite_result, ack_invite_ok,
}
use sip_server.Outbound.Dialog.{Inv}
use sip_server.Outbound.Call.{Call, set_status}
use sip_server.Outbound.Call.Closing.{IsOpen, set_status-IsOpen, close_leg-Inv}
use sip_server.Outbound.Call.Dial.{
  Dialling, on_responses, invite_failed, acknowledged, answered, sip_signal, after_signal, dial_sip,
}

after_invite_loop-Inv : (a : Answer) (n : ℕ) (l : OutLeg) → Inv l → Inv (after_invite_loop a n l)
unfolding after_invite_loop
after_invite_loop-Inv (accepted r) n l v = ground arith
after_invite_loop-Inv (refused e) n l v = ground arith

ack-Inv : (l : OutLeg) → Inv l → Inv (ack_invite_ok l).0
unfolding ack_invite_ok
ack-Inv l v = ground arith

ack_established : (l : OutLeg) → (ack_invite_ok l).1 ≡ none → (ack_invite_ok l).0.has_ok ≡ true
unfolding ack_invite_ok
ack_established l h = ground (arith, h)

set_status_leg : (s : CallStatus) (c : Call) → (set_status s c).leg ≡ c.leg
unfolding set_status
set_status_leg s c = ground arith

module _ (b : Bool) where
  on_responses-IsOpen :
      (ringing : Bool) (codes : List ℕ) (c : Call)
      → IsOpen b c
      → IsOpen b (on_responses ringing codes c)
  unfolding on_responses
  on_responses-IsOpen ringing [] c v = v
  on_responses-IsOpen ringing (code ∷ codes) c v =
      let x =
        on_responses-IsOpen true codes (set_status call_ringing c)
          (set_status-IsOpen b call_ringing c v) in
      let y = on_responses-IsOpen ringing codes c v in
      elim (Bool-cases (not ringing && (leb 180 code && ltb code 200))) [
        | inl t ↦ ground (arith, t, x)
        | inr f ↦ ground (arith, f, y)
      ]

  invite_failed-IsOpen :
      (down : Bool) (e : Err) (c : Call) → IsOpen b c → IsOpen b (invite_failed down e c)
  unfolding invite_failed
  invite_failed-IsOpen down e c v =
      let i = close_leg-Inv down c.leg v.leg_inv in
      elim (Option-cases (find_status e)) [
        | inl n ↦ ground (arith, n, i)
        | inr (st, f) ↦ ground (arith, f, i)
      ]

  leg-IsOpen : (l : OutLeg) (c : Call) → Inv l → IsOpen b c → IsOpen b (record c { leg = l })
  leg-IsOpen l c i v = ground (arith, i)

  -- What a dial that was answered leaves: the dialog is established.
  abbrev pub Answered : Call × Option Err → Type 0
  Answered (c, e) = IsOpen b c × (e ≡ none → c.leg.has_ok ≡ true)

  acknowledged_lem :
      (d : Dialling) (c : Call) (l : OutLeg) (e : Option Err)
      → IsOpen b c
      → Inv l
      → (e ≡ none → l.has_ok ≡ true)
      → Answered (acknowledged d c (l, e))
  unfolding acknowledged
  acknowledged_lem d c l (some e) v i h = (leg-IsOpen l c i v, λ q. ground (arith, q))
  acknowledged_lem d c l none v i h = (leg-IsOpen l c i v, λ q. h refl)

  answered_lem :
      (down : Bool) (d : Dialling) (c : Call) (r : Err ⊎ Text)
      → IsOpen b c
      → Answered (answered down d c r)
  unfolding answered
  answered_lem down d c (inl e) v = (invite_failed-IsOpen down e c v, λ q. ground (arith, q))
  answered_lem down d c (inr t) v =
      elim d.media_err
        as (λ m.
          Answered
            (elim m [ some e ↦ (c, some e) | none ↦ acknowledged d c (ack_invite_ok c.leg) ])) [
              | some e ↦ (v, λ q. ground (arith, q))
              | none ↦ acknowledged_lem d c _ _ v (ack-Inv c.leg v.leg_inv) (ack_established c.leg)
            ]

  -- From the INVITE on.
  invited_lem :
      (down : Bool) (d : Dialling) (c : Call)
      → IsOpen b c
      → let c1 = on_responses false d.provisional (record c { invite_time = true }) in
        let c2 : Call = record c1 { leg = after_invite_loop d.answer d.transmissions c1.leg } in
        Answered (answered down d c2 (invite_result d.answer))
  invited_lem down d c v =
      let c0 : Call = record c { invite_time = true } in
      let v0 : IsOpen b c0 = ground (arith, v) in
      let c1 = on_responses false d.provisional c0 in
      let v1 = on_responses-IsOpen false d.provisional c0 v0 in
      let i = after_invite_loop-Inv d.answer d.transmissions c1.leg v1.leg_inv in
      let l = after_invite_loop d.answer d.transmissions c1.leg in
      answered_lem down d (record c1 { leg = l }) (invite_result d.answer) (leg-IsOpen l c1 i v1)

  offered : Bool → Dialling → Call → Option Err → Call × Option Err
  offered down d c (some e) = (c, some e)
  offered down d c none =
      let c1 = on_responses false d.provisional (record c { invite_time = true }) in
      let c2 : Call = record c1 { leg = after_invite_loop d.answer d.transmissions c1.leg } in
      answered down d c2 (invite_result d.answer)

  offered_lem :
      (down : Bool) (d : Dialling) (c : Call) (o : Option Err)
      → IsOpen b c
      → Answered (offered down d c o)
  unfolding offered
  offered_lem down d c (some e) v = (v, λ q. ground (arith, q))
  offered_lem down d c none v = invited_lem down d c v

  sip_signal_lem :
      (down : Bool) (d : Dialling) (c : Call) → IsOpen b c → Answered (sip_signal down d c)
  unfolding sip_signal offered
  sip_signal_lem down d c v = offered_lem down d c d.offer_err v

  -- With the DTMF that follows.
  automated :
      (c : Call) (e : Option Err)
      → IsOpen b c
      → c.leg.has_ok ≡ true
      → Answered (elim e [
        | some x ↦ (set_status call_automation c, some x)
        | none ↦ (set_status call_active (set_status call_automation c), none)
      ])
  automated c (some x) v h = (set_status-IsOpen b call_automation c v, λ q. ground (arith, q))
  automated c none v h =
      let a = set_status-IsOpen b call_automation c v in
      let x = set_status_leg call_automation c in
      let y = set_status_leg call_active (set_status call_automation c) in
      (set_status-IsOpen b call_active _ a, λ q. ap (λ l. l.has_ok) (y ∙ x) ∙ h)

  after_signal_lem :
      (d : Dialling) (c : Call) (e : Option Err)
      → Answered (c, e)
      → Answered (after_signal d (c, e))
  unfolding after_signal
  after_signal_lem d c (some e) (v, h) = (v, λ q. ground (arith, q))
  after_signal_lem d c none (v, h) =
      let a = automated c d.dtmf_err v (h refl) in
      let x = set_status-IsOpen b call_active c v in
      let l = set_status_leg call_active c in
      elim (is_empty d.dtmf)
        as (λ t. Answered (
          if t then (set_status call_active c, none) else elim d.dtmf_err [
            | some e ↦ (set_status call_automation c, some e)
            | none ↦ (set_status call_active (set_status call_automation c), none)
          ])) [ true ↦ (x, λ q. ap (λ k. k.has_ok) l ∙ h refl) | false ↦ a ]

  pub dial_sip_lem :
      (down : Bool) (d : Dialling) (c : Call) → IsOpen b c → Answered (dial_sip down d c)
  unfolding dial_sip
  dial_sip_lem down d c v = after_signal_lem d _ _ (sip_signal_lem down d c v)
