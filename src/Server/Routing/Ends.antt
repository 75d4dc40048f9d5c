-- ===== src/Server/Routing/Ends.antt =====
-- What a BYE does to the call that it is for (pkg/sip/inbound.go and pkg/sip/client.go).
use sip_server.Prelude.{
  ℕ, ◌≡◌, refl, Bool, true, false, ◌⊎◌, inl, inr, Option, none, some, List, [], ◌∷◌, arith, Text,
  text_eq, Bool-cases, subst, Option-cases, sym,
}
use sip_server.Reason.{ReasonHeader}
use sip_server.Inbound.Leg as Leg
use sip_server.Inbound.Leg.Closing.{IsClosed}
use sip_server.Inbound.Call as Inbound
use sip_server.Outbound.Call as Outbound
use sip_server.Outbound as OutLeg
use sip_server.Server.Routing.{
  Incoming, Calls, find, change, in_server, in_client, respond_with, tag_of, bye_reason, client_bye,
  take_bye, or_not_found, on_bye,
}

-- A call under the tag that is as `P` says.
abbrev HasCall : {A : Type 0} → (A → Type 0) → Text → List (Text × A) → Type 0
HasCall P t [] = ⊥
HasCall P t ((k, c) ∷ m) = (text_eq t k ≡ true) × P c ⊎ HasCall P t m

change-HasCall :
    {A : Type 0} (listed : A → Bool) (f : A → A) (t : Text) (P : A → Type 0) (m : List (Text × A))
    (c : A)
    → find listed t m ≡ some c
    → P (f c)
    → HasCall P t (change listed f t m)
unfolding find change
change-HasCall listed f t P [] c h p = cc
change-HasCall listed f t P ((k, d) ∷ m) c h p = elim (Bool-cases (text_eq t k)) [
  | inl e ↦ elim (Bool-cases (listed d)) [
    | inl l ↦ rw (e, l) (inl (e, subst (λ x. P (f x)) (ground (arith, e, l)) p))
    | inr l ↦ rw (e, l) (inr (change-HasCall listed f t P m c (ground (arith, e, l)) p))
  ]
  | inr n ↦ rw n (inr (change-HasCall listed f t P m c (ground (arith, n)) p))
]

-- The leg of an outbound call after its BYE.
abbrev OutClosed : Outbound.Call → Type 0
OutClosed c = (c.leg.has_invite ≡ false) × (c.leg.has_ok ≡ false) × (c.closing ≡ true)

bye-OutClosed : (down : Bool) (c : Outbound.Call) → OutClosed (Outbound.bye down c)
unfolding Outbound.bye Outbound.close Outbound.set_status Outbound.stop_sip OutLeg.accept_bye
    OutLeg.close_leg
bye-OutClosed down c = ground arith

abbrev Ended : Inbound.Call → Type 0
Ended c = IsClosed c.leg × (c.ended ≡ true)

bye-Ended : (r : ReasonHeader) (c : Inbound.Call) → Ended (Inbound.bye r c)
unfolding Inbound.bye Inbound.cancel_call Leg.accept_bye
bye-Ended r c = ground arith

-- What becomes of a BYE for the tag `t`, by what the server and the client have under it.
abbrev pub IsEnded : Text → Calls → Calls → Option Inbound.Call → Option Outbound.Call → Type 0
IsEnded t w v (some c) o = HasCall Ended t v.inbound
IsEnded t w v none (some d) = HasCall OutClosed t v.outbound
IsEnded t w v none none = v.replies ≡ 481 ∷ w.replies

take_bye-IsEnded :
    (t : Text) (w : Calls) (o : Option Outbound.Call)
    → find in_client t w.outbound ≡ o
    → IsEnded t w (or_not_found (take_bye t o w)) none o
unfolding take_bye or_not_found respond_with
take_bye-IsEnded t w none f = refl
take_bye-IsEnded t w (some d) f =
    change-HasCall in_client (Outbound.bye w.down) t OutClosed w.outbound d f
      (bye-OutClosed w.down d)

module _ (unquote : Text → Text) (parse_uint : Text → ℕ × Bool) where
  -- After a BYE with a tag: if the server has a call under it, then such a call has a closed leg and
  -- its context is cancelled; if only the client has one, then such a call has a closed leg and is
  -- closing; and if nobody has one, the answer is a 481.
  pub on_bye-IsEnded :
      (q : Incoming) (w : Calls) (t : Text)
      → tag_of q.to ≡ some t
      → IsEnded t w
          (on_bye unquote parse_uint q w)
          (find in_server t w.inbound)
          (find in_client t w.outbound)
  unfolding on_bye client_bye
  on_bye-IsEnded q w t e = elim (Option-cases (find in_server t w.inbound)) [
    | inr (c, f) ↦
        rw (f, on_bye, e, f)
          (change-HasCall in_server (Inbound.bye (bye_reason unquote parse_uint q.reason)) t Ended
            w.inbound c f (bye-Ended (bye_reason unquote parse_uint q.reason) c))
    | inl f ↦
        rw (f, on_bye, e, f)
          (subst
            (λ s.
              IsEnded t w (or_not_found (take_bye s (find in_client s w.outbound) w)) none
                (find in_client t w.outbound))
            (sym (ground (arith, e))) (take_bye-IsEnded t w _ refl))
  ]
