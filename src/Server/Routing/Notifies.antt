-- ===== src/Server/Routing/Notifies.antt =====
-- How a NOTIFY is answered, and what it hands over (pkg/sip/inbound.go and pkg/sip/client.go).
use sip_server.Prelude.{
  ℕ, ◌≡◌, refl, ◌⊎◌, inl, inr, Option, none, some, ◌∷◌, arith, Text, Option-cases, subst, sym,
}
use sip_server.Errors.{Err, SipStatus, ErrorCode}
use sip_server.Refer.{Parse, NotifyInfo, fine, failed, handle_notify, handle_refer_notify}
use sip_server.Refer.Answer.{sip_code_from_error}
use sip_server.Inbound.Call as Inbound
use sip_server.Outbound.Call as Outbound
use sip_server.Server.Routing.{
  Incoming, Calls, find, in_server, in_client, respond_with, tag_of, leg_notify, answer_notify,
  take_notify, client_notify, on_notify,
}

-- One answer with the code `code`, all calls as they were, and at most one outcome that is handed
-- over, for the tag of the request and with a 200.
pub record IsNoted (q : Incoming) (w v : Calls) (code : ℕ) : Type 0 where
  pub answered : v.replies ≡ code ∷ w.replies
  pub same_inbound : v.inbound ≡ w.inbound
  pub same_outbound : v.outbound ≡ w.outbound
  pub handed_over :
      (v.handed ≡ w.handed)
      ⊎ ((t : Text) × (r : Option Err) × (v.handed ≡ (t, r) ∷ w.handed)
          × (tag_of q.to ≡ some t)
          × (code ≡ 200))

-- The codes that a NOTIFY can get: that of the error of its body, 400 without a tag, 481 without a call.
abbrev of_parse : Parse NotifyInfo → ℕ
of_parse (failed e) = sip_code_from_error (some e)
of_parse (fine info) = 200

abbrev of_calls : Parse NotifyInfo → Option Inbound.Call → Option Outbound.Call → ℕ
of_calls p (some c) o = of_parse p
of_calls p none (some d) = of_parse p
of_calls p none none = 481

abbrev pub code_of : Incoming → Calls → Option Text → ℕ
code_of q w none = 400
code_of q w (some t) =
    of_calls (handle_notify q.notify) (find in_server t w.inbound) (find in_client t w.outbound)

respond_with-IsNoted :
    (q : Incoming) (w : Calls) (code : ℕ) → IsNoted q w (respond_with code w) code
unfolding respond_with
respond_with-IsNoted q w code = record {
  answered = refl;
  same_inbound = refl;
  same_outbound = refl;
  handed_over = inl refl;
}

module _ (get_error_code : SipStatus → ErrorCode) where
  leg_notify-IsNoted :
      (q : Incoming) (w : Calls) (t : Text) (n : ℕ) (p : Parse NotifyInfo)
      → tag_of q.to ≡ some t
      → IsNoted q w (answer_notify (leg_notify get_error_code t n p w)) (of_parse p)
  unfolding answer_notify leg_notify sip_code_from_error respond_with
  leg_notify-IsNoted q w t n (failed e) h = respond_with-IsNoted q w (sip_code_from_error (some e))
  leg_notify-IsNoted q w t n (fine info) h =
      elim (Option-cases (handle_refer_notify get_error_code info n)) [
        | inl e ↦ rw (leg_notify, e) (respond_with-IsNoted q w 200)
        | inr (r, e) ↦
            rw (leg_notify, e)
              (record {
                answered = refl;
                same_inbound = refl;
                same_outbound = refl;
                handed_over = inr (t, r, refl, h, refl);
              })
      ]

  take_notify-IsNoted :
      (q : Incoming) (w : Calls) (t : Text) (o : Option Outbound.Call) (p : Parse NotifyInfo)
      → tag_of q.to ≡ some t
      → IsNoted q w (take_notify get_error_code t p o w) (of_calls p none o)
  unfolding take_notify
  take_notify-IsNoted q w t none p h = respond_with-IsNoted q w 481
  take_notify-IsNoted q w t (some c) p h = leg_notify-IsNoted q w t c.leg.refer_cseq p h

  -- A NOTIFY is answered exactly once: 400 without a tag, 481 if neither the server nor the client has
  -- a call under its tag, the code of the error if it cannot be read, and else 200. No call changes, and
  -- at most one outcome of a transfer is handed over, for the call of the tag and only with a 200.
  pub on_notify-IsNoted :
      (q : Incoming) (w : Calls)
      → IsNoted q w (on_notify get_error_code q w) (code_of q w (tag_of q.to))
  unfolding on_notify client_notify
  on_notify-IsNoted q w = elim (Option-cases (tag_of q.to)) [
    | inl e ↦ rw (on_notify, e) (respond_with-IsNoted q w 400)
    | inr (t, e) ↦ elim (Option-cases (find in_server t w.inbound)) [
      | inr (c, f) ↦
          rw (on_notify, e, f)
            (leg_notify-IsNoted q w t c.leg.refer_cseq (handle_notify q.notify) e)
      | inl f ↦
          rw (on_notify, e, f)
            (subst
              (λ s.
                IsNoted q w
                  (take_notify get_error_code s (handle_notify q.notify)
                    (find in_client s w.outbound) w)
                  (of_calls (handle_notify q.notify) none (find in_client t w.outbound)))
              (sym (ground (arith, e)))
              (take_notify-IsNoted q w t (find in_client t w.outbound) (handle_notify q.notify) e))
    ]
  ]
