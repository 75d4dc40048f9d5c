-- ===== src/Inbound/Leg/Closing.antt =====
-- How the inbound leg is closed, and that a closed leg is silent (pkg/sip/inbound.go).
use sip_server.Prelude.{ℕ, ◌≡◌, ◌⊎◌, inl, inr, refl, true, false, none, some, ◌∷◌, arith}
use sip_server.Codes.{Result, new_response}
use sip_server.Inbound.Leg.{
  response, bye_ok, bye, tx_closed, Leg, Config, drop, respond, processing, send_ringing,
  start_ringing, ringing_tick, cancel, respond_and_drop, accept, accept_ack, accept_bye,
  close_with_status, accept_as_keep_alive, new_refer, refer, send_refer,
}
use sip_server.Inbound.Leg.Dialog.{
  Op, process, start, tick, cancelled_op, got_ack_op, got_bye, refer_op, drop_op, reject, accept_op,
  keep_alive_op, send_refer_op, close, step, Inv,
}

-- The leg is closed: it holds neither a transaction nor a dialog.
pub record IsClosed (l : Leg) : Type 0 where
  pub no_tx : l.has_tx ≡ false
  pub no_ok : l.has_ok ≡ false
  pub no_invite : l.has_invite ≡ false
  pub quiet : l.ringing ≡ false

-- From any state that satisfies the invariant, `CloseWithStatus` closes the leg. An established
-- dialog gets exactly a BYE, a pending INVITE exactly the final response of the result, and a leg
-- that was closed before gets nothing.
pub close_with_status-IsClosed :
    (r : Result) (l : Leg)
    → Inv l
    → let k = close_with_status r l in
      let r' = new_response r in
      IsClosed k
      × (l.has_ok ≡ true → k.sent ≡ bye l.next_cseq ∷ l.sent)
      × (l.has_tx ≡ true → k.sent ≡ tx_closed ∷ response r'.code r'.status ∷ l.sent)
      × (IsClosed l → k.sent ≡ l.sent)
unfolding close_with_status
close_with_status-IsClosed r l v = ground arith

-- On a closed leg no method puts anything on the wire but the answer to a BYE, and a REFER that was
-- numbered before; and the leg stays closed; starting to ring would panic.
pub step-IsClosed :
    (c : Config) (o : Op) (l : Leg)
    → IsClosed l
    → (step c o l ≡ none)
      ⊎ ((k : Leg) × (step c o l ≡ some k)
          × IsClosed k
          × ((k.sent ≡ l.sent)
              ⊎ (k.sent ≡ bye_ok ∷ l.sent)
              ⊎ ((n : ℕ) × (o ≡ send_refer_op n) × (k.sent ≡ refer n ∷ l.sent))))
unfolding step processing ringing_tick send_ringing start_ringing respond cancel accept_ack
    accept_bye accept_as_keep_alive new_refer send_refer drop respond_and_drop accept
    close_with_status
step-IsClosed c process l v = inr (l, ground arith, v, inl refl)
step-IsClosed c start l v = inl (ground arith)
step-IsClosed c tick l v = inr (l, ground arith, v, inl refl)
step-IsClosed c cancelled_op l v = inr (cancel l, refl, ground arith, inl refl)
step-IsClosed c got_ack_op l v = inr (accept_ack l, refl, ground arith, inl refl)
step-IsClosed c got_bye l v = inr (accept_bye l, refl, ground arith, inr (inl (ground arith)))
step-IsClosed c refer_op l v = inr ((new_refer l).0, refl, ground arith, inl (ground arith))
step-IsClosed c drop_op l v = inr (drop l, refl, ground arith, inl (ground arith))
step-IsClosed c keep_alive_op l v = inr (l, ground arith, v, inl refl)
step-IsClosed c (send_refer_op n) l v =
    inr (send_refer n l, refl, ground arith, inr (inr (n, refl, refl)))
step-IsClosed c (reject s r) l v =
    inr ((respond_and_drop s r l none).0, refl, ground arith, inl (ground arith))
step-IsClosed c (accept_op env sdp) l v =
    inr ((accept c env sdp l).0, refl, ground arith, inl (ground arith))
step-IsClosed c (close r) l v = inr (close_with_status r l, refl, ground arith, inl (ground arith))
