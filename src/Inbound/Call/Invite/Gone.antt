-- ===== src/Inbound/Call/Invite/Gone.antt =====
-- However `handleInvite` of pkg/sip/inbound.go returns, the call is over.
use sip_server.Prelude.{◌+◌, ◌≤◌, ◌≡◌, ◌≢◌, ◌⊎◌, inl, inr, false, [], arith, length}
use sip_server.Stats.{call_start, call_end, new_call, Termination}
use sip_server.Status.{call_dropped}
use sip_server.Inbound.Leg.Dialog.{Inv, rejections, byes}
use sip_server.Inbound.Leg.Closing.{IsClosed}
use sip_server.Inbound.Call.{Call, end_with, close_with_term}
use sip_server.Inbound.Call.Closing.{IsOpen, IsOver, close_again}
use sip_server.Inbound.Call.Waits.{Step, go, halt, returned, panicked, waiting}
use sip_server.Inbound.Call.Life.{IsSound, going, still_open, over, term-IsOver}
use sip_server.Inbound.Call.Invite.{Env, invite_body, deferred, finish, handle_invite}
use sip_server.Inbound.Call.Invite.Ends.{Writes, invite_body-IsSound}

-- The call is over: one termination is counted and one end of its session reported, at most one
-- final rejection or BYE of ours was sent, and nothing that the call had opened is left.
pub record IsGone (c : Call) : Type 0 where
  pub leg_closed : IsClosed c.leg
  pub answered_once : rejections c.leg.sent + byes c.leg.sent ≤ 1
  pub one_termination : length c.mon.ended ≡ 1
  pub one_session_end : length c.session_ends ≡ 1
  pub inactive : c.mon.calls_active ≡ 0
  pub media_closed : c.media_open ≡ false
  pub room_closed : c.room_open ≡ false
  pub unlisted : c.by_local_tag ≡ false
  pub not_transferable : c.transferable ≡ false

end_count-IsGone : (c : Call) → IsOver c → IsGone (record c { mon = call_end c.mon })
unfolding call_end
end_count-IsGone c v = ground arith

other_term-IsOver : (t : Termination) (c : Call) → IsOver c → IsOver (close_with_term t c)
unfolding close_with_term
other_term-IsOver t c v = rw (close_again (end_with call_dropped t) c v.is_done) v

deferred-IsGone : (c : Call) → IsOpen c ⊎ IsOver c → IsGone (deferred c)
unfolding deferred
deferred-IsGone c (inl v) = end_count-IsGone _ (term-IsOver _ c v)
deferred-IsGone c (inr v) = end_count-IsGone _ (other_term-IsOver _ c v)

-- The call as `newInboundCall` makes it.
pub record IsNew (c : Call) : Type 0 where
  pub leg_inv : Inv c.leg
  pub not_done : c.done ≡ false
  pub no_session_end : c.session_ends ≡ []
  pub mon : c.mon ≡ new_call

begin-IsOpen : (c : Call) → IsNew c → IsOpen (record c { mon = call_start c.mon })
unfolding call_start new_call
begin-IsOpen c v = ground arith

-- A step that ends by a return or a panic, as opposed to one that waits.
finish-IsGone : (s : Step) → IsSound s → (finish s).0 ≢ waiting → IsGone (finish s).1
unfolding finish
finish-IsGone (go c) (going v) w = deferred-IsGone c (inl v)
finish-IsGone (halt (returned e) c) (still_open v) w = deferred-IsGone c (inl v)
finish-IsGone (halt (returned e) c) (over v) w = deferred-IsGone c (inr v)
finish-IsGone (halt panicked c) (still_open v) w = deferred-IsGone c (inl v)
finish-IsGone (halt panicked c) (over v) w = deferred-IsGone c (inr v)
finish-IsGone (halt waiting c) v w = ground arith

-- A new call, in whatever environment in which the writes of the 200 do not fail: if `handleInvite`
-- does not wait for ever but returns or panics, one termination of the call is counted and one end of
-- its session reported, at most one rejection or BYE of ours was sent, its leg is closed and silent,
-- and its media, its room, its place in the server and its registration for transfers are gone.
pub handle_invite-IsGone :
    (v : Env) (c : Call)
    → Writes v
    → IsNew c
    → (handle_invite v c).0 ≢ waiting
    → IsGone (handle_invite v c).1
unfolding handle_invite
handle_invite-IsGone v c w n r =
    let begun : Call = record c { mon = call_start c.mon } in
    finish-IsGone (invite_body v begun) (invite_body-IsSound v begun w (begin-IsOpen c n)) r
