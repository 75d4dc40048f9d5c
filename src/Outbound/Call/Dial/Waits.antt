-- ===== src/Outbound/Call/Dial/Waits.antt =====
-- The end of an outbound call that was dialled (pkg/sip/outbound.go).
use sip_server.Prelude.{
  ◌≡◌, refl, ap, sym, Bool, true, false, Option, none, some, List, [], ◌∷◌, ◌⊎◌, inl, inr, arith,
  is_some, ◌↔◌, subst, not, if◌then◌else◌, All,
}
use sip_server.Errors.{Err}
use sip_server.Analytics.{force_flush}
use sip_server.Classify.{EndCall}
use sip_server.Outbound.{accept_bye, drop}
use sip_server.Outbound.Call.{
  Call, close, shutdown, close_with_timeout, end_call, bye, transferred, set_err_status,
  timeout_end, rpc_end,
}
use sip_server.Outbound.Call.Closing.{IsOpen, IsOver, unread-IsOver, close-IsOver, close_again}
use sip_server.Outbound.Call.Dial.{
  Dialling, Event, stats_tick, state_tick, ctx_done, media_timed_out, was_closed, room_closed,
  wait_loop, wait_close, close_after, dial, room_end, ctx_end, media_timeout,
}
use sip_server.Outbound.Call.Dial.Life.{
  IsTold, ensure_closed-IsTold, ensure_closed-IsOver, dial_lem, IsDialled,
}

-- The call is open, or was closed once. `down` says whether an operation that may have closed it met
-- the client shutting down; if none did, the dialog is gone as well (`IsOver.leg_closed`).
pub data IsSound (down : Bool) (c : Call) : Type 0 where
  open_call : IsOpen false c → IsSound down c
  over_call : IsOver false down c → IsSound down c

-- What is over without a shutdown, is over.
weak-IsOver :
    (d down : Bool) (c : Call) → (d ≡ true → down ≡ true) → IsOver false d c → IsOver false down c
weak-IsOver d down c h v = record {
  leg_inv = v.leg_inv;
  leg_closed = ground (arith, v.leg_closed, h);
  is_stopped = v.is_stopped;
  one_termination = v.one_termination;
  is_terminated = v.is_terminated;
  one_session_end = v.one_session_end;
  media_closed = v.media_closed;
  room_closed = v.room_closed;
  unlisted = v.unlisted;
  not_transferable = v.not_transferable;
  gauge = v.gauge;
}

module _ (down : Bool) where
  -- After a close the call is over, whether or not this was the close that ended it.
  close-IsOver_again :
      (d : Bool) (e : EndCall) (c : Call)
      → (d ≡ true → down ≡ true)
      → IsSound down c
      → IsOver false down (close d e c).0
  close-IsOver_again d e c h (open_call v) = weak-IsOver d down _ h (close-IsOver false d e c v)
  close-IsOver_again d e c h (over_call v) =
      subst (λ x. IsOver false down x) (sym (ap (λ p. p.0) (close_again d e c v.is_stopped)))
        (unread-IsOver false down c true c.state v)

  forced-IsSound :
      (c : Call) → IsSound down c → IsSound down (record c { state = force_flush c.state })
  forced-IsSound c (open_call v) = open_call (ground (arith, v))
  forced-IsSound c (over_call v) = over_call (unread-IsOver false down c c.closing _ v)

  set_err-IsOver :
      (e : Option Err) (c : Call) → IsOver false down c → IsOver false down (set_err_status e c)
  unfolding set_err_status
  set_err-IsOver none c v = v
  set_err-IsOver (some e) c v = unread-IsOver false down c c.closing _ v

  -- What a wait leaves: a call that is sound, and over if the wait has ended.
  abbrev Waited : Call × Option (Option Err) → Type 0
  Waited (c, none) = IsSound down c
  Waited (c, some r) = IsOver false down c

  was_closed_lem :
      (c : Call) (x : Call × Option (Option Err))
      → IsSound down c
      → Waited x
      → Waited (if c.stopped then (c, some none) else x)
  was_closed_lem c x (open_call v) w = ground (arith, v.not_stopped, w)
  was_closed_lem c x (over_call v) w =
      subst (λ b. Waited (if b then (c, some none) else x)) (sym v.is_stopped) v

  after_wait :
      (c : Call) (r : Option (Option Err))
      → Waited (c, r)
      → let (c', r') = close_after (c, r) in
        ((r' ≡ none) × IsSound down c') ⊎ ((is_some r' ≡ true) × IsOver false down c' × IsTold c')
  unfolding close_after
  after_wait c none v = inl (refl, v)
  after_wait c (some r) v = inr (refl, ensure_closed-IsOver false down c v, ensure_closed-IsTold c)

  wait_loop_lem :
      (d : Bool) (es : List Event) (c : Call)
      → (d ≡ true → down ≡ true)
      → IsSound down c
      → Waited (wait_loop d es c)
  unfolding wait_loop close_with_timeout
  wait_loop_lem d [] c h v = v
  wait_loop_lem d (stats_tick ∷ es) c h v = wait_loop_lem d es c h v
  wait_loop_lem d (state_tick ∷ es) c h v = wait_loop_lem d es _ h (forced-IsSound c v)
  wait_loop_lem d (room_closed r ∷ es) c h v = close-IsOver_again d (room_end r) c h v
  wait_loop_lem d (media_timed_out ∷ es) c h v =
      set_err-IsOver (some media_timeout) _ (close-IsOver_again d timeout_end c h v)
  wait_loop_lem d (ctx_done ∷ es) c h v = close-IsOver_again d ctx_end c h v
  wait_loop_lem d (was_closed ∷ es) c h v = was_closed_lem c _ v (wait_loop_lem d es c h v)

  -- A wait that ends, ends a call; its status says whether there was an error.
  pub wait_close_lem :
      (d : Bool) (es : List Event) (c : Call)
      → (d ≡ true → down ≡ true)
      → IsSound down c
      → let (c', r) = wait_close d es c in
        ((r ≡ none) × IsSound down c') ⊎ ((is_some r ≡ true) × IsOver false down c' × IsTold c')
  unfolding wait_close
  wait_close_lem d es c h v = after_wait _ _ (wait_loop_lem d es c h v)

-- What may happen to a call that was dialled: its wait, the RPC that ends it, a BYE, the end after a
-- transfer, and the shutdown; each meets the client in operation or shutting down.
pub data Op : Type 0 where
  waited : Bool → List Event → Op
  ended hung_up transferred_away shut_down : Bool → Op

-- Whether the operation meets the client shutting down.
abbrev pub meets_shutdown : Op → Bool
meets_shutdown (waited d es) = d
meets_shutdown (ended d) = d
meets_shutdown (hung_up d) = d
meets_shutdown (transferred_away d) = d
meets_shutdown (shut_down d) = d

pub step : Op → Call → Call
step (waited d es) c = (wait_close d es c).0
step (ended d) c = (end_call d c).0
step (hung_up d) c = bye d c
step (transferred_away d) c = transferred d c
step (shut_down d) c = shutdown d c

pub run : List Op → Call → Call
run [] c = c
run (o ∷ os) c = run os (step o c)

module _ (down : Bool) where
  leg_gone-IsSound :
      (c : Call) → IsSound down c → IsSound down (record c { leg = accept_bye c.leg })
  unfolding accept_bye drop
  leg_gone-IsSound c (open_call v) = open_call (ground (arith, v))
  leg_gone-IsSound c (over_call v) = over_call (record {
    leg_inv = ground arith;
    leg_closed = λ _. refl;
    is_stopped = v.is_stopped;
    one_termination = v.one_termination;
    is_terminated = v.is_terminated;
    one_session_end = v.one_session_end;
    media_closed = v.media_closed;
    room_closed = v.room_closed;
    unlisted = v.unlisted;
    not_transferable = v.not_transferable;
    gauge = v.gauge;
  })

  step-IsSound :
      (o : Op) (c : Call)
      → (meets_shutdown o ≡ true → down ≡ true)
      → IsSound down c
      → IsSound down (step o c)
  unfolding step end_call bye transferred shutdown
  step-IsSound (waited d es) c h v = elim (wait_close_lem down d es c h v) [
    | inl (r, w) ↦ w
    | inr (r, w, t) ↦ over_call w
  ]
  step-IsSound (ended d) c h v = over_call (close-IsOver_again down d _ c h v)
  step-IsSound (hung_up d) c h v =
      over_call (close-IsOver_again down d _ _ h (leg_gone-IsSound c v))
  step-IsSound (transferred_away d) c h v = over_call (close-IsOver_again down d _ c h v)
  step-IsSound (shut_down d) c h v = over_call (close-IsOver_again down d _ c h v)

  run-IsSound :
      (os : List Op) (c : Call)
      → All (λ o. meets_shutdown o ≡ true → down ≡ true) os
      → IsSound down c
      → IsSound down (run os c)
  unfolding run
  run-IsSound [] c h v = v
  run-IsSound (o ∷ os) c h v = run-IsSound os (step o c) h.1 (step-IsSound o c h.0 v)

  dialled-IsSound :
      (joined : Bool) (c : Call) (e : Option Err) → IsDialled down joined (c, e) → IsSound down c
  dialled-IsSound joined c e (inl (q, u, a)) = open_call u.is_open
  dialled-IsSound joined c e (inr (f, t)) = over_call f.over

-- A new call that is dialled, and then waited for, ended, hung up and shut down in any order and any
-- number of times, is open, or it was closed once: one termination is counted, one end of the session
-- was reported, and the media port, the room and the entries of the call are gone. If `down` is false,
-- the dial and all these operations met the client in operation, and then the dialog of a call that
-- was closed is gone as well.
pub run-dial :
    (down joined : Bool) (d : Dialling) (os : List Op) (c : Call)
    → IsOpen false c
    → All (λ o. meets_shutdown o ≡ true → down ≡ true) os
    → IsSound down (run os (dial down joined d c).0)
run-dial down joined d os c v h =
    run-IsSound down os _ h (dialled-IsSound down joined _ _ (dial_lem down joined d c v))

close_done : (down : Bool) (e : EndCall) (c : Call) → (close down e c).1 ≡ not c.stopped
unfolding close
close_done down e c = ground arith

-- Ending a call by the RPC fails if and only if the call was over already, and leaves it over in
-- both cases; ending it again fails.
pub end_call_lem :
    (down : Bool) (c : Call)
    → IsSound down c
    → let (c', e) = end_call down c in
      ((e ≡ none) ↔ (c.stopped ≡ false))
      × IsOver false down c'
      × (is_some (end_call down c').1 ≡ true)
unfolding end_call
end_call_lem down c v =
    let o = close-IsOver_again down down rpc_end c (λ q. q) v in
    let c' = (close down rpc_end c).0 in
    (
      ground (arith, close_done down rpc_end c),
      o,
      ground (arith, close_done down rpc_end c', o.is_stopped),
    )
