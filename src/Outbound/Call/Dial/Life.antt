-- ===== src/Outbound/Call/Dial/Life.antt =====
-- How a dial leaves an outbound call (pkg/sip/outbound.go).
use sip_server.Prelude.{
  ◌≡◌, refl, ◌∙◌, Bool, true, false, Option, none, some, [], ◌∷◌, ◌⊎◌, inl, inr, arith,
  if◌then◌else◌, is_some,
}
use sip_server.Stats.{CallMonitor, call_start, call_end}
use sip_server.Errors.{Err}
use sip_server.Outbound.Call.{
  Call, info_active, info_error, info_disconnected, ensure_closed, set_closed,
}
use sip_server.Outbound.Call.Closing.{IsOpen, IsOver, close-IsOver, close_records}
use sip_server.Classify.{classify_invite_error}
use sip_server.Classify.Returns.{after_invite_returns, classify_invite_error_returns}
use sip_server.Analytics.{update, flush_locked}
use sip_server.Outbound.Call.Dial.Answered.{Answered, dial_sip_lem}
use sip_server.Outbound.Call.Dial.{
  Dialling, connected, connect_sip, dialled, dial, invite_failure, set_active,
}

start_gauge : (b : Bool) (c : Call) → IsOpen b c → IsOpen b (record c { started = true })
start_gauge b c v = ground (arith, v)

-- How a dial failed: what is recorded of the call and what is returned are the classification of one
-- error.
pub record IsFailed (b down : Bool) (c : Call) (e : Option Err) : Type 0 where
  pub over : IsOver b down c
  pub cause : Err
  pub sent : Bool
  pub returned : e ≡ (invite_failure sent cause).return_err
  pub is_error : is_some e ≡ true
  pub recorded : c.mon.ended ≡ (invite_failure sent cause).end.term ∷ []
  pub reason : c.state.call_info.info_reason ≡ (invite_failure sent cause).end.reason

-- How a dial succeeded: the dialog is established.
pub record IsUp (b : Bool) (c : Call) : Type 0 where
  pub is_open : IsOpen b c
  pub established : c.leg.has_ok ≡ true
  pub was_started : c.started ≡ true

abbrev Connected : Bool → Bool → Call × Option Err → Type 0
Connected b down (c, e) = ((e ≡ none) × IsUp b c) ⊎ IsFailed b down c e

invite_failure_returns : (sent : Bool) (e : Err) → is_some (invite_failure sent e).return_err ≡ true
unfolding invite_failure
invite_failure_returns true e =
    after_invite_returns (classify_invite_error e) (classify_invite_error_returns e)
invite_failure_returns false e = classify_invite_error_returns e

connected_lem :
    (b down : Bool) (c : Call) (e : Option Err)
    → Answered b (c, e)
    → Connected b down (connected down (c, e))
unfolding connected
connected_lem b down c none (v, h) =
    inl (refl, record { is_open = start_gauge b c v; established = h refl; was_started = refl })
connected_lem b down c (some e) (v, h) =
    let f = invite_failure c.invite_time e in
    let (t, r) = close_records b down f.end c v in
    inr (record {
      over = close-IsOver b down f.end c v;
      cause = e;
      sent = c.invite_time;
      returned = refl;
      is_error = invite_failure_returns c.invite_time e;
      recorded = t;
      reason = r;
    })

connect_sip_lem :
    (b down : Bool) (d : Dialling) (c : Call) → IsOpen b c → Connected b down (connect_sip down d c)
unfolding connect_sip
connect_sip_lem b down d c v = connected_lem b down _ _ (dial_sip_lem b down d c v)

-- The status that a call is left with that has ended.
pub record IsTold (c : Call) : Type 0 where
  pub told_end : c.state.call_info.ended_at ≡ true
  pub told_status :
      c.state.call_info.call_status
      ≡ (if is_some c.state.call_info.error then info_error else info_disconnected)

pub ensure_closed-IsTold : (c : Call) → IsTold (ensure_closed c)
unfolding ensure_closed set_closed update flush_locked
ensure_closed-IsTold c = ground arith

ensure_closed_mon : (c : Call) → (ensure_closed c).mon.ended ≡ c.mon.ended
unfolding ensure_closed
ensure_closed_mon c = refl

ensure_closed_reason :
    (c : Call) → (ensure_closed c).state.call_info.info_reason ≡ c.state.call_info.info_reason
unfolding ensure_closed set_closed update flush_locked
ensure_closed_reason c = ground arith

pub ensure_closed-IsOver :
    (b down : Bool) (c : Call) → IsOver b down c → IsOver b down (ensure_closed c)
unfolding ensure_closed
ensure_closed-IsOver b down c v = record {
  leg_inv = v.leg_inv;
  leg_closed = v.leg_closed;
  is_stopped = v.is_stopped;
  one_termination = v.one_termination;
  is_terminated = v.is_terminated;
  one_session_end = v.one_session_end;
  media_closed = v.media_closed;
  room_closed = v.room_closed;
  unlisted = v.unlisted;
  not_transferable = v.not_transferable;
  gauge = v.gauge;
}

-- The end of the gauge.
uncounted-IsOver :
    (down : Bool) (c : Call)
    → IsOver true down c
    → IsOver false down (record c { mon = call_end c.mon })
unfolding call_end
uncounted-IsOver down c v = record {
  leg_inv = v.leg_inv;
  leg_closed = v.leg_closed;
  is_stopped = v.is_stopped;
  one_termination = ground (arith, v.one_termination);
  is_terminated = ground (arith, v.is_terminated);
  one_session_end = v.one_session_end;
  media_closed = v.media_closed;
  room_closed = v.room_closed;
  unlisted = v.unlisted;
  not_transferable = v.not_transferable;
  gauge = ground (arith, v.gauge);
}

uncounted-IsOpen : (c : Call) → IsOpen true c → IsOpen false (record c { mon = call_end c.mon })
unfolding call_end
uncounted-IsOpen c v = ground (arith, v)

counted-IsOpen : (c : Call) → IsOpen false c → IsOpen true (record c { mon = call_start c.mon })
unfolding call_start
counted-IsOpen c v = ground (arith, v)

uncounted-IsFailed :
    (down : Bool) (c : Call) (e : Option Err)
    → IsFailed true down c e
    → IsFailed false down (record c { mon = call_end c.mon }) e
unfolding call_end
uncounted-IsFailed down c e f = record {
  over = uncounted-IsOver down c f.over;
  cause = f.cause;
  sent = f.sent;
  returned = f.returned;
  is_error = f.is_error;
  recorded = ground (arith, f.recorded);
  reason = f.reason;
}

ensure_closed-IsFailed :
    (down : Bool) (c : Call) (e : Option Err)
    → IsFailed true down c e
    → IsFailed true down (ensure_closed c) e
ensure_closed-IsFailed down c e f = record {
  over = ensure_closed-IsOver true down c f.over;
  cause = f.cause;
  sent = f.sent;
  returned = f.returned;
  is_error = f.is_error;
  recorded = ensure_closed_mon c ∙ f.recorded;
  reason = ensure_closed_reason c ∙ f.reason;
}

-- What a dial leaves, and returns.
abbrev pub IsDialled : Bool → Bool → Call × Option Err → Type 0
IsDialled down joined (c, e) =
    ((e ≡ none) × IsUp false c × (joined ≡ true → c.state.call_info.call_status ≡ info_active))
    ⊎ (IsFailed false down c e × IsTold c)

-- The call that was dialled is active.
set_active-IsUp :
    (joined : Bool) (c : Call)
    → IsUp true c
    → let s = update (λ i. if joined then set_active i else i) c.state in
      IsUp false (record c { state = s; mon = call_end c.mon })
unfolding call_end
set_active-IsUp joined c u = record {
  is_open = ground (arith, u.is_open);
  established = u.established;
  was_started = u.was_started;
}

set_active_status :
    (c : Call)
    → (joined : Bool) → joined ≡ true
    → (update (λ i. if joined then set_active i else i) c.state).call_info.call_status ≡ info_active
unfolding update flush_locked set_active
set_active_status c joined h = ground (arith, h)

mon-IsTold : (c : Call) (m : CallMonitor) → IsTold c → IsTold (record c { mon = m })
mon-IsTold c m t = record { told_end = t.told_end; told_status = t.told_status }

finished :
    (down joined : Bool) (c : Call) (e : Option Err)
    → Connected true down (c, e)
    → let x = dialled joined (c, e) in
      IsDialled down joined (record x.0 { mon = call_end x.0.mon }, x.1)
unfolding dialled
finished down joined c none (inl (r, u)) =
    inl (refl, set_active-IsUp joined c u, set_active_status c joined)
finished down joined c none (inr f) = ground (arith, f.is_error)
finished down joined c (some e) (inl (r, u)) = ground (arith, r)
finished down joined c (some e) (inr f) = inr (
  uncounted-IsFailed down _ (some e) (ensure_closed-IsFailed down c (some e) f),
  mon-IsTold (ensure_closed c) _ (ensure_closed-IsTold c),
)

-- A dial of an open call that is not counted as active yet has one of two ends. It returns no error,
-- the dialog is established, the call is open, and if the participant has `joined` the room it is
-- reported as active. Or it returns an error, and the call is over: its media port, its room and its
-- entries are gone, and so is the dialog unless the client is shutting down (`down`); the one
-- termination that is counted, the reason that is reported and the error that is returned are the
-- classification of one error. In both cases the call is counted as active no more once the dial has
-- returned.
pub dial_lem :
    (down joined : Bool) (d : Dialling) (c : Call)
    → IsOpen false c
    → IsDialled down joined (dial down joined d c)
unfolding dial
dial_lem down joined d c v =
    let k = connect_sip_lem true down d _ (counted-IsOpen c v) in finished down joined _ _ k
