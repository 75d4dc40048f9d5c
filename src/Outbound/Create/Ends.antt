-- ===== src/Outbound/Create/Ends.antt =====
-- What the request for an outbound call leaves and returns (pkg/sip/client.go).
use sip_server.Prelude.{
  ◌≡◌, refl, Bool, true, false, Option, none, some, ◌⊎◌, inl, inr, arith, is_some,
}
use sip_server.Stats.{new_call}
use sip_server.Status.{unknown_reason}
use sip_server.Errors.{Err}
use sip_server.Analytics.{CallState, update, flush_locked}
use sip_server.Outbound.Dialog.{new_leg-Inv}
use sip_server.Outbound.Call.{Call, CallInfo, participant_joined, info_error}
use sip_server.Outbound.Call.Closing.{IsOpen, IsOver, close-IsOver, unread-IsOver}
use sip_server.Outbound.Call.Dial.{Dialling}
use sip_server.Outbound.Call.Dial.Life.{IsDialled, dial_lem}
use sip_server.Outbound.Create.{
  Setup, fresh, joined_room, connect_to_room, media_failed, join_failed, listed, with_media,
  make_call, finish_info, with_info, answered_call, create_sip_participant,
}

-- A call that was made is open; one that was not is over.
abbrev Made : Bool → Call × Option Err → Type 0
Made down (c, none) = IsOpen false c
Made down (c, some e) = IsOver false down c

pub fresh-IsOpen : (s : CallState CallInfo) → IsOpen false (fresh s)
unfolding new_call
fresh-IsOpen s = let i = new_leg-Inv in ground (arith, i)

joined_room-IsOpen :
    (s : Setup) (c : Call) (e f : Option Err)
    → IsOpen false c
    → IsOpen false (joined_room s c e f).0
unfolding joined_room
joined_room-IsOpen s c (some e) f v = v
joined_room-IsOpen s c none (some f) v = v
joined_room-IsOpen s c none none v = ground (arith, v)

listed-Made :
    (down : Bool) (c : Call) (e : Option Err) → IsOpen false c → Made down (listed down (c, e))
unfolding listed
listed-Made down c none v = ground (arith, v)
listed-Made down c (some e) v = close-IsOver false down (join_failed e) c v

with_media-Made :
    (down : Bool) (s : Setup) (c : Call) (e : Option Err)
    → IsOpen false c
    → Made down (with_media down s c e)
unfolding with_media connect_to_room
with_media-Made down s c (some e) v = close-IsOver false down (media_failed e) c v
with_media-Made down s c none v =
    listed-Made down _ _ (joined_room-IsOpen s _ s.connect_err s.track_err (ground (arith, v)))

make_call-Made :
    (down : Bool) (s : Setup) (st : CallState CallInfo) → Made down (make_call down s st)
unfolding make_call
make_call-Made down s st = with_media-Made down s (fresh st) s.media_port_err (fresh-IsOpen st)

-- What a request without an error leaves: if it waited, a call with an established dialog.
abbrev Asked : Bool → Bool → Call × Option Err → Type 0
Asked wait down (c, none) = IsOpen false c × (wait ≡ true → c.leg.has_ok ≡ true)
Asked wait down (c, some e) = IsOver false down c

dialled-Asked :
    (wait down joined : Bool) (c : Call) (e : Option Err)
    → IsDialled down joined (c, e)
    → Asked wait down (c, e)
dialled-Asked wait down joined c none (inl (q, u, a)) = (u.is_open, λ w. u.established)
dialled-Asked wait down joined c none (inr (f, t)) = ground (arith, f.is_error)
dialled-Asked wait down joined c (some e) (inl (q, u, a)) = ground (arith, q)
dialled-Asked wait down joined c (some e) (inr (f, t)) = f.over

answered_call-Asked :
    (down joined wait : Bool) (d : Dialling) (c : Call) (e : Option Err)
    → Made down (c, e)
    → Asked wait down (answered_call down joined wait d (c, e))
unfolding answered_call
answered_call-Asked down joined wait d c (some e) v = v
answered_call-Asked down joined true d c none v =
    dialled-Asked true down joined _ _ (dial_lem down joined d c v)
answered_call-Asked down joined false d c none v = (v, λ w. ground (arith, w))

-- What the request returns and what is reported of the call.
abbrev pub IsCreated : Bool → Bool → Call × Option Err → Type 0
IsCreated wait down (c, e) =
    let i = c.state.call_info in
    ((e ≡ none)
      × IsOpen false c
      × (wait ≡ true → c.leg.has_ok ≡ true)
      × (i.call_status ≡ participant_joined))
    ⊎ ((is_some e ≡ true)
        × IsOver false down c
        × (i.call_status ≡ info_error)
        × (i.info_reason ≡ unknown_reason)
        × (i.error ≡ e))

with_info-IsCreated :
    (wait down : Bool) (c : Call) (e : Option Err)
    → Asked wait down (c, e)
    → IsCreated wait down (with_info (c, e))
unfolding with_info finish_info update flush_locked
with_info-IsCreated wait down c none (v, h) = inl (refl, ground (arith, v), h, refl)
with_info-IsCreated wait down c (some e) v =
    inr (refl, unread-IsOver false down c c.closing _ v, refl, refl, refl)

-- From the checked request on, the request for an outbound call has one of two ends. It returns no
-- error, the call is open and reported as joined, and if the request waited for the answer its dialog
-- is established already. Or it returns an error, and the call is over: its media port, its room and
-- its entries are gone, and so is the dialog unless the client is shutting down (`down`); and it is
-- reported as an error with that error and an unknown reason.
pub create_sip_participant_lem :
    (down joined wait : Bool) (s : Setup) (d : Dialling) (st : CallState CallInfo)
    → IsCreated wait down (create_sip_participant down joined wait s d st)
unfolding create_sip_participant
create_sip_participant_lem down joined wait s d st =
    with_info-IsCreated wait down _ _
      (answered_call-Asked down joined wait d _ _ (make_call-Made down s st))
