-- ===== src/Inbound/Call/Invite/Ends.antt =====
-- Every part of `handleInvite` of pkg/sip/inbound.go leaves the call open or over.
use sip_server.Prelude.{
  ℕ, ◌≤◌, ◌≡◌, ◌≢◌, refl, Bool, true, false, Option, none, some, [], arith, Text, if◌then◌else◌,
}
use sip_server.Errors.{Err}
use sip_server.Classify.{EndCall}
use sip_server.Inbound.Leg.{Leg, write_failed, drop, start_ringing, accept}
use sip_server.Inbound.Leg.Dialog.{Inv, reject-Inv, drop-Inv, start-Inv, accept-Inv}
use sip_server.Inbound.Call.{Call}
use sip_server.Inbound.Call.Closing.{IsOpen, IsOver, close-IsOver}
use sip_server.Inbound.Call.Waits.{
  Event, Step, wait_subscribe, DispatchResult, accepted, request_pin, no_rule_reject, no_rule_drop,
  service_unavailable, other_result,
}
use sip_server.Inbound.Call.Life.{
  IsSound, going, still_open, over, wait_media-IsSound, wait_subscribe-IsSound, pin_prompt-IsSound,
  wait_for_call_end-IsSound, term-IsOver, no_ack-IsOver, ack_leg-IsOpen,
}
use sip_server.Inbound.Call.Invite.{
  Env, followed_by, reject, begin_ringing, check_media_config, check_dispatch, media_failure,
  media_verdict, start_media, after_accept, accept_call, join_failed, join_room, publish_track,
  prompt_first, answer_last, before_join, after_join, invite_body,
}

followed_by-IsSound :
    (s : Step) (k : Call → Step)
    → IsSound s
    → ((c : Call) → IsOpen c → IsSound (k c))
    → IsSound (followed_by s k)
followed_by-IsSound s k (going v) f = f _ v
followed_by-IsSound s k (still_open v) f = still_open v
followed_by-IsSound s k (over v) f = over v

reject-IsOpen : (s : ℕ) (r : Text) (c : Call) → 300 ≤ s → IsOpen c → IsOpen (reject s r c)
reject-IsOpen s r c l v = ground (arith, reject-Inv s r c.leg l)

leg-IsOpen : (l : Leg) (c : Call) → Inv l → IsOpen c → IsOpen (record c { leg = l })
leg-IsOpen l c i v = ground (arith, i)

begin_ringing-IsSound :
    (c : Call) (o : Option Leg) → start_ringing c.leg ≡ o → IsOpen c → IsSound (begin_ringing o c)
unfolding begin_ringing
begin_ringing-IsSound c none e v = still_open v
begin_ringing-IsSound c (some l) e v = going (leg-IsOpen l c (start-Inv c.leg e v.leg_inv) v)

check_media_config-IsSound :
    (o : Option Err) (c : Call) → IsOpen c → IsSound (check_media_config o c)
unfolding check_media_config
check_media_config-IsSound none c v = going v
check_media_config-IsSound (some e) c v =
    over (term-IsOver _ _ (reject-IsOpen 500 [] c (omega arith) v))

check_dispatch-IsSound : (d : DispatchResult) (c : Call) → IsOpen c → IsSound (check_dispatch d c)
unfolding check_dispatch
check_dispatch-IsSound accepted c v = going v
check_dispatch-IsSound request_pin c v = going v
check_dispatch-IsSound no_rule_drop c v =
    over (close-IsOver _ _ (leg-IsOpen (drop c.leg) c (drop-Inv c.leg v.leg_inv) v))
check_dispatch-IsSound no_rule_reject c v =
    over (term-IsOver _ _ (reject-IsOpen 404 _ c (omega arith) v))
check_dispatch-IsSound service_unavailable c v =
    over (term-IsOver _ _ (reject-IsOpen 503 _ c (omega arith) v))
check_dispatch-IsSound other_result c v =
    over (term-IsOver _ _ (reject-IsOpen 501 [] c (omega arith) v))

if-IsOver : (b : Bool) (c d : Call) → IsOver c → IsOver d → IsOver (if b then c else d)
if-IsOver true c d p q = p
if-IsOver false c d p q = q

media_verdict-code : (e : Err) → 300 ≤ (media_verdict e).0
unfolding media_verdict
media_verdict-code e = ground arith

media_failure-IsOver :
    (w : ℕ × EndCall) (c : Call) → 300 ≤ w.0 → IsOpen c → IsOver (media_failure w c)
unfolding media_failure
media_failure-IsOver (code, end) c l v = close-IsOver end _ (reject-IsOpen code [] c l v)

media-IsOpen : (b : Bool) (c : Call) → IsOpen c → IsOpen (record c { media_open = b })
media-IsOpen b c v = ground arith

start_media-IsSound :
    (b : Bool) (o : Option Err) (c : Call) → IsOpen c → IsSound (start_media b o c)
unfolding start_media
start_media-IsSound b none c v = going (media-IsOpen true c v)
start_media-IsSound b (some e) c v =
    over (media_failure-IsOver (media_verdict e) _ (media_verdict-code e) (media-IsOpen b c v))

after_accept-IsSound :
    (event : Event) (acked : Bool) (r : Leg × Option Err) (c : Call)
    → Inv r.0
    → IsOpen c
    → IsSound (after_accept event acked r c)
unfolding after_accept
after_accept-IsSound event acked (l, some e) c i v =
    over (
      if-IsOver _ _ _ (no_ack-IsOver _ (leg-IsOpen l c i v))
        (close-IsOver _ _ (leg-IsOpen l c i v)))
after_accept-IsSound event true (l, none) c i v =
    wait_media-IsSound event _ (ack_leg-IsOpen (record c { leg = l }) (leg-IsOpen l c i v))
after_accept-IsSound event false (l, none) c i v = wait_media-IsSound event _ (leg-IsOpen l c i v)

transferable-IsOpen : (c : Call) → IsOpen c → IsOpen (record c { transferable = true })
transferable-IsOpen c v = ground arith

room-IsOpen : (c : Call) → IsOpen c → IsOpen (record c { room_open = false })
room-IsOpen c v = ground arith

join_room-IsSound : (r k : Option Err) (c : Call) → IsOpen c → IsSound (join_room r k c)
unfolding join_room join_failed
join_room-IsSound (some e) k c v = over (term-IsOver _ c v)
join_room-IsSound none (some e) c v = over (term-IsOver _ _ (transferable-IsOpen c v))
join_room-IsSound none none c v = going (transferable-IsOpen c v)

publish_track-IsSound : (o : Option Err) (c : Call) → IsOpen c → IsSound (publish_track o c)
unfolding publish_track
publish_track-IsSound none c v = going v
publish_track-IsSound (some e) c v = over (term-IsOver _ _ (room-IsOpen c v))

-- The writes of the 200 do not fail.
abbrev pub Writes : Env → Type 0
Writes v = (n : ℕ) (e : Err) → v.replies n ≢ write_failed e

accept_call-IsSound : (v : Env) (c : Call) → Writes v → IsOpen c → IsSound (accept_call v c)
unfolding accept_call
accept_call-IsSound v c w o =
    after_accept-IsSound v.media_event v.ack_seen (accept v.config v.replies v.media c.leg) c
      (accept-Inv v.config v.replies v.media c.leg w o.leg_inv) o

by_dispatch-IsSound :
    (d : DispatchResult) (s t : Step)
    → IsSound s
    → IsSound t
    → IsSound (elim d [ request_pin ↦ s | _ ↦ t ])
by_dispatch-IsSound request_pin s t p q = p
by_dispatch-IsSound accepted s t p q = q
by_dispatch-IsSound no_rule_reject s t p q = q
by_dispatch-IsSound no_rule_drop s t p q = q
by_dispatch-IsSound service_unavailable s t p q = q
by_dispatch-IsSound other_result s t p q = q

prompt_first-IsSound : (v : Env) (c : Call) → Writes v → IsOpen c → IsSound (prompt_first v c)
unfolding prompt_first
prompt_first-IsSound v c w o =
    followed_by-IsSound (accept_call v c) _ (accept_call-IsSound v c w o)
      (λ d p. pin_prompt-IsSound v.pin_dispatch v.pin_events [] d p)

answer_last-IsSound : (v : Env) (c : Call) → Writes v → IsOpen c → IsSound (answer_last v c)
unfolding answer_last
answer_last-IsSound v c w o =
    followed_by-IsSound (wait_subscribe v.subscribe_event c) _
      (wait_subscribe-IsSound v.subscribe_event c o) (λ d p. accept_call-IsSound v d w p)

before_join-IsSound : (v : Env) (c : Call) → Writes v → IsOpen c → IsSound (before_join v c)
unfolding before_join
before_join-IsSound v c w o =
    by_dispatch-IsSound v.dispatch _ _ (prompt_first-IsSound v c w o) (going o)

after_join-IsSound : (v : Env) (c : Call) → Writes v → IsOpen c → IsSound (after_join v c)
unfolding after_join
after_join-IsSound v c w o =
    by_dispatch-IsSound v.dispatch _ _ (going o) (answer_last-IsSound v c w o)

pub invite_body-IsSound : (v : Env) (c : Call) → Writes v → IsOpen c → IsSound (invite_body v c)
unfolding invite_body
invite_body-IsSound v c w o =
    followed_by-IsSound _ _ (begin_ringing-IsSound c (start_ringing c.leg) refl o) (λ c1 o1.
      followed_by-IsSound _ _ (check_media_config-IsSound v.media_config_error c1 o1) (λ c2 o2.
        followed_by-IsSound _ _ (check_dispatch-IsSound v.dispatch c2 o2) (λ c3 o3.
          followed_by-IsSound _ _ (start_media-IsSound v.port_created v.media_error c3 o3) (λ c4 o4.
            followed_by-IsSound _ _ (before_join-IsSound v c4 w o4) (λ c5 o5.
              followed_by-IsSound _ _ (join_room-IsSound v.register_error v.connect_error c5 o5)
                (λ c6 o6.
                  followed_by-IsSound _ _ (publish_track-IsSound v.publish_error c6 o6) (λ c7 o7.
                    followed_by-IsSound _ _ (after_join-IsSound v c7 w o7)
                      (λ c8 o8. wait_for_call_end-IsSound v.end_events c8 o8))))))))
