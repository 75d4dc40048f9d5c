-- ===== src/Inbound/Auth/Timer.antt =====
-- The timer of an unanswered challenge (`scheduleAuthChallengeTimeout` of pkg/sip/inbound.go): the
-- flag of one Call-ID, and the calls that its timers have finalized as failed.
use sip_server.Prelude.{ℕ, ◌≡◌, refl, Bool, true, false, List, [], ◌∷◌, arith, if◌then◌else◌}

-- `finalized` are the calls that a timer has ended, latest first.
pub record Timers : Type 0 where
  pub auth_resolved : Bool
  pub finalized : List ℕ

-- A new INVITE with the Call-ID: `authResolved.Store(true)`.
unfoldable pub supersede : Timers → Timers
supersede t = record t { auth_resolved = true }

-- `scheduleAuthChallengeTimeout` up to the start of the timer.
unfoldable pub schedule : Timers → Timers
schedule t = record t { auth_resolved = false }

-- The timer of a call fires: a compare-and-swap on the flag decides.
unfoldable pub fire : ℕ → Timers → Timers
fire call t =
    if t.auth_resolved then t else record t { auth_resolved = true; finalized = call ∷ t.finalized }

unfoldable pub fire_all : List ℕ → Timers → Timers
fire_all [] t = t
fire_all (c ∷ cs) t = fire_all cs (fire c t)

-- Once the flag is set, no timer finalizes a call.
pub fire_all-resolved : (cs : List ℕ) (t : Timers) → t.auth_resolved ≡ true → fire_all cs t ≡ t
unfolding fire_all fire
fire_all-resolved [] t h = refl
fire_all-resolved (c ∷ cs) t h = ground (arith, fire_all-resolved cs t)

-- After a challenge, whichever timers of the Call-ID fire before another INVITE arrives, in any
-- order: the first of them finalizes its call and no other does; and after another INVITE that is
-- not challenged none does.
pub fire_all_lem :
    (first : ℕ) (rest : List ℕ) (t : Timers)
    → ((fire_all (first ∷ rest) (schedule t)).finalized ≡ first ∷ t.finalized)
      × ((fire_all (first ∷ rest) (supersede (schedule t))).finalized ≡ t.finalized)
unfolding fire_all fire schedule supersede
fire_all_lem first rest t = (
  ground (arith, fire_all-resolved rest (fire first (schedule t))),
  ground (arith, fire_all-resolved rest (supersede (schedule t))),
)
