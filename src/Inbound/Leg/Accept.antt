-- ===== src/Inbound/Leg/Accept.antt =====
-- The retry loop of `Accept` in pkg/sip/inbound.go: it ends, and how often and how long it repeats
-- the 200.
use sip_server.Prelude.{
  ℕ, zero, suc, ◌+◌, ◌-◌, ◌*◌, ◌≤◌, ◌<◌, ◌≡◌, ◌≢◌, inl, inr, Bool-cases, refl, Bool, true, false,
  Option, none, some, arith, ltb,
}
use sip_server.Errors.{Err}
use sip_server.Inbound.Leg.{
  Reply, write_failed, got_ack, timed_out, Ending, unacknowledged, write_error, Attempt,
  after_write, accept_loop, next_interval, ok_retry_interval_max,
}

-- What is known of the loop's end from its round `try` on: it is one, the 200 was written at most once
-- more than the retries allowed, and exactly so often if no ACK came; each round waits 3 seconds at
-- most.
abbrev pub Ends : ℕ → ℕ → ℕ → Option Attempt → Type 0
Ends max try waited none = ⊥
Ends max try waited (some a) =
    (a.oks ≤ suc max)
    × (a.ending ≡ unacknowledged → a.oks ≡ suc max)
    × (a.waited ≤ waited + (suc (suc max) - try) * ok_retry_interval_max)

after_write-Ends :
    (u : Bool) (max : ℕ) (env : ℕ → Reply) (try interval waited : ℕ) (again : Option Attempt)
    (r : Reply)
    → 0 < try
    → try ≤ suc max
    → interval ≤ ok_retry_interval_max
    → (try ≤ max → Ends max (try + 1) (waited + interval) again)
    → Ends max try waited (after_write u max env try interval waited again r)
unfolding after_write
after_write-Ends u max env try interval waited again (write_failed e) p le i h = ground arith
after_write-Ends u max env try interval waited again got_ack p le i h = ground arith
after_write-Ends u max env try interval waited none timed_out p le i h = ground arith
after_write-Ends u max env try interval waited (some a) timed_out p le i h = ground arith

pub accept_loop-Ends :
    (u : Bool) (max : ℕ) (env : ℕ → Reply) (fuel try interval waited : ℕ)
    → 0 < try
    → try ≤ suc max
    → suc max < try + fuel
    → interval ≤ ok_retry_interval_max
    → Ends max try waited (accept_loop u max env fuel try interval waited)
unfolding accept_loop
accept_loop-Ends u max env zero try interval waited p le f i = absurd (omega arith)
accept_loop-Ends u max env (suc fuel) try interval waited p le f i =
    after_write-Ends u max env try interval waited
      (accept_loop u max env fuel (try + 1) (next_interval interval) (waited + interval)) (env try)
      p le i
      (λ more.
        accept_loop-Ends u max env fuel (try + 1) (next_interval interval) (waited + interval)
          (omega arith) (omega arith) (omega arith) (ground arith))

abbrev pub is_write_error : Ending → Bool
is_write_error (write_error e) = true
is_write_error _ = false

-- Where no write fails, the loop ends otherwise, after one write at least.
abbrev pub Written : Option Attempt → Type 0
Written none = Unit {0}
Written (some a) = (0 < a.oks) × (is_write_error a.ending ≡ false)

after_write-Written :
    (u : Bool) (max : ℕ) (env : ℕ → Reply) (try interval waited : ℕ) (again : Option Attempt)
    (r : Reply)
    → 0 < try
    → ((e : Err) → r ≢ write_failed e)
    → Written again
    → Written (after_write u max env try interval waited again r)
unfolding after_write
after_write-Written u max env try interval waited again (write_failed e) p h w = absurd (h e refl)
after_write-Written u max env try interval waited again got_ack p h w = (omega arith, ground arith)
after_write-Written true max env try interval waited again timed_out p h w =
    (omega arith, ground arith)
after_write-Written false max env try interval waited again timed_out p h w =
    elim (Bool-cases (ltb max try)) [
      | inl more ↦ rw more (omega arith, ground arith)
      | inr less ↦ rw less w
    ]

pub accept_loop-Written :
    (u : Bool) (max : ℕ) (env : ℕ → Reply) (fuel try interval waited : ℕ)
    → 0 < try
    → ((n : ℕ) (e : Err) → env n ≢ write_failed e)
    → Written (accept_loop u max env fuel try interval waited)
unfolding accept_loop
accept_loop-Written u max env zero try interval waited p h = tt
accept_loop-Written u max env (suc fuel) try interval waited p h =
    after_write-Written u max env try interval waited
      (accept_loop u max env fuel (try + 1) (next_interval interval) (waited + interval)) (env try)
      p (h try)
      (accept_loop-Written u max env fuel (try + 1) (next_interval interval) (waited + interval)
        (omega arith) h)
