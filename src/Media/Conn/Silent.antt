-- ===== src/Media/Conn/Silent.antt =====
-- When a connection is found silent (pkg/media/rtpconn/conn.go).
use sip_server.Prelude.{
  ℕ, ◌-◌, ◌≡◌, ◌≤◌, ◌⊎◌, ◌≢◌, ◌↔◌, true, ◌&&◌, Option, none, some, List, [], ◌∷◌, arith, ◌==◌, inl,
  inr, Bool-cases,
}
use sip_server.Media.Conn.{Tick, broken, tick, too_silent, on_timeout}

-- A tick that is not after the fuse, at which the timeout is enabled, no packet came since the tick
-- before, and if none ever came the initial timeout is over.
pub data Silent (initial : ℕ) : ℕ → List Tick → Type 0 where
  here :
      {last : ℕ} {ts : List Tick} (n start now : ℕ)
      → n ≡ last
      → (last ≢ 0) ⊎ (initial ≤ now - start)
      → Silent initial last (tick n (some start) now ∷ ts)
  later :
      {last : ℕ} {ts : List Tick} (n : ℕ) (start : Option ℕ) (now : ℕ)
      → Silent initial n ts
      → Silent initial last (tick n start now ∷ ts)

silent_enough :
    (initial last start now : ℕ)
    → (last ≢ 0) ⊎ (initial ≤ now - start)
    → too_silent initial last (some start) now ≡ true
unfolding too_silent
silent_enough initial last start now (inl h) = ground arith
silent_enough initial last start now (inr h) = ground arith

enough_silent :
    (initial last start now : ℕ)
    → too_silent initial last (some start) now ≡ true
    → (last ≢ 0) ⊎ (initial ≤ now - start)
unfolding too_silent
enough_silent initial last start now h = elim (Bool-cases (last == 0)) [
  | inl e ↦ inr (ground (arith, e))
  | inr e ↦ inl (λ z. absurd (ground (arith, e, z)))
]

Silent-on_timeout :
    {initial last : ℕ} {ts : List Tick} → Silent initial last ts → on_timeout initial last ts ≡ true
unfolding on_timeout
Silent-on_timeout {initial} {last} (Silent.here {ts = ts} n start now e h) =
    ground (arith, e, silent_enough initial last start now h)
Silent-on_timeout {initial} {last} (Silent.later {ts = ts} n start now h) =
    let ih = Silent-on_timeout h in ground (arith, ih)

none-rest :
    (initial last n now : ℕ) (ts : List Tick)
    → on_timeout initial last (tick n none now ∷ ts) ≡ true
    → on_timeout initial n ts ≡ true
unfolding on_timeout too_silent
none-rest initial last n now ts h = ground arith

on_timeout-Silent :
    (initial last : ℕ) (ts : List Tick) → on_timeout initial last ts ≡ true → Silent initial last ts
unfolding on_timeout
on_timeout-Silent initial last [] h = cc
on_timeout-Silent initial last (broken ∷ ts) h = cc
on_timeout-Silent initial last (tick n none now ∷ ts) h =
    Silent.later n none now (on_timeout-Silent initial n ts (none-rest initial last n now ts h))
on_timeout-Silent initial last (tick n (some s) now ∷ ts) h =
    elim (Bool-cases (n == last && too_silent initial last (some s) now)) [
      | inl e ↦
          Silent.here n s now (ground (arith, e))
            (enough_silent initial last s now (ground (arith, e)))
      | inr e ↦ Silent.later n (some s) now (on_timeout-Silent initial n ts (ground (arith, e, h)))
    ]

-- The callback is called if and only if at some tick, before the connection is closed, the timeout is
-- enabled, no packet came since the tick before, and, if none ever came, the initial timeout is over.
pub on_timeout_lem :
    (initial : ℕ) (ts : List Tick) → (on_timeout initial 0 ts ≡ true) ↔ Silent initial 0 ts
on_timeout_lem initial ts = (on_timeout-Silent initial 0 ts, Silent-on_timeout)
