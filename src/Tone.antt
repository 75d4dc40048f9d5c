-- ===== src/Tone.antt =====
-- The transfer that a call carries out around its leg: `transferCall` of pkg/sip/inbound.go and of
-- pkg/sip/outbound.go. While the peer is referred, the room is muted for it and a dial tone is played.
-- The call may be closed at any moment between: `Event` is what its `close` does to the output of the
-- room, in two steps. A writer is a number, the player of the tone is not modelled, and what the leg
-- returns for the REFER is given.
use sip_server.Prelude.{
  ℕ, Bool, true, false, not, ◌&&◌, Option, none, some, List, [], ◌∷◌, if◌then◌else◌, Text, is_some,
}
use sip_server.Errors.{Err}
use sip_server.Analytics.{CallState, start_transfer, end_transfer}
pub mod Panics
pub mod Writers
mod Tests

-- The two implementations.
pub data Side : Type 0 where
  inbound outbound : Side

-- `output` is the writer that the room has for the peer; `closed` are those that were closed, latest
-- first; `hangs_up` is that a second later the call is closed.
pub record Call (Info : Type 0) : Type 0 where
  pub started : Bool
  pub stopped : Bool
  pub output : Option ℕ
  pub closed : List ℕ
  pub hangs_up : Bool
  pub state : CallState Info

pub data Event : Type 0 where
  stop close_output : Event

-- What `transferCall` comes to: it returns the error of the leg, or panics.
pub data Outcome (Info : Type 0) : Type 0 where
  returned : Option Err → Call Info → Outcome Info
  panicked : Call Info → Outcome Info

module _ {Info : Type 0} where
  -- `Close` of a writer.
  pub close_writer : Option ℕ → Call Info → Call Info
  close_writer none c = c
  close_writer (some w) c = record c { closed = w ∷ c.closed }

  -- `CloseOutput` of the room swaps and closes.
  unfoldable pub happen : Event → Call Info → Call Info
  unfolding close_writer
  happen stop c = record c { stopped = true }
  happen close_output c = close_writer c.output (record c { output = none })

  unfoldable pub during : List Event → Call Info → Call Info
  unfolding happen
  during [] c = c
  during (e ∷ es) c = during es (happen e c)

  -- What the deferred function decides, before anything else happens.
  restores : Option Err → Call Info → Bool
  restores err c = is_some err && not c.stopped

  -- The writer that was taken away is given back or closed.
  release : Side → Bool → Option ℕ → Option Err → Call Info → Outcome Info
  unfolding close_writer
  release side true w err c = returned err (record c { output = w })
  release inbound false w err c = returned err (close_writer w c)
  release outbound false (some w) err c = returned err (close_writer (some w) c)
  release outbound false none err c = panicked c

  -- The report, which is deferred first and so runs last.
  reported : ℕ → Option Err → Outcome Info → Outcome Info
  reported id err (returned e c) = returned e (record c { state = end_transfer id err c.state })
  reported id err (panicked c) = panicked (record c { state = end_transfer id err c.state })

  -- On success the call is closed a second later.
  pub scheduled : Option Err → Call Info → Call Info
  scheduled none c = record c { hangs_up = true }
  scheduled (some e) c = c

  -- With the events before the swap, during the REFER, and before the writer is given back.
  with_tone : Side → Option Err → List Event → List Event → List Event → Call Info → Outcome Info
  unfolding during restores release scheduled
  with_tone side err before meanwhile after c =
      let c1 = during before c in
      let c2 = scheduled err (during meanwhile (record c1 { output = none })) in
      release side (restores err c2) c1.output err (during after c2)

  unfoldable pub transfer_call :
      Side
      → ℕ
      → Text
      → Bool
      → Option Err
      → List Event
      → List Event
      → List Event
      → Call Info
      → Outcome Info
  unfolding with_tone reported scheduled during
  transfer_call side id to dialtone err before meanwhile after c =
      let c0 = record c { state = start_transfer id to c.state } in
      reported id err (
        if dialtone && (c.started && not c.stopped)
        then with_tone side err before meanwhile after c0
        else returned err (scheduled err (during meanwhile c0)))
