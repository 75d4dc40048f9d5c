-- ===== src/Tone/Panics.antt =====
-- When the transfer of an outbound call panics (pkg/sip/outbound.go).
use sip_server.Prelude.{
  ℕ, ◌≡◌, refl, ◌∙◌, Bool, true, false, not, ◌&&◌, Option, none, some, List, [], ◌∷◌, arith, Text,
}
use sip_server.Errors.{Err}
use sip_server.Analytics.{start_transfer}
use sip_server.Tone.{
  outbound, Call, Event, stop, close_output, Outcome, returned, panicked, happen, during, restores,
  release, reported, scheduled, with_tone, transfer_call,
}
use sip_server.Tone.Writers.{close_writer-none, during-stopped}

module _ {Info : Type 0} where
  closed-none : (c : Call Info) → (during (close_output ∷ []) c).output ≡ none
  unfolding during happen
  closed-none c = close_writer-none c.output (record c { output = none }) refl

  abbrev pub HasPanicked : Outcome Info → Type 0
  HasPanicked (returned e c) = ⊥
  HasPanicked (panicked c) = Unit

  release-HasPanicked :
      (b : Bool) (w : Option ℕ) (err : Option Err) (d : Call Info)
      → b ≡ false
      → w ≡ none
      → HasPanicked (release outbound b w err d)
  unfolding release
  release-HasPanicked true w err d e f = cc
  release-HasPanicked false none err d e f = tt
  release-HasPanicked false (some w) err d e f = absurd (ground (arith, f))

  reported-HasPanicked :
      (id : ℕ) (err : Option Err) (o : Outcome Info)
      → HasPanicked o
      → HasPanicked (reported id err o)
  unfolding reported
  reported-HasPanicked id err (panicked c) h = h
  reported-HasPanicked id err (returned e c) h = elim h [ ]

  restores-false : (err : Option Err) (c : Call Info) → c.stopped ≡ true → restores err c ≡ false
  unfolding restores
  restores-false none c e = refl
  restores-false (some x) c e = rw e

  scheduled-stopped : (err : Option Err) (c : Call Info) → (scheduled err c).stopped ≡ c.stopped
  unfolding scheduled
  scheduled-stopped none c = refl
  scheduled-stopped (some e) c = refl

  closed-with_tone :
      (err : Option Err) (meanwhile after : List Event) (c : Call Info)
      → HasPanicked (with_tone outbound err (stop ∷ close_output ∷ []) meanwhile after c)
  unfolding with_tone during happen
  closed-with_tone err meanwhile after c =
      let stopped : Call Info = record c { stopped = true } in
      let c1 = during (close_output ∷ []) stopped in
      let m2 = during meanwhile (record c1 { output = none }) in
      let s2 : (scheduled err m2).stopped ≡ true =
        scheduled-stopped err m2
        ∙ during-stopped meanwhile (record c1 { output = none })
            (during-stopped (close_output ∷ []) stopped refl) in
      release-HasPanicked (restores err (scheduled err m2)) c1.output err
        (during after (scheduled err m2)) (restores-false err (scheduled err m2) s2)
        (closed-none stopped)

  -- An outbound call that is closed between the test for a dial tone and the swap panics, however the
  -- REFER ends.
  pub closed-HasPanicked :
      (id : ℕ) (to : Text) (err : Option Err) (meanwhile after : List Event) (c : Call Info)
      → c.started ≡ true
      → c.stopped ≡ false
      → HasPanicked
          (transfer_call outbound id to true err (stop ∷ close_output ∷ []) meanwhile after c)
  unfolding transfer_call
  closed-HasPanicked id to err meanwhile after c st sp =
      let c0 : Call Info = record c { state = start_transfer id to c.state } in
      let before = stop ∷ close_output ∷ [] in
      let t : (c.started && not c.stopped) ≡ true = ground (arith, st, sp) in
      rw (transfer_call, t)
        (reported-HasPanicked id err (with_tone outbound err before meanwhile after c0)
          (closed-with_tone err meanwhile after c0))
