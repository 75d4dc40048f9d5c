-- ===== src/Tone/Writers.antt =====
-- What a transfer does to the writer that the peer hears (pkg/sip/inbound.go, pkg/sip/outbound.go).
use sip_server.Prelude.{
  ℕ, suc, ◌+◌, ◌≡◌, refl, ◌∙◌, inl, inr, Bool, true, false, not, ◌&&◌, Option, none, some, List, [],
  ◌∷◌, arith, ◌==◌, if◌then◌else◌, Text, Bool-cases,
}
use sip_server.Errors.{Err}
use sip_server.Analytics.{start_transfer}
use sip_server.Tone.{
  Side, inbound, outbound, Call, Event, stop, close_output, Outcome, returned, panicked,
  close_writer, happen, during, restores, release, reported, scheduled, with_tone, transfer_call,
}

abbrev count : ℕ → List ℕ → ℕ
count v [] = 0
count v (w ∷ ws) = if w == v then suc (count v ws) else count v ws

abbrev one : ℕ → Option ℕ → ℕ
one v none = 0
one v (some w) = if w == v then 1 else 0

module _ {Info : Type 0} where
  -- How often a writer is the output, or was closed.
  abbrev pub held : ℕ → Call Info → ℕ
  held v c = one v c.output + count v c.closed

  close_writer-held :
      (v : ℕ) (o : Option ℕ) (c : Call Info)
      → c.output ≡ none
      → held v (close_writer o c) ≡ one v o + count v c.closed
  unfolding close_writer
  close_writer-held v none c e = ground (arith, e)
  close_writer-held v (some w) c e = ground (arith, e)

  pub close_writer-none :
      (o : Option ℕ) (c : Call Info) → c.output ≡ none → (close_writer o c).output ≡ none
  unfolding close_writer
  close_writer-none none c e = e
  close_writer-none (some w) c e = e

  close_writer-stopped :
      (o : Option ℕ) (c : Call Info) → c.stopped ≡ true → (close_writer o c).stopped ≡ true
  unfolding close_writer
  close_writer-stopped none c e = e
  close_writer-stopped (some w) c e = e

  happen-held : (v : ℕ) (e : Event) (c : Call Info) → held v (happen e c) ≡ held v c
  unfolding happen close_writer
  happen-held v stop c = refl
  happen-held v close_output c = close_writer-held v c.output (record c { output = none }) refl

  during-held : (v : ℕ) (es : List Event) (c : Call Info) → held v (during es c) ≡ held v c
  unfolding during
  during-held v [] c = refl
  during-held v (e ∷ es) c = during-held v es (happen e c) ∙ happen-held v e c

  -- A room without an output gets none.
  during-none : (es : List Event) (c : Call Info) → c.output ≡ none → (during es c).output ≡ none
  unfolding during happen close_writer
  during-none [] c e = e
  during-none (stop ∷ es) c e = during-none es (record c { stopped = true }) e
  during-none (close_output ∷ es) c e =
      during-none es (close_writer c.output (record c { output = none }))
        (close_writer-none c.output (record c { output = none }) refl)

  pub during-stopped :
      (es : List Event) (c : Call Info) → c.stopped ≡ true → (during es c).stopped ≡ true
  unfolding during happen close_writer
  during-stopped [] c e = e
  during-stopped (stop ∷ es) c e = during-stopped es (record c { stopped = true }) refl
  during-stopped (close_output ∷ es) c e =
      during-stopped es (close_writer c.output (record c { output = none }))
        (close_writer-stopped c.output (record c { output = none }) e)

  -- The error of the leg is returned, and each writer is the output or was closed as often as before;
  -- or an outbound call panics, and the room had no output when it was muted.
  abbrev pub IsSound : Side → List Event → Call Info → Option Err → ℕ → Outcome Info → Type 0
  IsSound side before c err v (returned e d) = (e ≡ err) × (held v d ≡ held v c)
  IsSound side before c err v (panicked d) =
      (side ≡ outbound) × ((during before c).output ≡ none) × (c.started ≡ true)

  release-IsSound :
      (side : Side) (before : List Event) (c : Call Info) (err : Option Err) (v : ℕ) (b : Bool)
      (w : Option ℕ) (d : Call Info)
      → c.started ≡ true
      → (during before c).output ≡ w
      → d.output ≡ none
      → one v w + count v d.closed ≡ held v c
      → IsSound side before c err v (release side b w err d)
  unfolding release
  release-IsSound side before c err v true w d st q e h = (refl, h)
  release-IsSound inbound before c err v false w d st q e h = (refl, close_writer-held v w d e ∙ h)
  release-IsSound outbound before c err v false (some w) d st q e h =
      (refl, close_writer-held v (some w) d e ∙ h)
  release-IsSound outbound before c err v false none d st q e h = (refl, q, st)

  reported-IsSound :
      (side : Side) (before : List Event) (c : Call Info) (err : Option Err) (v id : ℕ)
      (o : Outcome Info)
      → IsSound side before c err v o
      → IsSound side before c err v (reported id err o)
  unfolding reported
  reported-IsSound side before c err v id (returned e d) h = h
  reported-IsSound side before c err v id (panicked d) h = h

  scheduled-held : (err : Option Err) (v : ℕ) (c : Call Info) → held v (scheduled err c) ≡ held v c
  unfolding scheduled
  scheduled-held none v c = refl
  scheduled-held (some e) v c = refl

  scheduled-output : (err : Option Err) (c : Call Info) → (scheduled err c).output ≡ c.output
  unfolding scheduled
  scheduled-output none c = refl
  scheduled-output (some e) c = refl

  none-held : (v : ℕ) (c : Call Info) → c.output ≡ none → held v c ≡ count v c.closed
  none-held v c e = ground (arith, e)

  with_tone-IsSound :
      (side : Side) (err : Option Err) (before meanwhile after : List Event) (c : Call Info) (v : ℕ)
      → c.started ≡ true
      → IsSound side before c err v (with_tone side err before meanwhile after c)
  unfolding with_tone
  with_tone-IsSound side err before meanwhile after c v st =
      let c1 = during before c in
      let muted : Call Info = record c1 { output = none } in
      let m2 = during meanwhile muted in
      let c2 = scheduled err m2 in
      let d = during after c2 in
      let e : d.output ≡ none =
        during-none after c2 (scheduled-output err m2 ∙ during-none meanwhile muted refl) in
      let k : held v d ≡ held v muted =
        during-held v after c2 ∙ scheduled-held err v m2 ∙ during-held v meanwhile muted in
      release-IsSound side before c err v (restores err c2) c1.output d st refl e
        (omega (arith, k, none-held v d e, during-held v before c))

  -- A transfer of a call, whatever closes the call in between: it returns the error of the leg, and each
  -- writer is the output of the room, or was closed, exactly as often as before, so that none is lost
  -- or closed twice; or an outbound call that is started panics, and then the room had no output at the
  -- moment when it was muted.
  pub transfer_call_lem :
      (side : Side) (id : ℕ) (to : Text) (dialtone : Bool) (err : Option Err)
      (before meanwhile after : List Event) (c : Call Info) (v : ℕ)
      → IsSound side before
          (record c { state = start_transfer id to c.state })
          err
          v
          (transfer_call side id to dialtone err before meanwhile after c)
  unfolding transfer_call
  transfer_call_lem side id to dialtone err before meanwhile after c v =
      let c0 : Call Info = record c { state = start_transfer id to c.state } in
      elim (Bool-cases (dialtone && (c.started && not c.stopped))) [
        | inl e ↦
            rw (transfer_call, e)
              (reported-IsSound side before c0 err v id
                (with_tone side err before meanwhile after c0)
                (with_tone-IsSound side err before meanwhile after c0 v (ground (arith, e))))
        | inr e ↦
            rw (transfer_call, e)
              (refl, scheduled-held err v (during meanwhile c0) ∙ during-held v meanwhile c0)
      ]
