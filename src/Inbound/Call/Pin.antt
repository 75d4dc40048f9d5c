-- ===== src/Inbound/Call/Pin.antt =====
-- What PIN is checked: `pinPrompt` of pkg/sip/inbound.go.
use sip_server.Prelude.{
  ℕ, ◌+◌, ◌≤◌, ◌<◌, ◌≡◌, ◌≢◌, refl, inl, inr, List, [], ◌∷◌, ◌++◌, arith, Bool-cases, ltb→lt, All,
  length, length-append, Text, text, map, some, ltb, ap, ◌∙◌,
}
use mathlib.Core.List.{append-nil, append_assoc}
use sip_server.Inbound.Call.{Call, close, end_with}
use sip_server.Stats.{client_error}
use sip_server.Status.{call_dropped}
use sip_server.Inbound.Call.Waits.{
  returned, halt, Dispatched, check_pin, PinEvent, dtmf, pin_limit, pin_prompt, wrong_pin,
}

-- A digit of a PIN: recognized, and not the key that ends it.
abbrev pub IsDigit : ℕ → Type 0
IsDigit d = (d ≢ 0) × (d ≢ b'#')

pin_prompt-step :
    (dispatch : Text → Dispatched) (d : ℕ) (es : List PinEvent) (pin : Text) (c : Call)
    → IsDigit d
    → length pin < pin_limit
    → pin_prompt dispatch (dtmf d ∷ es) pin c ≡ pin_prompt dispatch es (pin ++ (d ∷ [])) c
unfolding pin_prompt
pin_prompt-step dispatch d es pin c i l = ground (arith, i, length-append pin (d ∷ []))

pin_prompt-pound :
    (dispatch : Text → Dispatched) (es : List PinEvent) (pin : Text) (c : Call)
    → pin_prompt dispatch (dtmf b'#' ∷ es) pin c ≡ check_pin (dispatch pin) c
unfolding pin_prompt
pin_prompt-pound dispatch es pin c = refl

-- After at most 16 digits and the pound key, whatever comes then, exactly these digits are checked.
pub pin_prompt-digits :
    (dispatch : Text → Dispatched) (ds : Text) (es : List PinEvent) (pin : Text) (c : Call)
    → All IsDigit ds
    → length pin + length ds ≤ pin_limit
    → pin_prompt dispatch (map dtmf ds ++ (dtmf b'#' ∷ es)) pin c
      ≡ check_pin (dispatch (pin ++ ds)) c
pin_prompt-digits dispatch [] es pin c a l =
    rw (append-nil pin) (pin_prompt-pound dispatch es pin c)
pin_prompt-digits dispatch (d ∷ ds) es pin c a l =
    pin_prompt-step dispatch d (map dtmf ds ++ (dtmf b'#' ∷ es)) pin c a.0 (omega arith)
    ∙ pin_prompt-digits dispatch ds es (pin ++ (d ∷ [])) c a.1
        (omega (arith, length-append pin (d ∷ [])))
    ∙ ap (λ p. check_pin (dispatch p) c) (append_assoc pin (d ∷ []) ds)

pin_prompt-full :
    (dispatch : Text → Dispatched) (d : ℕ) (es : List PinEvent) (pin : Text) (c : Call)
    → IsDigit d
    → pin_limit ≤ length pin
    → pin_prompt dispatch (dtmf d ∷ es) pin c
      ≡ halt
          (returned (some wrong_pin))
          (close (end_with call_dropped (client_error (text "wrong-pin"))) c)
unfolding pin_prompt
pin_prompt-full dispatch d es pin c i l = ground (arith, i, length-append pin (d ∷ []))

-- More than 16 digits end the call as a wrong PIN, whatever is dialled after them, without any PIN
-- being checked.
pub pin_prompt-long :
    (dispatch : Text → Dispatched) (ds : Text) (es : List PinEvent) (pin : Text) (c : Call)
    → All IsDigit ds
    → length pin ≤ pin_limit
    → pin_limit < length pin + length ds
    → pin_prompt dispatch (map dtmf ds ++ es) pin c
      ≡ halt
          (returned (some wrong_pin))
          (close (end_with call_dropped (client_error (text "wrong-pin"))) c)
pin_prompt-long dispatch [] es pin c a l m = ground arith
pin_prompt-long dispatch (d ∷ ds) es pin c a l m = elim (Bool-cases (ltb (length pin) pin_limit)) [
  | inl b ↦
      pin_prompt-step dispatch d (map dtmf ds ++ es) pin c a.0 (ltb→lt (length pin) pin_limit b)
      ∙ pin_prompt-long dispatch ds es (pin ++ (d ∷ [])) c a.1
          (ground (arith, b, length-append pin (d ∷ [])))
          (omega (arith, length-append pin (d ∷ [])))
  | inr b ↦ pin_prompt-full dispatch d (map dtmf ds ++ es) pin c a.0 (ground (arith, b))
]
