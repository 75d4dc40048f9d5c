-- ===== src/Refer/Body.antt =====
-- The body of a NOTIFY: `parseNotifyBody` of pkg/sip/protocol.go.
use sip_server.Prelude.{
  ℕ, zero, suc, ◌+◌, ◌/◌, ◌%◌, ◌≤◌, ◌<◌, ◌≡◌, refl, inl, inr, false, Option, some, [], ◌∷◌, ◌++◌,
  arith, Text, text, text_eq, to_upper, cut, cut-none, cut-append, has_byte, ℤ, pos, negsuc, Parsed,
  exact, syntax_error, range_error, parse_int, itoa, digits, parse_uint, itoa_go, Option-cases,
}
use sip_server.Refer.{fine, check_code, check_version, second_token, tokens, parse_notify_body}

check_code-bounds :
    (o : Option Text) (p : Parsed ℤ) (c : ℕ) (r : Text)
    → check_code o p ≡ fine (c, r)
    → (100 ≤ c) × (c ≤ 699)
unfolding check_code
check_code-bounds o (exact (pos n)) c r h = ground (arith, h)
check_code-bounds o (exact (negsuc n)) c r h = ground (arith, h)
check_code-bounds o syntax_error c r h = ground (arith, h)
check_code-bounds o (range_error n) c r h = ground (arith, h)

check_version-bounds :
    (v : Text) (t : Text × Option Text) (c : ℕ) (r : Text)
    → check_version v t ≡ fine (c, r)
    → (100 ≤ c) × (c ≤ 699)
unfolding check_version
check_version-bounds v (k, o) c r h = ground (arith, h, check_code-bounds o (parse_int 32 k) c r)

-- A body that is accepted has a status code of 100 to 699.
pub parse_notify_body-bounds :
    (body : Text) (c : ℕ) (r : Text) → parse_notify_body body ≡ fine (c, r) → (100 ≤ c) × (c ≤ 699)
unfolding parse_notify_body tokens
parse_notify_body-bounds body c r h = elim (Option-cases (cut b' ' body)) [
  | inl e ↦ ground (arith, h, e)
  | inr ((v, rest), e) ↦ check_version-bounds v (second_token rest) c r (ground (arith, h, e))
]

-- The three digits of a status code.
abbrev three : ℕ → Text
three c = (b'0' + c / 10 / 10) ∷ ((b'0' + c / 10 % 10) ∷ ((b'0' + c % 10) ∷ []))

itoa_go-three : (f c : ℕ) → 3 ≤ f → 100 ≤ c → c < 1000 → itoa_go f c [] ≡ three c
unfolding itoa_go
itoa_go-three zero c e l h = ground arith
itoa_go-three (suc zero) c e l h = ground arith
itoa_go-three (suc (suc zero)) c e l h = ground arith
itoa_go-three (suc (suc (suc f))) c e l h = ground arith

itoa-three : (c : ℕ) → 100 ≤ c → c < 1000 → itoa c ≡ three c
unfolding itoa
itoa-three c l h = itoa_go-three (c + 1) c (omega arith) l h

digits-three : (c : ℕ) → 100 ≤ c → c < 1000 → digits 0 (three c) ≡ some c
unfolding digits
digits-three c l h = ground arith

parse_int-three : (c : ℕ) → 100 ≤ c → c < 1000 → parse_int 32 (three c) ≡ exact (pos c)
unfolding parse_int parse_uint
parse_int-three c l h = ground (arith, digits-three c l h)

has_byte-three : (c : ℕ) → 100 ≤ c → c < 1000 → has_byte b' ' (three c) ≡ false
unfolding has_byte
has_byte-three c l h = ground arith

cut_version : (s : Text) → cut b' ' (text "SIP/2.0" ++ (b' ' ∷ s)) ≡ some (text "SIP/2.0", s)
unfolding text has_byte
cut_version s = cut-append b' ' (text "SIP/2.0") s refl

check_version-fine :
    (c : ℕ) (r : Text)
    → 100 ≤ c
    → c ≤ 699
    → has_byte b'\n' r ≡ false
    → check_version (text "SIP/2.0") (three c, some r) ≡ fine (c, r)
unfolding check_version check_code text text_eq to_upper
check_version-fine c r l h n = ground (arith, parse_int-three c l (omega arith), cut-none b'\n' r n)

second_token-three :
    (c : ℕ) (r : Text)
    → 100 ≤ c
    → c < 1000
    → second_token (three c ++ (b' ' ∷ r)) ≡ (three c, some r)
unfolding second_token
second_token-three c r l h = ground (arith, cut-append b' ' (three c) r (has_byte-three c l h))

tokens-fine :
    (c : ℕ) (r : Text)
    → 100 ≤ c
    → c ≤ 699
    → has_byte b'\n' r ≡ false
    → tokens (some (text "SIP/2.0", three c ++ (b' ' ∷ r))) ≡ fine (c, r)
unfolding tokens
tokens-fine c r l h n =
    ground (arith, second_token-three c r l (omega arith), check_version-fine c r l h n)

-- A status line with a code of 100 to 699 and a phrase without a line break is read back as that code
-- and that phrase.
pub parse_notify_body-round :
    (c : ℕ) (r : Text)
    → 100 ≤ c
    → c ≤ 699
    → has_byte b'\n' r ≡ false
    → parse_notify_body (text "SIP/2.0" ++ (b' ' ∷ (itoa c ++ (b' ' ∷ r)))) ≡ fine (c, r)
unfolding parse_notify_body
parse_notify_body-round c r l h n =
    let e = itoa-three c l (omega arith) in
    rw e (rw (cut_version (three c ++ (b' ' ∷ r))) (tokens-fine c r l h n))
