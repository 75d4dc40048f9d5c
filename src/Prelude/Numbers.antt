-- ===== src/Prelude/Numbers.antt =====
-- Signed numbers over the native ℕ, and `strconv` in base 10.
use Prim.Native.Nat.{ℕ, zero, suc, ◌+◌, ◌-◌, ◌*◌, ◌^◌}
use mathlib.Core.Bool.{Bool, true, false, ◌&&◌}
use mathlib.Core.Option.{Option, none, some}
use mathlib.Core.List.{[], ◌∷◌}
use sip_server.Prelude.Tests.{leb, ltb, ◌==◌, if◌then◌else◌}
use sip_server.Prelude.Strings.{Text}

-- An `int`: `pos n` is n, `negsuc n` is -(n + 1).
pub data ℤ : Type 0 where
  pos : ℕ → ℤ
  negsuc : ℕ → ℤ

abbrev pub is_digit : ℕ → Bool
is_digit c = leb b'0' c && leb c b'9'

-- The value of a string of digits after a value `acc`; `none` if a byte is no digit.
unfoldable pub digits : ℕ → Text → Option ℕ
digits acc [] = some acc
digits acc (c ∷ s) =
    let rest = digits (acc * 10 + (c - b'0')) s in if is_digit c then rest else none

-- How `strconv` reports what it could not parse.
pub data Parsed (A : Type 0) : Type 0 where
  exact : A → Parsed A
  syntax_error : Parsed A
  -- the nearest value of the type
  range_error : A → Parsed A

-- The value that the callers use if they ignore the error.
unfoldable pub value : {A : Type 0} → A → Parsed A → A
value z (exact a) = a
value z syntax_error = z
value z (range_error a) = a

unsigned : ℕ → Option ℕ → Parsed ℕ
unsigned limit none = syntax_error
unsigned limit (some n) = if ltb n limit then exact n else range_error (limit - 1)

-- `strconv.ParseUint(s, 10, w)`
unfoldable pub parse_uint : ℕ → Text → Parsed ℕ
unfolding unsigned
parse_uint w [] = syntax_error
parse_uint w (c ∷ s) = unsigned (2 ^ w) (digits 0 (c ∷ s))

abbrev pub negate : ℕ → ℤ
negate zero = pos zero
negate (suc n) = negsuc n

signed : Bool → ℕ → Parsed ℕ → Parsed ℤ
signed neg limit syntax_error = syntax_error
signed neg limit (range_error n) =
    if neg then range_error (negsuc (limit - 1)) else range_error (pos (limit - 1))
signed true limit (exact n) =
    if leb n limit then exact (negate n) else range_error (negsuc (limit - 1))
signed false limit (exact n) = if ltb n limit then exact (pos n) else range_error (pos (limit - 1))

-- `strconv.ParseInt(s, 10, w)`; `strconv.Atoi` is the one of 64 bits.
unfoldable pub parse_int : ℕ → Text → Parsed ℤ
unfolding signed
parse_int w [] = syntax_error
parse_int w (c ∷ s) =
    let plain = signed false (2 ^ (w - 1)) (parse_uint w (c ∷ s)) in
    let plus = signed false (2 ^ (w - 1)) (parse_uint w s) in
    let minus = signed true (2 ^ (w - 1)) (parse_uint w s) in
    if c == b'+' then plus else if c == b'-' then minus else plain
