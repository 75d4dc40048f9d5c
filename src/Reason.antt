-- ===== src/Reason.antt =====
-- The Reason header of a request: `ReasonHeader` of pkg/sip/protocol.go.
use sip_server.Prelude.{
  ℕ, ◌+◌, Bool, true, false, ◌&&◌, ◌||◌, ◌++◌, ◌==◌, if◌then◌else◌, Text, text, text_eq, is_empty,
  ℤ, pos, negsuc, itoa,
}
pub mod Header

pub record ReasonHeader : Type 0 where
  pub type : Text
  pub cause : ℤ
  pub reason_text : Text

abbrev pub is_int : ℕ → ℤ → Bool
is_int n (pos m) = n == m
is_int n (negsuc m) = false

unfoldable pub is_zero : ReasonHeader → Bool
is_zero r = is_empty r.type && (is_int 0 r.cause && is_empty r.reason_text)

unfoldable pub is_normal : ReasonHeader → Bool
unfolding is_zero
is_normal r =
    if is_zero r
    then true
    else if text_eq r.type (text "q.850")
    then is_int 16 r.cause
    else if text_eq r.type (text "x.int")
    then is_int 0 r.cause
    else if text_eq r.type (text "release_cause")
    then is_int 1 r.cause
    else if text_eq r.type (text "sip")
    then is_int 0 r.cause || is_int 200 r.cause
    else false

abbrev pub int_text : ℤ → Text
int_text (pos n) = itoa n
int_text (negsuc n) = text "-" ++ itoa (n + 1)

unfoldable pub reason_string : ReasonHeader → Text
unfolding is_zero
reason_string r =
    if is_zero r
    then text "<none>"
    else r.type ++ (text "-" ++ (int_text r.cause ++ (text ": " ++ r.reason_text)))
