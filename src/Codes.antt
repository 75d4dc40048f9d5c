-- ===== src/Codes.antt =====
-- Response codes, their names, and the defaults of a response: pkg/sip/protocol.go.
use sip_server.Prelude.{
  ℕ, Bool, List, [], ◌∷◌, ◌++◌, map, ◌==◌, if◌then◌else◌, Text, text, is_empty, to_lower, itoa,
}
pub mod Names
mod Tests

unfoldable pub status_names : List (ℕ × Text)
status_names =
    (100, text "Trying")
    ∷ (180, text "Ringing")
    ∷ (181, text "Call Is Forwarded")
    ∷ (182, text "Queued")
    ∷ (183, text "Session In Progress")
    ∷ (200, text "OK")
    ∷ (202, text "Accepted")
    ∷ (301, text "Moved Permanently")
    ∷ (302, text "Moved Temporarily")
    ∷ (305, text "Use Proxy")
    ∷ (400, text "Bad Request")
    ∷ (401, text "Unauthorized")
    ∷ (402, text "Payment Required")
    ∷ (403, text "Forbidden")
    ∷ (404, text "Not Found")
    ∷ (405, text "Method Not Allowed")
    ∷ (406, text "Not Acceptable")
    ∷ (407, text "Proxy Auth Required")
    ∷ (408, text "Request Timeout")
    ∷ (409, text "Conflict")
    ∷ (410, text "Gone")
    ∷ (413, text "Request Entity Too Large")
    ∷ (414, text "Request URI Too Long")
    ∷ (415, text "Unsupported Media Type")
    ∷ (416, text "Requested Range Not Satisfiable")
    ∷ (420, text "Bad Extension")
    ∷ (421, text "Extension Required")
    ∷ (423, text "Interval Too Brief")
    ∷ (480, text "Temporarily Unavailable")
    ∷ (481, text "Call Transaction Does Not Exists")
    ∷ (482, text "Loop Detected")
    ∷ (483, text "Too Many Hops")
    ∷ (484, text "Address Incomplete")
    ∷ (485, text "Ambiguous")
    ∷ (486, text "Busy Here")
    ∷ (487, text "Request Terminated")
    ∷ (488, text "Not Acceptable Here")
    ∷ (500, text "Internal Server Error")
    ∷ (501, text "Not Implemented")
    ∷ (502, text "Bad Gateway")
    ∷ (503, text "Service Unavailable")
    ∷ (504, text "Gateway Timeout")
    ∷ (505, text "Version Not Supported")
    ∷ (513, text "Message Too Large")
    ∷ (600, text "Global Busy Everywhere")
    ∷ (603, text "Global Decline")
    ∷ (604, text "Global Does Not Exist Anywhere")
    ∷ (606, text "Global Not Acceptable")
    ∷ []

-- A Go map: "" for a missing key.
unfoldable pub lookup_name : ℕ → List (ℕ × Text) → Text
lookup_name k [] = text ""
lookup_name k ((j, v) ∷ m) = if j == k then v else lookup_name k m

unfoldable pub sip_status_text : ℕ → Text
unfolding status_names lookup_name
sip_status_text code =
    let name = lookup_name code status_names in
    if is_empty name then text "Status " ++ itoa code else name

-- strings.ReplaceAll(name, " ", "")
without_spaces : Text → Text
without_spaces [] = []
without_spaces (c ∷ s) = let rest = without_spaces s in if c == b' ' then rest else c ∷ rest

unfoldable pub status_name : ℕ → Text
unfolding status_names lookup_name without_spaces
status_name code =
    let name = lookup_name code status_names in
    if is_empty name
    then text "status-" ++ itoa code
    else itoa code ++ (text "-" ++ without_spaces name)

pub record Result : Type 0 where
  pub code : ℕ
  pub status : Text

-- The code and reason that `Result.NewResponse` puts on the response.
unfoldable pub new_response : Result → Result
unfolding sip_status_text
new_response r =
    let code : ℕ = if r.code == 0 then 503 else r.code in
    record { code = code; status = if is_empty r.status then sip_status_text code else r.status }
