-- ===== src/Reason/Header.antt =====
-- How a Reason header is read: `ParseReasonHeader` of pkg/sip/protocol.go. `strconv.Unquote` and
-- `strconv.ParseUint` with base 0 are parameters; the second gives its value and whether it succeeded.
use sip_server.Prelude.{
  ℕ, ◌-◌, ◌^◌, Bool, true, false, ◌&&◌, Option, none, some, List, [], ◌∷◌, ltb, if◌then◌else◌, Text,
  text, text_eq, is_empty, ℤ, pos, negsuc, cut, split_on, trim_space, to_lower, value, parse_int,
}
use sip_server.Reason.{ReasonHeader, is_int}

abbrev pub zero_reason : ReasonHeader
zero_reason = record { type = []; cause = pos 0; reason_text = [] }

-- `int(v)` of a uint64.
abbrev as_int : ℕ → ℤ
as_int v = if ltb v (2 ^ 63) then pos v else negsuc (2 ^ 64 - v - 1)

module _ (unquote : Text → Text) (parse_uint : Text → ℕ × Bool) where
  -- One field; the code of the reason is kept beside the header.
  read_field : ReasonHeader × Text → Option (Text × Text) → ReasonHeader × Text
  read_field (r, code) none = (r, code)
  read_field (r, code) (some (k, v)) =
      let key = trim_space k in
      let val = trim_space v in
      if text_eq key (text "cause")
      then (record r { cause = value (pos 0) (parse_int 64 val) }, code)
      else if text_eq key (text "text")
      then (record r { reason_text = unquote val }, code)
      else if text_eq key (text "description")
      then (if is_empty r.reason_text then record r { reason_text = unquote val } else r, code)
      else if text_eq key (text "reasoncode")
      then (r, val)
      else (r, code)

  read_fields : List Text → ReasonHeader × Text → ReasonHeader × Text
  unfolding read_field
  read_fields [] s = s
  read_fields (line ∷ lines) s = read_fields lines (read_field s (cut b'=' (trim_space line)))

  -- A text that is the cause of a reason is not kept as its text.
  from_text : ReasonHeader → ℕ × Bool → ReasonHeader
  from_text r (v, true) = record r { cause = as_int v; reason_text = [] }
  from_text r (v, false) = record r { cause = as_int v }

  -- The causes of `X.int` stand in other fields.
  int_cause : ReasonHeader × Text → ReasonHeader
  unfolding from_text
  int_cause (r, code) =
      if text_eq r.type (text "x.int") && is_int 0 r.cause
      then if is_empty code
        then if is_empty r.reason_text then r else from_text r (parse_uint r.reason_text)
        else record r { cause = as_int (parse_uint code).0 }
      else r

  from_parts : List Text → Option ReasonHeader
  unfolding read_fields int_cause
  from_parts [] = none
  from_parts (typ ∷ []) = none
  from_parts (typ ∷ line ∷ lines) =
      let r : ReasonHeader = record {
        type = to_lower (trim_space typ);
        cause = pos 0;
        reason_text = [];
      } in
      some (int_cause (read_fields (line ∷ lines) (r, [])))

  -- `none` is the error.
  unfoldable pub parse_reason_header : Text → Option ReasonHeader
  unfolding from_parts
  parse_reason_header header = from_parts (split_on b';' header)
