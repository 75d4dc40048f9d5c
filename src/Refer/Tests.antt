-- ===== src/Refer/Tests.antt =====
-- Runs of the transfer outcome.
use sip_server.Prelude.{
  ◌≡◌, refl, inr, ◌↔◌, true, false, none, some, [], ◌∷◌, ◌++◌, arith, Text, text, has_byte, itoa,
  pos, cut, digits, trim_space, to_lower, text_eq, split_on, parse_int, parse_uint, value, to_upper,
  strip_prefix, trim_suffix,
}
use sip_server.Errors.{Err, ErrorCode, SipStatus, rpc, internal, not_found, plain}
use sip_server.Refer.{
  fine, NotifyInfo, Notify, terminated, parse_notify_body, handle_notify, handle_refer_notify,
  parse_subscription_state, match_refer,
}
use sip_server.Reason.{is_normal, reason_string}
use sip_server.Refer.Body.{parse_notify_body-round}
use sip_server.Refer.Outcome.{Pending, Failure, handle_refer_notify_lem}

abbrev phrase : Text
phrase = text "Busy Here"

parse_notify_body-round_example :
    parse_notify_body (text "SIP/2.0" ++ (b' ' ∷ (itoa 486 ++ (b' ' ∷ phrase))))
    ≡ fine (486, phrase)
unfolding text has_byte
parse_notify_body-round_example =
    parse_notify_body-round 486 phrase (omega arith) (omega arith) refl

-- A NOTIFY as providers send it at the end of a transfer.
abbrev last_notify : Notify
last_notify = record {
  event = some (text "refer;id=93809823");
  short_event = none;
  subscription = some (text "terminated;reason=noresource");
  body = text "SIP/2.0 603 Declined\r\n";
}

abbrev declined : NotifyInfo
declined = record {
  cseq = 93809823;
  status = 603;
  reason = text "Declined";
  sub = record { state = text "terminated"; sub_reason = text "noresource"; expires = pos 0 };
}

handle_notify-declined : handle_notify last_notify ≡ fine declined
unfolding handle_notify text cut digits text_eq to_upper to_lower parse_int parse_uint trim_suffix
    match_refer strip_prefix value parse_subscription_state split_on trim_space parse_notify_body
handle_notify-declined = refl

abbrev no_codes : SipStatus → ErrorCode
no_codes st = internal

handle_refer_notify_example :
    let r = handle_refer_notify no_codes declined 93809823 in
    ((r ≡ some none) ↔ (declined.status ≡ 200))
    × ((r ≡ none) ↔ (Pending declined × (terminated declined.sub ≡ false)))
    × ((e : Err) → r ≡ some (some e) → Failure no_codes declined e)
handle_refer_notify_example = handle_refer_notify_lem no_codes declined 93809823 (inr refl)

abbrev missing : Err
missing = rpc not_found (plain (text "no such call"))

-- Normal call clearing is no error, another cause is reported.
cleared : is_normal (record { type = text "q.850"; cause = pos 16; reason_text = [] }) ≡ true
unfolding is_normal text text_eq
cleared = refl

busy :
    reason_string (record { type = text "q.850"; cause = pos 17; reason_text = text "User busy" })
    ≡ text "q.850-17: User busy"
unfolding reason_string text itoa
busy = refl
