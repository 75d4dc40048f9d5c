-- ===== src/Tone/Tests.antt =====
-- A call that is closed while it is transferred.
use sip_server.Prelude.{ℕ, refl, true, false, none, some, [], ◌∷◌, text}
use sip_server.Analytics.{start_transfer}
use sip_server.Tone.{outbound, Call, stop, close_output, transfer_call}
use sip_server.Tone.Writers.{IsSound, transfer_call_lem}
use sip_server.Tone.Panics.{HasPanicked, closed-HasPanicked}

abbrev call : Call ℕ
call = record {
  started = true;
  stopped = false;
  output = some 7;
  closed = [];
  hangs_up = false;
  state = record { call_info = 0; transfers = []; dirty = false; reports = [] };
}

transfer_call_lem_example :
    IsSound outbound []
      (record call { state = start_transfer 1 (text "x") call.state })
      none
      7
      (transfer_call outbound 1 (text "x") true none [] (stop ∷ close_output ∷ []) [] call)
transfer_call_lem_example =
    transfer_call_lem outbound 1 (text "x") true none [] (stop ∷ close_output ∷ []) [] call 7

closed-HasPanicked_example :
    HasPanicked
      (transfer_call outbound 1 (text "x") true none (stop ∷ close_output ∷ []) [] [] call)
closed-HasPanicked_example = closed-HasPanicked 1 (text "x") none [] [] call refl refl
