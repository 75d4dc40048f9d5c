-- ===== src/Analytics.antt =====
-- `CallState` of pkg/sip/analytics.go: what it tells its handler about a call and its transfers. The
-- methods hold the mutex throughout. The information about the call is any type, transfers are named
-- by numbers, and the time stamps are left out. The handler is taken to read what it is given at once.
use sip_server.Prelude.{
  ℕ, Bool, true, false, Option, none, some, List, [], ◌∷◌, ◌==◌, if◌then◌else◌, Text,
}
use sip_server.Errors.{Err, SipStatus, find_status}
pub mod Reports
pub mod Transfers
mod Tests

pub data TransferStatus : Type 0 where
  ongoing successful : TransferStatus
  transfer_failed : Err → Option SipStatus → TransferStatus

pub record TransferInfo : Type 0 where
  pub transfer_id : ℕ
  pub transfer_to : Text
  pub transfer_status : TransferStatus

-- The calls of the handler, with what it is given.
pub data Reported (Info : Type 0) : Type 0 where
  update_report : Info → Reported Info
  transfer_report : TransferInfo → Reported Info
  context_report : Info → Reported Info

-- `reports` are the calls of the handler, latest first; `transfers` is the map of the transfers that
-- were started and have not ended.
pub record CallState (Info : Type 0) : Type 0 where
  pub call_info : Info
  pub transfers : List TransferInfo
  pub dirty : Bool
  pub reports : List (Reported Info)

unfoldable pub find_transfer : ℕ → List TransferInfo → Option TransferInfo
find_transfer id [] = none
find_transfer id (t ∷ ts) =
    let rest = find_transfer id ts in if t.transfer_id == id then some t else rest

unfoldable pub delete_transfer : ℕ → List TransferInfo → List TransferInfo
delete_transfer id [] = []
delete_transfer id (t ∷ ts) =
    let rest = delete_transfer id ts in if t.transfer_id == id then rest else t ∷ rest

-- The status of a transfer that has ended.
abbrev pub end_status : Option Err → TransferStatus
end_status none = successful
end_status (some e) = transfer_failed e (find_status e)

module _ {Info : Type 0} where
  abbrev report : Reported Info → CallState Info → CallState Info
  report r s = record s { reports = r ∷ s.reports }

  unfoldable pub new_call_state : Info → CallState Info
  new_call_state i = record { call_info = i; transfers = []; dirty = true; reports = [] }

  unfoldable pub flush_locked : CallState Info → CallState Info
  flush_locked s = record (report (update_report s.call_info) s) { dirty = false }

  unfoldable pub defer_update : (Info → Info) → CallState Info → CallState Info
  defer_update f s = record s { dirty = true; call_info = f s.call_info }

  unfoldable pub update : (Info → Info) → CallState Info → CallState Info
  unfolding flush_locked
  update f s = flush_locked (record s { dirty = true; call_info = f s.call_info })

  unfoldable pub flush : CallState Info → CallState Info
  unfolding flush_locked
  flush s = if s.dirty then flush_locked s else s

  unfoldable pub force_flush : CallState Info → CallState Info
  unfolding flush_locked
  force_flush s = flush_locked s

  unfoldable pub record_call_context : (Info → Info) → CallState Info → CallState Info
  record_call_context f s =
      report (context_report (f s.call_info)) (record s { call_info = f s.call_info })

  -- The id is new: the code draws it at random.
  unfoldable pub start_transfer : ℕ → Text → CallState Info → CallState Info
  start_transfer id to s =
      let t : TransferInfo = record {
        transfer_id = id;
        transfer_to = to;
        transfer_status = ongoing;
      } in
      report (transfer_report t) (record s { transfers = t ∷ s.transfers })

  end_found : Option Err → CallState Info → Option TransferInfo → CallState Info
  end_found e s none = s
  end_found e s (some t) = report (transfer_report (record t { transfer_status = end_status e })) s

  unfoldable pub end_transfer : ℕ → Option Err → CallState Info → CallState Info
  unfolding end_found
  end_transfer id e s =
      let found = find_transfer id s.transfers in
      end_found e (record s { transfers = delete_transfer id s.transfers }) found
