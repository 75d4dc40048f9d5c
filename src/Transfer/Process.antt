-- ===== src/Transfer/Process.antt =====
-- The lookup of the call that is to be transferred, and its counters (pkg/sip/service.go). The
-- transfer by the call itself is another component: here it is its id and its error.
use sip_server.Prelude.{
  ℕ, suc, ◌+◌, ◌≡◌, Bool, true, false, ◌&&◌, Option, none, some, List, [], ◌∷◌, length, Text, text,
  if◌then◌else◌,
}
use sip_server.Errors.{Err, plain, rpc, not_found, unimplemented}
use sip_server.Stats.Transfers.{
  CallDir, inbound, outbound, TransferCounts, Monitor, transfer_started, transfer_succeeded,
  transfer_failed,
}
use sip_server.Transfer.{Outcome}
use sip_server.Transfer.Response.{extract_transfer_error_reason, failed_with}

-- What is read of `ProviderInfo`.
pub record ProviderInfo : Type 0 where
  pub is_internal : Bool
  pub prevent_transfer : Bool

unfoldable pub validate_call_provider : Option ProviderInfo → Option Err
validate_call_provider none = none
validate_call_provider (some p) =
    if p.is_internal && p.prevent_transfer
    then some (
        rpc unimplemented
          (plain (text "we don't yet support transfers for this phone number type")))
    else none

abbrev unknown_call : Err
unknown_call = rpc not_found (plain (text "unknown call"))

-- The two lookups go first to the outbound calls, then to the inbound ones.
unfoldable pub check_internal_provider_request :
    Option (Option ProviderInfo) → Option (Option ProviderInfo) → Option Err
check_internal_provider_request (some p) in_call = validate_call_provider p
check_internal_provider_request none (some p) = validate_call_provider p
check_internal_provider_request none none = some unknown_call

-- How many transfers find no call.
unfoldable pub unknown_calls : List (Option (Text × Option Err) × Option (Text × Option Err)) → ℕ
unknown_calls [] = 0
unknown_calls ((none, none) ∷ ts) = suc (unknown_calls ts)
unknown_calls (_ ∷ ts) = unknown_calls ts

-- The counters of a direction that each move together: the left sides grow by `lost` more.
pub record IsAdded (lost : ℕ) (c d : TransferCounts) : Type 0 where
  pub active : d.transfers_active ≡ c.transfers_active
  pub total :
      d.transfers_total + lost + c.transfers_succeeded + length c.transfers_failed
      ≡ c.transfers_total + d.transfers_succeeded + length d.transfers_failed

module _ (short_name : ℕ → Text) where
  -- A transfer that a call carries out, between its counters.
  counted : CallDir → Text × Option Err → Monitor → Monitor × Outcome
  counted dir (id, none) m =
      (transfer_succeeded dir (transfer_started dir m), record { transfer_id = id; err = none })
  counted dir (id, some e) m = (
    transfer_failed dir (extract_transfer_error_reason short_name (some e)) true
        (transfer_started dir m),
    record { transfer_id = id; err = some e },
  )

  -- Each argument is what `transferCall` of the call that was found comes to.
  unfoldable pub process_participant_transfer :
      Option (Text × Option Err) → Option (Text × Option Err) → Monitor → Monitor × Outcome
  unfolding counted
  process_participant_transfer (some t) in_call m = counted outbound t m
  process_participant_transfer none (some t) m = counted inbound t m
  process_participant_transfer none none m =
      (transfer_failed inbound (text "unknown_call") false m, failed_with unknown_call)

  -- Transfers one after another, each with what the two lookups find.
  pub processed : List (Option (Text × Option Err) × Option (Text × Option Err)) → Monitor → Monitor
  processed [] m = m
  processed ((o, i) ∷ ts) m = processed ts (process_participant_transfer o i m).0
