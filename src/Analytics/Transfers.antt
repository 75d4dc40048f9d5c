-- ===== src/Analytics/Transfers.antt =====
-- A transfer is reported when it starts and once when it ends (pkg/sip/analytics.go).
use sip_server.Prelude.{ℕ, ◌≡◌, refl, Option, none, List, [], ◌∷◌, arith, Text, ==_self}
use sip_server.Errors.{Err}
use sip_server.Analytics.{
  TransferInfo, ongoing, transfer_report, CallState, start_transfer, end_transfer, find_transfer,
  delete_transfer, end_status, end_found,
}

delete_transfer-none :
    (id : ℕ) (ts : List TransferInfo) → find_transfer id ts ≡ none → delete_transfer id ts ≡ ts
unfolding find_transfer delete_transfer
delete_transfer-none id [] h = refl
delete_transfer-none id (t ∷ ts) h = ground (arith, delete_transfer-none id ts)

-- A transfer with a new id that is started and ended is reported twice, as ongoing and then with its
-- outcome, and is forgotten; ending it again reports nothing.
pub end_transfer-start_transfer :
    {Info : Type 0} (id : ℕ) (to : Text) (e f : Option Err) (s : CallState Info)
    → find_transfer id s.transfers ≡ none
    → let t : TransferInfo = record {
      transfer_id = id;
      transfer_to = to;
      transfer_status = ongoing;
    } in
      let s' = end_transfer id e (start_transfer id to s) in
      (s'.reports
        ≡ transfer_report (record t { transfer_status = end_status e })
          ∷ transfer_report t
          ∷ s.reports)
      × (s'.transfers ≡ s.transfers)
      × (end_transfer id f s' ≡ s')
unfolding end_transfer start_transfer find_transfer delete_transfer end_found
end_transfer-start_transfer id to e f s n =
    ground (arith, ==_self id, delete_transfer-none id s.transfers n)
