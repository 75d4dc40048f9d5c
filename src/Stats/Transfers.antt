-- ===== src/Stats/Transfers.antt =====
-- The transfer counters of pkg/stats/monitor.go, for each direction of a call.
use sip_server.Prelude.{ℕ, ◌+◌, ◌-◌, Bool, List, ◌∷◌, if◌then◌else◌, Text}

-- CallDir
pub data CallDir : Type 0 where
  inbound outbound : CallDir

-- `transfers_failed` holds the reasons of the failures that were counted, latest first.
pub record TransferCounts : Type 0 where
  pub transfers_total : ℕ
  pub transfers_active : ℕ
  pub transfers_succeeded : ℕ
  pub transfers_failed : List Text

pub record Monitor : Type 0 where
  pub in_counts : TransferCounts
  pub out_counts : TransferCounts

abbrev pub counts : CallDir → Monitor → TransferCounts
counts inbound m = m.in_counts
counts outbound m = m.out_counts

abbrev with_label : CallDir → (TransferCounts → TransferCounts) → Monitor → Monitor
with_label inbound f m = record m { in_counts = f m.in_counts }
with_label outbound f m = record m { out_counts = f m.out_counts }

unfoldable pub transfer_started : CallDir → Monitor → Monitor
transfer_started dir m =
    with_label dir
      (λ c. record c {
        transfers_total = c.transfers_total + 1;
        transfers_active = c.transfers_active + 1;
      })
      m

-- `Dec` is called only after an `Inc` of the same transfer.
unfoldable pub transfer_succeeded : CallDir → Monitor → Monitor
transfer_succeeded dir m =
    with_label dir
      (λ c. record c {
        transfers_succeeded = c.transfers_succeeded + 1;
        transfers_active = c.transfers_active - 1;
      })
      m

unfoldable pub transfer_failed : CallDir → Text → Bool → Monitor → Monitor
transfer_failed dir reason change_active m =
    with_label dir
      (λ c. record c {
        transfers_failed = reason ∷ c.transfers_failed;
        transfers_active = if change_active then c.transfers_active - 1 else c.transfers_active;
      })
      m
