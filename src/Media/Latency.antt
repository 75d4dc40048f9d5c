-- ===== src/Media/Latency.antt =====
-- `LatencyStats` of pkg/sip/media_latency.go: count, sum and maximum of measured latencies in
-- nanoseconds, as uint64. Records may interleave; each counter is updated atomically, and the retry
-- of the compare-and-swap makes the maximum the one of all values, so that a history is a list.
use native.Mathlib.Nat.{div-le_of_le-mul, suc-mul}
use sip_server.Prelude.{
  ℕ, ◌+◌, ◌*◌, ◌/◌, ◌%◌, ◌^◌, ◌≤◌, ◌<◌, ◌≡◌, List, [], ◌∷◌, length, arith, leb, ltb, if◌then◌else◌,
}

pub record LatencyStats : Type 0 where
  pub count : ℕ
  pub sum_ns : ℕ
  pub max_ns : ℕ

pub record LatencyStatsSnapshot : Type 0 where
  pub snap_count : ℕ
  pub avg_ns : ℕ
  pub snap_max : ℕ

abbrev pub u64 : ℕ → ℕ
u64 n = n % 2 ^ 64

unfoldable pub record_latency : ℕ → LatencyStats → LatencyStats
record_latency ns s = record {
  count = u64 (s.count + 1);
  sum_ns = u64 (s.sum_ns + ns);
  max_ns = if leb ns s.max_ns then s.max_ns else ns;
}

unfoldable pub load : LatencyStats → LatencyStatsSnapshot
load s = record {
  snap_count = s.count;
  avg_ns = if ltb 0 s.count then s.sum_ns / s.count else 0;
  snap_max = s.max_ns;
}

abbrev pub empty_stats : LatencyStats
empty_stats = record { count = 0; sum_ns = 0; max_ns = 0 }

-- The latencies of a list, the last of the list recorded first.
unfoldable pub record_all : List ℕ → LatencyStats
record_all [] = empty_stats
record_all (d ∷ ds) = record_latency d (record_all ds)

abbrev pub sum : List ℕ → ℕ
sum [] = 0
sum (d ∷ ds) = d + sum ds

abbrev pub maximum : List ℕ → ℕ
maximum [] = 0
maximum (d ∷ ds) = if leb d (maximum ds) then maximum ds else d

record_all-exact :
    (ds : List ℕ)
    → sum ds < 2 ^ 64
    → length ds < 2 ^ 64
    → (record_all ds).count ≡ length ds
      × ((record_all ds).sum_ns ≡ sum ds)
      × ((record_all ds).max_ns ≡ maximum ds)
unfolding record_all record_latency
record_all-exact [] s l = ground arith
record_all-exact (d ∷ ds) s l = ground (arith, record_all-exact ds)

-- Every value of the list is at most `m`.
abbrev Under : ℕ → List ℕ → Type 0
Under m [] = Unit {0}
Under m (d ∷ ds) = (d ≤ m) × Under m ds

Under-weaken : (m n : ℕ) (ds : List ℕ) → m ≤ n → Under m ds → Under n ds
Under-weaken m n [] l u = tt
Under-weaken m n (d ∷ ds) l (a, u) = (omega arith, Under-weaken m n ds l u)

maximum-Under : (ds : List ℕ) → Under (maximum ds) ds
maximum-Under [] = tt
maximum-Under (d ∷ ds) = (
  ground arith,
  Under-weaken (maximum ds) (maximum (d ∷ ds)) ds (ground arith) (maximum-Under ds),
)

sum-Under : (m : ℕ) (ds : List ℕ) → Under m ds → sum ds ≤ length ds * m
sum-Under m [] u = omega arith
sum-Under m (d ∷ ds) (a, u) = omega (arith, suc-mul (length ds) m, sum-Under m ds u)

-- Fewer than 2^64 latencies whose sum is below 2^64: the snapshot has their number and their
-- maximum, its average is the sum divided by the number, 0 if there are none, and the average is not
-- above the maximum.
pub load-record_all :
    (ds : List ℕ)
    → sum ds < 2 ^ 64
    → length ds < 2 ^ 64
    → let v = load (record_all ds) in
      (v.snap_count ≡ length ds)
      × (v.avg_ns ≡ (if ltb 0 (length ds) then sum ds / length ds else 0))
      × (v.snap_max ≡ maximum ds)
      × (v.avg_ns ≤ v.snap_max)
unfolding load
load-record_all ds s l =
    let (c, t, m) = record_all-exact ds s l in
    let a = div-le_of_le-mul (length ds) (sum-Under (maximum ds) ds (maximum-Under ds)) in
    ground (arith, c, t, m, a)
