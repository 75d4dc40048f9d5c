-- ===== src/Media/Stream/Bounds.antt =====
-- What the counters of a stream say about each other after any packets (pkg/sip/media.go).
use sip_server.Prelude.{ℕ, suc, ◌+◌, ◌-◌, ◌*◌, ◌^◌, ◌≤◌, ◌<◌, ◌≡◌, List, [], ◌∷◌, length, arith}
use sip_server.Media.Stream.{diff16, RtpStreamStats, Packet, count_diff, count_time, handle_rtp}

-- The stream after packets, the last of the list handled first.
unfoldable pub handle_all : ℕ → List Packet → RtpStreamStats → RtpStreamStats
handle_all fps [] h = h
handle_all fps (p ∷ ps) h = handle_rtp fps p (handle_all fps ps h)

-- Each packet after the first is counted at most once by its sequence number and at most once by its
-- time; late packets are at most five seconds of frames behind, gaps at most thirty.
pub record IsConsistent (n : ℕ) (h : RtpStreamStats) : Type 0 where
  pub own : h.own_packets ≡ n
  pub all : h.stats.packets ≡ n
  pub by_seq : h.stats.resets + h.stats.gaps + h.stats.late ≤ n - 1
  pub by_time : h.stats.rapid_packets + h.stats.delayed_packets ≤ n - 1
  pub gap_least : 2 * h.stats.gaps ≤ h.stats.gaps_sum
  pub gap_most : h.stats.gaps_sum ≤ 1500 * h.stats.gaps
  pub late_least : h.stats.late ≤ h.stats.late_sum
  pub late_most : h.stats.late_sum ≤ 250 * h.stats.late

step-IsConsistent :
    (n : ℕ) (p : Packet) (h : RtpStreamStats)
    → n < 2 ^ 48
    → IsConsistent n h
    → IsConsistent (suc n) (handle_rtp 50 p h)
unfolding handle_rtp count_diff count_time diff16
step-IsConsistent n p h b v = ground arith

abbrev pub new_stream : RtpStreamStats
new_stream = record {
  own_packets = 0;
  last_seq = 0;
  last_packet = 0;
  stats = record {
    packets = 0;
    bytes = 0;
    resets = 0;
    gaps = 0;
    gaps_sum = 0;
    late = 0;
    late_sum = 0;
    delayed_packets = 0;
    delayed_sum = 0;
    rapid_packets = 0;
  };
}

-- At 50 frames a second, after fewer than 2^48 packets on a stream with counters of its own: each
-- packet after the first is counted at most once as a reset, a gap or late, and at most once as rapid
-- or delayed; and the sums of gaps and of late packets keep within 2 to 1500 and 1 to 250 for each
-- that is counted.
pub handle_all-IsConsistent :
    (ps : List Packet) → length ps < 2 ^ 48 → IsConsistent (length ps) (handle_all 50 ps new_stream)
unfolding handle_all
handle_all-IsConsistent [] b = ground arith
handle_all-IsConsistent (p ∷ ps) b =
    step-IsConsistent (length ps) p (handle_all 50 ps new_stream) (omega arith)
      (handle_all-IsConsistent ps (omega arith))
