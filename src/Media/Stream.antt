-- ===== src/Media/Stream.antt =====
-- `rtpStreamStats` of pkg/sip/media.go: how the sequence numbers and arrival times of the packets of
-- one stream are counted. The number of frames in a second is a constant of the media library.
use sip_server.Prelude.{
  ℕ, zero, suc, ◌+◌, ◌-◌, ◌*◌, ◌/◌, ◌%◌, ◌^◌, Bool, true, false, not, ◌&&◌, ltb, leb, ◌==◌,
  if◌then◌else◌,
}
pub mod Bounds

-- `Diff16`: the difference of two uint16 as an int16, by sign.
pub data Diff : Type 0 where
  ahead : ℕ → Diff
  behind : ℕ → Diff

unfoldable pub diff16 : ℕ → ℕ → Diff
diff16 cur prev =
    let d = (cur + 2 ^ 16 - prev) % 2 ^ 16 in
    if ltb d (2 ^ 15) then ahead d else behind (2 ^ 16 - d)

pub record RtpCountingStats : Type 0 where
  pub packets : ℕ
  pub bytes : ℕ
  pub resets : ℕ
  pub gaps : ℕ
  pub gaps_sum : ℕ
  pub late : ℕ
  pub late_sum : ℕ
  pub delayed_packets : ℕ
  pub delayed_sum : ℕ
  pub rapid_packets : ℕ

pub record RtpStreamStats : Type 0 where
  pub own_packets : ℕ
  pub last_seq : ℕ
  pub last_packet : ℕ
  pub stats : RtpCountingStats

-- A packet: its sequence number, the length of its payload, and when it arrives (milliseconds).
pub record Packet : Type 0 where
  pub sequence_number : ℕ
  pub payload : ℕ
  pub now : ℕ

abbrev pub u64 : ℕ → ℕ
u64 n = n % 2 ^ 64

-- The switch on the difference of the sequence numbers.
unfoldable pub count_diff : ℕ → Diff → RtpCountingStats → RtpCountingStats
count_diff fps (ahead d) s =
    if ltb (30 * fps) d
    then record s { resets = u64 (s.resets + 1) }
    else if ltb 1 d
    then record s { gaps = u64 (s.gaps + 1); gaps_sum = u64 (s.gaps_sum + d) }
    else s
count_diff fps (behind d) s =
    if ltb (5 * fps) d
    then record s { resets = u64 (s.resets + 1) }
    else record s { late = u64 (s.late + 1); late_sum = u64 (s.late_sum + d) }

-- The time since the last packet; a clock that runs backwards gives a negative time, which counts as
-- rapid.
unfoldable pub count_time : ℕ → ℕ → ℕ → RtpCountingStats → RtpCountingStats
count_time fps now last s =
    if ltb now (last + 1000 / fps * 1 / 2)
    then record s { rapid_packets = u64 (s.rapid_packets + 1) }
    else if ltb (last + 1000 / fps * 3 / 2) now
    then record s {
      delayed_packets = u64 (s.delayed_packets + 1);
      delayed_sum = u64 (s.delayed_sum + (now - last));
    }
    else s

-- `HandleRTP` up to the call of the next handler.
unfoldable pub handle_rtp : ℕ → Packet → RtpStreamStats → RtpStreamStats
handle_rtp fps p h =
    let count = u64 (h.own_packets + 1) in
    let s : RtpCountingStats = record h.stats {
      packets = u64 (h.stats.packets + 1);
      bytes = u64 (h.stats.bytes + p.payload);
    } in
    let counted =
      count_time fps p.now h.last_packet (count_diff fps (diff16 p.sequence_number h.last_seq) s) in
    record {
      own_packets = count;
      last_seq = p.sequence_number;
      last_packet = p.now;
      stats = if ltb 1 count then counted else s;
    }
