-- ===== src/Media/Silence.antt =====
-- `silenceFiller` of pkg/sip/silence_filler.go: a gap in the timestamps of consecutive packets is
-- filled with frames of silence. What only the log reads is left out. The sinks are parameters: what
-- they return. A frame of no samples, by which the code would panic, does not occur: the clock rates
-- of the codecs are not below the number of frames in a second.
use sip_server.Prelude.{
  ℕ, zero, suc, ◌+◌, ◌-◌, ◌*◌, ◌/◌, ◌%◌, ◌^◌, Bool, true, false, not, ◌&&◌, Option, none, some, ltb,
  leb, ◌==◌, if◌then◌else◌,
}
use sip_server.Errors.{Err}
pub mod Gap

pub record SilenceFiller : Type 0 where
  pub max_gap_size : ℕ
  pub rtp_samples_per_frame : ℕ
  pub packets : ℕ
  pub last_seq : ℕ
  pub last_ts : ℕ
  pub gap_count : ℕ
  pub gap_size_sum : ℕ

-- rtp.Header, the fields that are read: a uint16 and a uint32.
pub record Header : Type 0 where
  pub sequence_number : ℕ
  pub timestamp : ℕ

abbrev pub u16 : ℕ → ℕ
u16 n = n % 2 ^ 16

abbrev pub u32 : ℕ → ℕ
u32 n = n % 2 ^ 32

abbrev pub u64 : ℕ → ℕ
u64 n = n % 2 ^ 64

-- The number of frames in a second is a constant of the media library; `option` is `WithMaxGapSize`.
unfoldable pub new_silence_filler : ℕ → ℕ → Option ℕ → SilenceFiller
new_silence_filler frames_per_sec rtp_clock_rate option = record {
  max_gap_size = elim option [ none ↦ 25 | some n ↦ if ltb 0 n then n else 25 ];
  rtp_samples_per_frame = rtp_clock_rate / frames_per_sec;
  packets = 0;
  last_seq = 0;
  last_ts = 0;
  gap_count = 0;
  gap_size_sum = 0;
}

-- `isSilenceSuppression`: whether, how many frames, and what it leaves.
unfoldable pub is_silence_suppression : Header → SilenceFiller → (Bool × ℕ) × SilenceFiller
is_silence_suppression h f =
    let packets = u64 (f.packets + 1) in
    let last_seq = u16 f.last_seq in
    let last_ts = u32 f.last_ts in
    let f' : SilenceFiller = record f {
      packets = packets;
      last_seq = h.sequence_number;
      last_ts = h.timestamp;
    } in
    let expected_seq = u16 (last_seq + 1) in
    let expected_ts = u32 (last_ts + u32 f.rtp_samples_per_frame) in
    let seq_diff = u16 (h.sequence_number + 2 ^ 16 - expected_seq) in
    let ts_diff = u32 (h.timestamp + 2 ^ 32 - expected_ts) in
    let missed = ts_diff / f.rtp_samples_per_frame in
    if packets == 1
    then ((false, 0), f')
    else if not (seq_diff == 0)
    then ((false, 0), f')
    else if missed == 0
    then ((false, 0), f')
    else ((true, missed), f')

-- `fillWithSilence`: how many frames were written, and the error of the write that failed.
-- `pcm_sink` is what the write of the frame with that number returns.
unfoldable pub fill_with_silence : (ℕ → Option Err) → ℕ → ℕ → ℕ × Option Err
fill_with_silence pcm_sink n zero = (n, none)
fill_with_silence pcm_sink n (suc frames) =
    let rest = fill_with_silence pcm_sink (suc n) frames in
    elim (pcm_sink n) [ none ↦ rest | some e ↦ (n, some e) ]

-- What `HandleRTP` has done with a packet.
pub record Handled : Type 0 where
  pub silent_frames : ℕ
  pub forwarded : Bool
  pub error : Option Err

abbrev pub forward : ℕ → Option Err → Handled
forward n e = record { silent_frames = n; forwarded = true; error = e }

after_fill : Option Err → ℕ × Option Err → Handled
after_fill sink (n, none) = forward n sink
after_fill sink (n, some e) = record { silent_frames = n; forwarded = false; error = some e }

-- The body of `HandleRTP` after the test; `encoded_sink` is what the next handler returns.
unfoldable pub handle_gap :
    (ℕ → Option Err) → Option Err → (Bool × ℕ) × SilenceFiller → Handled × SilenceFiller
unfolding after_fill
handle_gap pcm_sink encoded_sink ((suppressed, missing), f) =
    let counted : SilenceFiller = record f {
      gap_count = u64 (f.gap_count + 1);
      gap_size_sum = u64 (f.gap_size_sum + missing);
    } in
    if suppressed && leb missing (f.max_gap_size * 100)
    then if leb missing f.max_gap_size
      then (after_fill encoded_sink (fill_with_silence pcm_sink 0 missing), counted)
      else (forward 0 encoded_sink, counted)
    else (forward 0 encoded_sink, f)

unfoldable pub handle_rtp :
    (ℕ → Option Err) → Option Err → Header → SilenceFiller → Handled × SilenceFiller
handle_rtp pcm_sink encoded_sink h f = handle_gap pcm_sink encoded_sink (is_silence_suppression h f)
