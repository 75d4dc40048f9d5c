-- ===== src/Media/Silence/Gap.antt =====
-- How much silence a packet inserts (pkg/sip/silence_filler.go).
use native.Mathlib.Nat.{div-eq_of_eq-mul_left}
use sip_server.Prelude.{
  ℕ, zero, suc, ◌+◌, ◌-◌, ◌*◌, ◌^◌, ◌/◌, ◌≤◌, ◌<◌, ◌≡◌, ◌≢◌, Bool, true, false, Option, none, some,
  arith, leb, not, ◌==◌, if◌then◌else◌,
}
use sip_server.Errors.{Err}
use sip_server.Media.Silence.{
  SilenceFiller, Header, u16, u32, is_silence_suppression, fill_with_silence, after_fill,
  handle_gap, handle_rtp,
}

fill-bounded :
    (sink : ℕ → Option Err) (n frames : ℕ) → (fill_with_silence sink n frames).0 ≤ n + frames
unfolding fill_with_silence
fill-bounded sink n zero = omega arith
fill-bounded sink n (suc frames) = ground (arith, fill-bounded sink (suc n) frames)

is_silence_suppression-max :
    (h : Header) (f : SilenceFiller) → (is_silence_suppression h f).1.max_gap_size ≡ f.max_gap_size
unfolding is_silence_suppression
is_silence_suppression-max h f = ground arith

after_fill_lem :
    (next : Option Err) (w : ℕ × Option Err)
    → ((after_fill next w).silent_frames ≡ w.0)
      × ((after_fill next w).forwarded ≡ false → (after_fill next w).error ≢ none)
      × ((after_fill next w).forwarded ≡ true → (after_fill next w).error ≡ next)
unfolding after_fill
after_fill_lem next (n, none) = ground arith
after_fill_lem next (n, some e) = ground arith

handle_gap-bounded :
    (sink : ℕ → Option Err) (next : Option Err) (b : Bool) (n : ℕ) (f : SilenceFiller)
    → let v = (handle_gap sink next ((b, n), f)).0 in
      (v.silent_frames ≤ f.max_gap_size)
      × (v.forwarded ≡ false → v.error ≢ none)
      × (v.forwarded ≡ true → v.error ≡ next)
unfolding handle_gap
handle_gap-bounded sink next b n f =
    ground (arith, after_fill_lem next (fill_with_silence sink 0 n), fill-bounded sink 0 n)

-- A packet never inserts more than the largest gap of silence, and it is passed on unless a write of
-- silence failed.
pub handle_rtp-bounded :
    (sink : ℕ → Option Err) (next : Option Err) (h : Header) (f : SilenceFiller)
    → let v = (handle_rtp sink next h f).0 in
      (v.silent_frames ≤ f.max_gap_size)
      × (v.forwarded ≡ false → v.error ≢ none)
      × (v.forwarded ≡ true → v.error ≡ next)
unfolding handle_rtp
handle_rtp-bounded sink next h f =
    let ((b, n), f') = is_silence_suppression h f in
    ground (arith, handle_gap-bounded sink next b n f', is_silence_suppression-max h f)

fill-working :
    (sink : ℕ → Option Err) (n frames : ℕ)
    → ((k : ℕ) → sink k ≡ none)
    → fill_with_silence sink n frames ≡ (n + frames, none)
unfolding fill_with_silence
fill-working sink n zero w = ground arith
fill-working sink n (suc frames) w = ground (arith, w n, fill-working sink (suc n) frames w)

-- The packet that follows the last one by sequence number and comes `missing` frames later than
-- the next frame, in clock arithmetic.
pub record Follows (missing : ℕ) (h : Header) (f : SilenceFiller) : Type 0 where
  pub frame : 0 < f.rtp_samples_per_frame
  pub seq : h.sequence_number ≡ u16 (f.last_seq + 1)
  pub time :
      h.timestamp ≡ u32 (f.last_ts + f.rtp_samples_per_frame + missing * f.rtp_samples_per_frame)
  pub one_turn : missing * f.rtp_samples_per_frame < 2 ^ 32

ts_diff_lem :
    (ts frame gap : ℕ)
    → gap < 2 ^ 32
    → u32 (u32 (ts + frame + gap) + 2 ^ 32 - u32 (u32 ts + u32 frame)) ≡ gap
ts_diff_lem ts frame gap b = omega arith

seq_diff_lem : (seq : ℕ) → u16 (u16 (seq + 1) + 2 ^ 16 - u16 (u16 seq + 1)) ≡ 0
seq_diff_lem seq = omega arith

missed_lem : (n frame d : ℕ) → 0 < frame → d ≡ n * frame → d / frame ≡ n
missed_lem n frame d p e = div-eq_of_eq-mul_left p e

is_silence_suppression-Follows :
    (n : ℕ) (h : Header) (f : SilenceFiller)
    → Follows n h f
    → f.packets ≢ 0
    → f.packets < 2 ^ 63
    → ((is_silence_suppression h f).0.0 ≡ not (n == 0)) × ((is_silence_suppression h f).0.1 ≡ n)
unfolding is_silence_suppression
is_silence_suppression-Follows n h f w p b =
    let frame = f.rtp_samples_per_frame in
    let ts_diff = u32 (h.timestamp + 2 ^ 32 - u32 (u32 f.last_ts + u32 frame)) in
    let d : ts_diff ≡ n * frame =
      ground (arith, w.time, ts_diff_lem f.last_ts frame (n * frame) w.one_turn) in
    let s : u16 (h.sequence_number + 2 ^ 16 - u16 (u16 f.last_seq + 1)) ≡ 0 =
      ground (arith, w.seq, seq_diff_lem f.last_seq) in
    ground (arith, s, missed_lem n frame ts_diff w.frame d)

-- A packet that follows the last one by sequence number and comes `n` frames late, both in clock
-- arithmetic: if the writes of silence succeed, exactly `n` frames of silence are inserted where `n`
-- is at most the largest gap, none otherwise, and the packet is passed on.
pub handle_rtp-Follows :
    (sink : ℕ → Option Err) (next : Option Err) (n : ℕ) (h : Header) (f : SilenceFiller)
    → Follows n h f
    → f.packets ≢ 0
    → f.packets < 2 ^ 63
    → ((k : ℕ) → sink k ≡ none)
    → let v = (handle_rtp sink next h f).0 in
      (v.silent_frames ≡ (if leb n f.max_gap_size then n else 0)) × (v.forwarded ≡ true)
unfolding handle_rtp handle_gap after_fill
handle_rtp-Follows sink next n h f w p b ok =
    let (t, m) = is_silence_suppression-Follows n h f w p b in
    ground (arith, t, m, is_silence_suppression-max h f, fill-working sink 0 n ok)
