-- ===== src/Media/Tests.antt =====
-- Runs of the media handlers.
use sip_server.Prelude.{
  ℕ, ◌≡◌, refl, true, Option, none, List, [], ◌∷◌, length, arith, leb, if◌then◌else◌,
}
use sip_server.Errors.{Err}
use sip_server.Media.Silence.{SilenceFiller, Header, new_silence_filler, handle_rtp}
use sip_server.Media.Silence.Gap.{Follows, handle_rtp-Follows}
use sip_server.Media.Stream.{Packet}
use sip_server.Media.Stream.Bounds.{IsConsistent, new_stream, handle_all, handle_all-IsConsistent}

abbrev working : ℕ → Option Err
working n = none

-- A stream of 8000 samples a second whose clock is about to turn over.
abbrev filler : SilenceFiller
filler = record {
  max_gap_size = 25;
  rtp_samples_per_frame = 160;
  packets = 9;
  last_seq = 65535;
  last_ts = 4294967200;
  gap_count = 0;
  gap_size_sum = 0;
}

-- Three frames are missing.
abbrev late : Header
late = record { sequence_number = 0; timestamp = 544 }

late-Follows : Follows 3 late filler
late-Follows = ground arith

handle_rtp-Follows_example :
    let v = (handle_rtp working none late filler).0 in
    (v.silent_frames ≡ (if leb 3 filler.max_gap_size then 3 else 0)) × (v.forwarded ≡ true)
handle_rtp-Follows_example =
    handle_rtp-Follows working none 3 late filler late-Follows (omega arith) (omega arith)
      (λ k. refl)

new_silence_filler-frame : (new_silence_filler 50 8000 none).rtp_samples_per_frame ≡ 160
unfolding new_silence_filler
new_silence_filler-frame = refl

-- Latest first: the second packet comes after a gap of four, the third is late.
abbrev packets : List Packet
packets =
    record { sequence_number = 9; payload = 160; now = 45 }
    ∷ record { sequence_number = 11; payload = 160; now = 40 }
    ∷ record { sequence_number = 7; payload = 160; now = 20 }
    ∷ []

handle_all-IsConsistent_example : IsConsistent (length packets) (handle_all 50 packets new_stream)
handle_all-IsConsistent_example = handle_all-IsConsistent packets (omega arith)
