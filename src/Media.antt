-- ===== src/Media.antt =====
-- The measuring and repairing handlers of the media path: pkg/sip/silence_filler.go, and the stream
-- statistics and latencies of pkg/sip/media.go and pkg/sip/media_latency.go. Conn is the RTP connection of
-- pkg/media/rtpconn/conn.go.
pub mod Conn
pub mod Silence
pub mod Stream
pub mod Latency
mod Tests
