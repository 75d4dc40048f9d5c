-- ===== src/Media/Conn.antt =====
-- The RTP connection of pkg/media/rtpconn/conn.go: what it reads, and when it finds that no media
-- arrives. Times are natural numbers, an address is any type, and a datagram is its size with what the RTP
-- library makes of it; `closed` is the fuse.
use sip_server.Prelude.{
  ℕ, ◌+◌, ◌-◌, ◌%◌, ◌^◌, Bool, true, false, not, ◌&&◌, Option, none, some, List, [], ◌∷◌, ltb, ◌==◌,
  if◌then◌else◌,
}
pub mod Reading
pub mod Silent
mod Tests

-- `ConnConfig`: its timeouts, which are 0 if they are not positive.
unfoldable pub timeout_or : ℕ → ℕ → ℕ
timeout_or default t = if t == 0 then default else t

pub record Conn (Addr Packet : Type 0) : Type 0 where
  pub dest : Option Addr
  pub packet_count : ℕ
  -- the channel `received` is closed
  pub received : Bool
  pub has_handler : Bool
  pub closed : Bool
  -- what the handler was given, latest first
  pub handled : List Packet

-- What a read gives: an error, or an address, a size, and the packet if it can be parsed.
pub data Read (Addr Packet : Type 0) : Type 0 where
  read_failed : Read Addr Packet
  datagram : Addr → ℕ → Option Packet → Read Addr Packet

module _ {Addr Packet : Type 0} where
  give : Packet → Conn Addr Packet → Conn Addr Packet
  give p c = if c.has_handler then record c { handled = p ∷ c.handled } else c

  -- One packet; only the first one closes the channel. (After 2^64 packets it would be closed again,
  -- which is left out.)
  unfoldable pub count_packet : Packet → Conn Addr Packet → Conn Addr Packet
  unfolding give
  count_packet p c =
      let n = (c.packet_count + 1) % 2 ^ 64 in
      give p (record c { packet_count = n; received = if n == 1 then true else c.received })

  with_packet : Option Packet → Conn Addr Packet → Conn Addr Packet
  with_packet none c = c
  with_packet (some p) c = count_packet p c

  -- `readLoop`, until a read fails.
  unfoldable pub read_loop : ℕ → List (Read Addr Packet) → Conn Addr Packet → Conn Addr Packet
  unfolding with_packet
  read_loop mtu [] c = c
  read_loop mtu (read_failed ∷ rs) c = c
  read_loop mtu (datagram a n p ∷ rs) c =
      let c' : Conn Addr Packet = record c { dest = some a } in
      read_loop mtu rs (if ltb mtu n then c' else with_packet p c')

  -- `Close`; the socket is closed once.
  unfoldable pub close : Conn Addr Packet → Conn Addr Packet × Bool
  close c = (record c { has_handler = false; closed = true }, not c.closed)

-- What `onTimeout` sees: the fuse, or at a tick the count of packets, the start of the timeout if it
-- is enabled, and the time.
pub data Tick : Type 0 where
  broken : Tick
  tick : ℕ → Option ℕ → ℕ → Tick

-- Whether a tick with no new packet is one too many.
too_silent : ℕ → ℕ → Option ℕ → ℕ → Bool
too_silent initial last none now = false
too_silent initial last (some start) now = not (last == 0 && ltb (now - start) initial)

-- Whether the callback is called.
unfoldable pub on_timeout : ℕ → ℕ → List Tick → Bool
unfolding too_silent
on_timeout initial last [] = false
on_timeout initial last (broken ∷ ts) = false
on_timeout initial last (tick n start now ∷ ts) =
    let rest = on_timeout initial n ts in
    if not (n == last) then rest else if too_silent initial last start now then true else rest
