-- ===== src/Media/Conn/Tests.antt =====
-- A connection that reads three datagrams and an error.
use sip_server.Prelude.{ℕ, ◌≡◌, ◌↔◌, true, false, none, some, List, [], ◌∷◌, arith}
use sip_server.Media.Conn.{Conn, Read, read_failed, datagram, read_loop, tick, on_timeout}
use sip_server.Media.Conn.Reading.{IsFresh, packets, read_loop_lem}
use sip_server.Media.Conn.Silent.{Silent, on_timeout_lem}

abbrev conn : Conn ℕ ℕ
conn = record {
  dest = none;
  packet_count = 0;
  received = false;
  has_handler = true;
  closed = false;
  handled = [];
}

abbrev reads : List (Read ℕ ℕ)
reads =
    datagram 1 100 (some 5) ∷ datagram 1 2000 (some 6) ∷ datagram 2 100 (some 7) ∷ read_failed ∷ []

conn-IsFresh : IsFresh conn
conn-IsFresh = ground arith

read_loop_lem_example :
    ((read_loop 1500 reads conn).handled ≡ packets 1500 reads [])
    × IsFresh (read_loop 1500 reads conn)
read_loop_lem_example = read_loop_lem 1500 reads conn conn-IsFresh

on_timeout_lem_example :
    (on_timeout 30 0 (tick 0 (some 0) 15 ∷ tick 0 (some 0) 30 ∷ []) ≡ true)
    ↔ Silent 30 0 (tick 0 (some 0) 15 ∷ tick 0 (some 0) 30 ∷ [])
on_timeout_lem_example = on_timeout_lem 30 (tick 0 (some 0) 15 ∷ tick 0 (some 0) 30 ∷ [])
