-- ===== src/Media/Conn/Reading.antt =====
-- What a connection does with what it reads (pkg/media/rtpconn/conn.go).
use sip_server.Prelude.{
  ℕ, ◌%◌, ◌^◌, ◌≡◌, refl, ap, ◌∙◌, Bool, true, false, none, some, List, [], ◌∷◌, arith, ltb, length,
  if◌then◌else◌, subst, sym,
}
use sip_server.Media.Conn.{
  Conn, Read, read_failed, datagram, give, count_packet, with_packet, read_loop,
}

same : {A : Type 0} (b : Bool) (c : A) → (if b then c else c) ≡ c
same true c = refl
same false c = refl

module _ {Addr Packet : Type 0} where
  -- The packets before the first error that are not too large and can be parsed, onto `got`.
  abbrev pub packets : ℕ → List (Read Addr Packet) → List Packet → List Packet
  packets mtu [] got = got
  packets mtu (read_failed ∷ rs) got = got
  packets mtu (datagram a n none ∷ rs) got = packets mtu rs got
  packets mtu (datagram a n (some p) ∷ rs) got = packets mtu rs (if ltb mtu n then got else p ∷ got)

  -- A connection with a handler that was given every packet.
  pub record IsFresh (c : Conn Addr Packet) : Type 0 where
    pub handles : c.has_handler ≡ true
    pub counted : c.packet_count ≡ length c.handled % 2 ^ 64
    pub signalled : c.received ≡ ltb 0 (length c.handled)

  count_packet-IsFresh :
      (p : Packet) (c : Conn Addr Packet) → IsFresh c → IsFresh (count_packet p c)
  unfolding count_packet give
  count_packet-IsFresh p c v = record {
    handles = ground (arith, v.handles);
    counted = ground (arith, v.handles, v.counted);
    signalled = ground (arith, v.handles, v.counted, v.signalled);
  }

  count_packet-handled :
      (p : Packet) (c : Conn Addr Packet) → IsFresh c → (count_packet p c).handled ≡ p ∷ c.handled
  unfolding count_packet give
  count_packet-handled p c v = ground (arith, v.handles)

  at-IsFresh : (a : Addr) (c : Conn Addr Packet) → IsFresh c → IsFresh (record c { dest = some a })
  at-IsFresh a c v = record { handles = v.handles; counted = v.counted; signalled = v.signalled }

  -- A packet that is too large is left out.
  abbrev one_of : Bool → Packet → Conn Addr Packet → Conn Addr Packet
  one_of b p c = if b then c else count_packet p c

  one_of-IsFresh :
      (b : Bool) (p : Packet) (c : Conn Addr Packet) → IsFresh c → IsFresh (one_of b p c)
  one_of-IsFresh true p c v = v
  one_of-IsFresh false p c v = count_packet-IsFresh p c v

  one_of-handled :
      (b : Bool) (p : Packet) (c : Conn Addr Packet)
      → IsFresh c
      → (one_of b p c).handled ≡ (if b then c.handled else p ∷ c.handled)
  one_of-handled true p c v = refl
  one_of-handled false p c v = count_packet-handled p c v

  -- The handler of a connection is given exactly the packets before the first error that are not too
  -- large and can be parsed, in their order; they are counted as a number of 64 bits; and `received` is
  -- closed exactly if there was one.
  pub read_loop_lem :
      (mtu : ℕ) (rs : List (Read Addr Packet)) (c : Conn Addr Packet)
      → IsFresh c
      → ((read_loop mtu rs c).handled ≡ packets mtu rs c.handled) × IsFresh (read_loop mtu rs c)
  unfolding read_loop with_packet
  read_loop_lem mtu [] c v = (refl, v)
  read_loop_lem mtu (read_failed ∷ rs) c v = (refl, v)
  read_loop_lem mtu (datagram a n none ∷ rs) c v =
      let d : Conn Addr Packet = record c { dest = some a } in
      let k = same (ltb mtu n) d in
      let ih =
        read_loop_lem mtu rs (if ltb mtu n then d else d)
          (subst IsFresh (sym k) (at-IsFresh a c v)) in
      (ih.0 ∙ ap (λ (x : Conn Addr Packet). packets mtu rs x.handled) k, ih.1)
  read_loop_lem mtu (datagram a n (some p) ∷ rs) c v =
      let d : Conn Addr Packet = record c { dest = some a } in
      let w : IsFresh d = at-IsFresh a c v in
      let ih = read_loop_lem mtu rs (one_of (ltb mtu n) p d) (one_of-IsFresh (ltb mtu n) p d w) in
      (ih.0 ∙ ap (packets mtu rs) (one_of-handled (ltb mtu n) p d w), ih.1)
