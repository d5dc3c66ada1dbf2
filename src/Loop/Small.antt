-- ===== src/Loop/Small.antt =====
-- recvLoop of zk/conn.go with a small limit of WithMaxBufferSize.
use go_zookeeper.Base.{
  ℕ, suc, ◌≤◌, ◌<◌, ◌≡◌, refl, ◌∙◌, pos, Bytes, false, ◌++◌, arith, length, lt→ltb,
  length-replicate,
}
use native.Mathlib.Decide.{dec_lt}
use go_zookeeper.Wire.{panic, slice_bounds, Slice, slice_range, be_value}
use go_zookeeper.Conn.{Conn}
use go_zookeeper.Conn.Send.{whole}
use go_zookeeper.Conn.Receive.{recv_packet}
use go_zookeeper.Loop.Reading.{buffer_size, over_limit, recv_buffer, packet, receive_packet}
use go_zookeeper.Loop.Bounds.{IsBounded, recv_buffer-IsBounded}
use go_zookeeper.Loop.Limits.{receive_packet_lem}

range_panics : (hi : ℕ) (s : Slice) → length s.mem < hi → slice_range 0 hi s ≡ panic slice_bounds
unfolding slice_range
range_panics hi s h = ground (arith, h)

length-recv_buffer : (m : ℕ) → m < 15 → length (recv_buffer (pos (suc m))) ≡ suc m
unfolding recv_buffer over_limit buffer_size
length-recv_buffer m h =
    rw (lt→ltb (suc m) 1572864 (omega arith)) (length-replicate {A = ℕ} (suc m) 0)

bounded_length : (m : ℕ) (b : Bytes) → IsBounded (pos (suc m)) b → length b ≤ suc m
unfolding over_limit
bounded_length m b h = ground arith

within : (m n : ℕ) → n ≤ suc m → over_limit (pos (suc m)) n ≡ false
unfolding over_limit
within m n h = ground arith

recv_packet_panics :
    (p : Slice) (c : Conn) → length p.mem < 16 → recv_packet p c ≡ panic slice_bounds
unfolding recv_packet
recv_packet_panics p c h = rw (range_panics 16 p h) refl

-- With a limit of WithMaxBufferSize from 1 to 15, the first packet within the limit makes recvLoop panic:
-- its buffer has no room for the length, or none for a header.
pub receive_packet-small_limit :
    (m : ℕ) (head body : Bytes) (c : Conn)
    → m < 15
    → length body ≡ be_value 0 head
    → be_value 0 head ≤ suc m
    → receive_packet (packet head body) (pos (suc m)) (recv_buffer (pos (suc m))) c
      ≡ panic slice_bounds
unfolding receive_packet
receive_packet-small_limit m head body c small size fits =
    let buf = recv_buffer (pos (suc m)) in
    let n = length-recv_buffer m small in
    elim (dec_lt (length buf) 4) [
      | yes l ↦ rw (range_panics 4 (whole buf) l) refl
      | no l ↦
          let (rest, b, run) =
            receive_packet_lem (pos (suc m)) buf head body c (omega arith)
              (recv_buffer-IsBounded (pos (suc m))) size (within m (be_value 0 head) fits) in
          let short : length (body ++ rest) < 16 =
            omega (arith, bounded_length m (body ++ rest) b) in
          run
          ∙ rw (recv_packet_panics (record { len = length body; mem = body ++ rest }) c short) refl
    ]
