-- ===== src/Loop/Reading.antt =====
-- recvLoop of zk/conn.go as it reads packets: its buffer, the length of a packet and its limit.
use go_zookeeper.Base.{
  ℕ, zero, suc, ◌*◌, ℤ, pos, negsuc, Bytes, Bool, false, Option, none, some, if◌then◌else◌, length,
  ltb, replicate,
}
use go_zookeeper.Constants.{Error, packet_too_long}
use go_zookeeper.Wire.{Result, ok, ◌>>=◌, slice_range, overwrite, be_value}
use go_zookeeper.Conn.{Conn}
use go_zookeeper.Conn.Send.{whole}
use go_zookeeper.Conn.Receive.{recv_packet}

-- bufferSize
unfoldable pub buffer_size : ℕ
buffer_size = 1536 * 1024

-- max > 0 && n > max
unfoldable pub over_limit : ℤ → ℕ → Bool
over_limit (pos zero) n = false
over_limit (pos (suc m)) n = ltb (suc m) n
over_limit (negsuc m) n = false

abbrev pub magnitude : ℤ → ℕ
magnitude (pos n) = n
magnitude (negsuc n) = suc n

-- The buffer that recvLoop starts with.
unfoldable pub recv_buffer : ℤ → Bytes
unfolding over_limit
recv_buffer max = replicate (if over_limit max buffer_size then magnitude max else buffer_size) 0

-- What the calls of net.Conn return in one round: an error in place of the length, or in place of the body,
-- a packet, or an error of the deadline behind it. The error of the first deadline is
-- logged only.
pub data ReadResult : Type 0 where
  length_failed : Error → ReadResult
  body_failed : Bytes → Error → ReadResult
  deadline_failed : Bytes → Bytes → Error → ReadResult
  packet : Bytes → Bytes → ReadResult

-- The buffer with room for a packet of `blen` bytes, or none if it is over the limit.
unfoldable pub buffer_for : ℤ → Bytes → ℕ → Option Bytes
unfolding over_limit
buffer_for max buf blen =
    if ltb (length buf) blen
    then if over_limit max blen then none else some (replicate blen 0)
    else some buf

-- recvLoop once the length was read: `read` is what follows where there is room.
unfoldable pub with_room :
    ℤ
    → Bytes
    → Bytes
    → Conn
    → (Bytes → Result (Bytes × Conn × Option Error))
    → Result (Bytes × Conn × Option Error)
unfolding buffer_for
with_room max head buf c read = elim (buffer_for max (overwrite head buf) (be_value 0 head)) [
  | none ↦ ok (overwrite head buf, c, some packet_too_long)
  | some b ↦ read b
]

unfoldable pub read_packet : ReadResult → ℤ → Bytes → Conn → Result (Bytes × Conn × Option Error)
unfolding with_room recv_packet
read_packet (length_failed e) max buf c = ok (buf, c, some e)
read_packet (body_failed head e) max buf c = with_room max head buf c λ b. ok (b, c, some e)
read_packet (deadline_failed head body e) max buf c =
    with_room max head buf c λ b. ok (overwrite body b, c, some e)
read_packet (packet head body) max buf c = with_room max head buf c λ b.
    recv_packet (record { len = be_value 0 head; mem = overwrite body b }) c >>= λ r.
    ok (overwrite body b, r.0, r.1)

-- One round of recvLoop; buf[:4] is a panic where the buffer is shorter.
unfoldable pub receive_packet : ReadResult → ℤ → Bytes → Conn → Result (Bytes × Conn × Option Error)
unfolding read_packet
receive_packet r max buf c = slice_range 0 4 (whole buf) >>= λ head. read_packet r max buf c
