-- ===== src/Conn/Frames.antt =====
-- What sendData of zk/conn.go puts on the network.
use go_zookeeper.Base.{
  ◌+◌, ◌-◌, ◌≤◌, ◌≡◌, refl, ap, ℤ, IsInt32, Bytes, false, none, [], ◌∷◌, ◌++◌, append_assoc, arith,
  length, take, drop, length-append, length-drop, length-take, take-append-drop, take-append,
  drop-drop,
}
use go_zookeeper.Wire.{ok, be_bytes}
use go_zookeeper.Wire.Value.{Kind, Value}
use go_zookeeper.Wire.Structs.{request_header_type}
use go_zookeeper.Wire.Encode.{encode_packet}
use go_zookeeper.Wire.Spec.{HasKind, is_struct, is_int32, more_fields, no_fields, wire}
use go_zookeeper.Wire.Memory.{length-be_bytes, slice_range_ok, overwrite_front}
use go_zookeeper.Wire.Encoding.{Writes, encode_after-Writes}
use go_zookeeper.Wire.Packets.{encode_packet-wire}
use go_zookeeper.Conn.{Conn, Request, insert_request}
use go_zookeeper.Conn.Send.{
  written, request_header, whole, put_length, encode_frame, send_frame, send_encoded, send_data,
  send_encoded, write_frame,
}

pub request_header-HasKind :
    (xid opcode : ℤ)
    → IsInt32 xid
    → IsInt32 opcode
    → HasKind request_header_type (request_header xid opcode)
request_header-HasKind xid opcode hx ho =
    is_struct (more_fields (is_int32 xid hx) (more_fields (is_int32 opcode ho) no_fields))

packet-Writes : {k : Kind} {v : Value} → HasKind k v → Writes (encode_packet v) (wire v)
packet-Writes h s l m = encode_packet-wire s h l m

-- The bytes of a request on the network: the length of the rest, the header, the packet.
abbrev pub frame : ℤ → ℤ → Value → Bytes
frame xid opcode pkt =
    be_bytes 4 (8 + length (wire pkt)) ++ (wire (request_header xid opcode) ++ wire pkt)

length-header : (xid opcode : ℤ) → length (wire (request_header xid opcode)) ≡ 8
unfolding wire
length-header xid opcode = refl

-- The memory after the two packets, with the four bytes of the length in front.
frame_memory :
    (front h w buf : Bytes)
    → length h ≡ 8
    → ((front ++ h) ++ w) ++ drop (length w) (drop (length h) (drop 4 buf))
      ≡ front ++ ((h ++ w) ++ drop (12 + length w) buf)
frame_memory front h w buf hl =
    let tail : drop (length w) (drop (length h) (drop 4 buf)) ≡ drop (12 + length w) buf =
      rw (drop-drop 4 (length h) buf, drop-drop (4 + length h) (length w) buf, hl) refl in
    let d = drop (12 + length w) buf in
    rw (tail, append_assoc (front ++ h) w d, append_assoc front h (w ++ d), append_assoc h w d)

length-frame :
    (xid opcode : ℤ) (pkt : Value) → length (frame xid opcode pkt) ≡ 12 + length (wire pkt)
length-frame xid opcode pkt =
    let h = wire (request_header xid opcode) in
    let hl = length-header xid opcode in
    omega (
      arith,
      length-be_bytes 4 (8 + length (wire pkt)),
      length-append h (wire pkt),
      length-append (be_bytes 4 (8 + length (wire pkt))) (h ++ wire pkt),
    )

pub encode_frame_lem :
    {k : Kind} (buf : Bytes) (xid opcode : ℤ) {pkt : Value}
    → IsInt32 xid
    → IsInt32 opcode
    → HasKind k pkt
    → 12 + length (wire pkt) ≤ length buf
    → encode_frame buf xid opcode pkt
      ≡ ok (record {
        n = 12 + length (wire pkt);
        mem = frame xid opcode pkt ++ drop (12 + length (wire pkt)) buf;
      })
unfolding encode_frame
encode_frame_lem buf xid opcode {pkt} hx ho hp room =
    let h = wire (request_header xid opcode) in
    let w = wire pkt in
    let hl = length-header xid opcode in
    let front : 4 ≡ length (take 4 buf) = omega (arith, length-take 4 buf) in
    let behind : 8 ≤ length (drop 4 buf) = omega (arith, length-drop 4 buf) in
    let first = rw (take-append-drop 4 buf) at (
      encode_after-Writes (encode_packet (request_header xid opcode)) h (take 4 buf) (drop 4 buf) 4
        (length buf) (packet-Writes (request_header-HasKind xid opcode hx ho)) front (omega arith)
        (omega arith)) in
    let pre = take 4 buf ++ h in
    let left = drop (length h) (drop 4 buf) in
    let mem₁ = pre ++ left in
    let lp : 4 + length h ≡ length pre = omega (arith, length-append (take 4 buf) h) in
    let ll : length w ≤ length left =
      omega (arith, length-drop (length h) (drop 4 buf), length-drop 4 buf) in
    let second =
      encode_after-Writes (encode_packet pkt) w pre left (4 + length h) (length mem₁)
        (packet-Writes hp) lp (omega (arith, length-append pre left)) ll in
    let mem₂ = (pre ++ w) ++ drop (length w) left in
    let shape : mem₂ ≡ take 4 buf ++ ((h ++ w) ++ drop (12 + length w) buf) =
      frame_memory (take 4 buf) h w buf hl in
    let third = slice_range_ok 0 4 (whole mem₂) (omega arith) (
      omega (
        arith,
        ap length shape,
        front,
        length-append (take 4 buf) ((h ++ w) ++ drop (12 + length w) buf),
      )) in
    let count : 4 + length h + length w ≡ 12 + length w = omega arith in
    let less : 12 + length w - 4 ≡ 8 + length w = omega arith in
    let put =
      overwrite_front (be_bytes 4 (8 + length w)) (take 4 buf)
        ((h ++ w) ++ drop (12 + length w) buf) front in
    rw (first, second, put_length, third, shape) (rw (count) (rw (less) (rw (put))))

-- A request whose packet has room in the buffer is written as one frame: the length of the rest, the
-- header with its xid and opcode, and the packet. The request is then pending under its xid, and
-- no response is sent to it, if the connection is not being closed and the network takes the
-- frame.
pub send_data-frame :
    {k : Kind} (req : Request) (c : Conn)
    → IsInt32 req.xid
    → IsInt32 req.opcode
    → HasKind k req.pkt
    → 12 + length (wire req.pkt) ≤ length c.buf
    → c.close_chan_closed ≡ false
    → send_data written req c
      ≡ ok (
        record c {
          buf = frame req.xid req.opcode req.pkt ++ drop (12 + length (wire req.pkt)) c.buf;
          requests = insert_request req.xid req c.requests;
          frames = c.frames ++ (frame req.xid req.opcode req.pkt ∷ []);
        },
        none,
      )
unfolding send_data send_encoded send_frame write_frame
send_data-frame req c hx ho hp room opened =
    let f = frame req.xid req.opcode req.pkt in
    let cut : take (12 + length (wire req.pkt)) (f ++ drop (12 + length (wire req.pkt)) c.buf) ≡ f =
      take-append f (drop (12 + length (wire req.pkt)) c.buf) (12 + length (wire req.pkt))
        (omega (arith, length-frame req.xid req.opcode req.pkt)) in
    rw (send_data, encode_frame_lem c.buf req.xid req.opcode hx ho hp room, opened) (rw (cut))
