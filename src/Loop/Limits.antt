-- ===== src/Loop/Limits.antt =====
-- recvLoop of zk/conn.go on one packet of the server, from the length to what follows from it.
use go_zookeeper.Base.{
  ℕ, zero, suc, ◌+◌, ◌≤◌, ◌<◌, ◌^◌, ◌≡◌, refl, sym, ◌∙◌, ℤ, pos, negsuc, is_neg, is_pos, Bytes,
  true, false, Option, none, some, ◌++◌, append_assoc, arith, length, drop, ltb, lt→ltb, replicate,
  length-replicate, length-append, if◌then◌else◌, Bool-cases, inl, inr,
}
use go_zookeeper.Constants.{Error, packet_too_long}
use go_zookeeper.Wire.{Result, ok, ◌>>=◌, overwrite, be_bytes, be_value}
use go_zookeeper.Wire.Value.{Value}
use go_zookeeper.Wire.Spec.{HasKind, wire}
use go_zookeeper.Wire.Memory.{slice_range_ok, overwrite-eq, be_value32}
use go_zookeeper.Conn.{Conn, Request, lookup_request, delete_request}
use go_zookeeper.Conn.Send.{whole}
use go_zookeeper.Conn.Receive.{ResponseHeader, recv_packet, complete, after_response}
use go_zookeeper.Conn.Replies.{header_value, InRange, length-header, recv_packet-response}
use go_zookeeper.Loop.Reading.{
  ReadResult, over_limit, buffer_for, with_room, packet, read_packet, receive_packet,
}
use go_zookeeper.Loop.Bounds.{IsBounded, length-overwrite}

over_limit-lt : (max : ℤ) (m n : ℕ) → over_limit max m ≡ false → over_limit max n ≡ true → m < n
unfolding over_limit
over_limit-lt (pos zero) m n h k = cc
over_limit-lt (pos (suc b)) m n h k = ground arith
over_limit-lt (negsuc b) m n h k = cc

buffer_for-room :
    (max : ℤ) (buf : Bytes) (n : ℕ)
    → IsBounded max buf
    → over_limit max n ≡ false
    → (b : Bytes) × (buffer_for max buf n ≡ some b) × (n ≤ length b) × IsBounded max b
unfolding buffer_for
buffer_for-room max buf n h k = elim (Bool-cases (ltb (length buf) n)) [
  | inl l ↦
      rw (l, k)
        (
          replicate n 0,
          refl,
          omega (arith, length-replicate {A = ℕ} n 0),
          rw (length-replicate {A = ℕ} n 0) k,
        )
  | inr l ↦ rw l (buf, refl, ground arith, h)
]

received :
    (r : ReadResult) (max : ℤ) (buf : Bytes) (c : Conn)
    → 4 ≤ length buf
    → receive_packet r max buf c ≡ read_packet r max buf c
unfolding receive_packet
received r max buf c h = rw (slice_range_ok 0 4 (whole buf) (omega arith) h) refl

module _ (max : ℤ) (head buf : Bytes) (c : Conn)
    (read : Bytes → Result (Bytes × Conn × Option Error)) where
  with_room_lem :
      {b : Bytes}
      → buffer_for max (overwrite head buf) (be_value 0 head) ≡ some b
      → with_room max head buf c read ≡ read b
  unfolding with_room
  with_room_lem e = rw (e, with_room) refl

  without_room :
      buffer_for max (overwrite head buf) (be_value 0 head) ≡ none
      → with_room max head buf c read ≡ ok (overwrite head buf, c, some packet_too_long)
  unfolding with_room
  without_room e = rw (e, with_room) refl

-- A packet whose length is over the limit of WithMaxBufferSize ends recvLoop with an error, whatever the
-- bytes behind its length: no buffer is made for it and the connection is as before. The buffer of
-- recvLoop has four bytes or more, and is within the limit.
pub receive_packet-over_limit :
    (max : ℤ) (buf head body : Bytes) (c : Conn)
    → 4 ≤ length buf
    → IsBounded max buf
    → over_limit max (be_value 0 head) ≡ true
    → receive_packet (packet head body) max buf c ≡ ok (overwrite head buf, c, some packet_too_long)
unfolding read_packet buffer_for
receive_packet-over_limit max buf head body c room h o =
    let l : ltb (length (overwrite head buf)) (be_value 0 head) ≡ true =
      rw (length-overwrite head buf) (lt→ltb _ _ (over_limit-lt max _ _ h o)) in
    received (packet head body) max buf c room ∙ without_room max head buf c _ (rw (l, o) refl)

-- A packet within the limit of WithMaxBufferSize is handled with the buffer of recvLoop behind it, of
-- which the new size is within the limit too.
pub receive_packet_lem :
    (max : ℤ) (buf head body : Bytes) (c : Conn)
    → 4 ≤ length buf
    → IsBounded max buf
    → length body ≡ be_value 0 head
    → over_limit max (be_value 0 head) ≡ false
    → (rest : Bytes) × IsBounded max (body ++ rest)
      × (receive_packet (packet head body) max buf c ≡ (
          recv_packet (record { len = length body; mem = body ++ rest }) c >>= λ r.
          ok (body ++ rest, r.0, r.1)))
unfolding read_packet
receive_packet_lem max buf head body c room h size o =
    let front : IsBounded max (overwrite head buf) = rw (length-overwrite head buf) h in
    let (b, e, fits, l) = buffer_for-room max (overwrite head buf) (be_value 0 head) front o in
    let filled = overwrite-eq body b (rw size fits) in
    (
      drop (length body) b,
      rw (← filled) (rw (length-overwrite body b) l),
      received (packet head body) max buf c room
          ∙ (with_room_lem max head buf c _ e ∙ rw (filled, ← size) refl),
    )

-- A response of the server as it comes from the network, the four bytes of its length first: within the
-- limit, and without an error, it completes the pending request of its xid with the value that was
-- sent, whatever the buffer held; the buffer stays within the limit. The buffer had four bytes or
-- more, and was within the limit.
pub receive_packet-response :
    (h : ResponseHeader) (v : Value) (max : ℤ) (buf : Bytes) (req : Request) (c : Conn)
    → InRange h
    → is_neg h.xid ≡ false
    → h.err_code ≡ pos 0
    → HasKind req.recv_struct v
    → lookup_request h.xid c.requests ≡ some req
    → 16 + length (wire v) < 2 ^ 32
    → 4 ≤ length buf
    → IsBounded max buf
    → over_limit max (16 + length (wire v)) ≡ false
    → (buf' : Bytes) × IsBounded max buf'
      × (receive_packet
            (packet (be_bytes 4 (16 + length (wire v))) (wire (header_value h) ++ wire v))
            max
            buf
            c
          ≡ ok (
            buf',
            complete h req
                (none, some v)
                (record c {
                  last_zxid = if is_pos h.zxid then h.zxid else c.last_zxid;
                  requests = delete_request h.xid c.requests;
                }),
            after_response req,
          ))
receive_packet-response h v max buf req c r x e k found small room bound o =
    let n = 16 + length (wire v) in
    let body = wire (header_value h) ++ wire v in
    let size : length body ≡ n =
      omega (arith, length-append (wire (header_value h)) (wire v), length-header h) in
    let value = be_value32 n small in
    let (rest, l, run) =
      receive_packet_lem max buf (be_bytes 4 n) body c room bound (size ∙ sym value) (rw value o) in
    let done = recv_packet-response h v rest req c r x e k found in
    (
      body ++ rest,
      l,
      run ∙ rw (size, append_assoc (wire (header_value h)) (wire v) rest, done) refl,
    )
