-- ===== src/Conn/Replies.antt =====
-- What recvLoop of zk/conn.go does with a response of the server.
use go_zookeeper.Base.{
  ℕ, ◌+◌, ◌-◌, ◌<◌, ◌≡◌, refl, sym, pos, is_neg, is_pos, int_eq, IsInt32, IsInt64, Bytes, true,
  false, none, some, ◌++◌, arith, length, drop, length-append, drop-append, if◌then◌else◌,
}
use go_zookeeper.Wire.{ok, panic, slice_bounds, Slice, slice_range}
use go_zookeeper.Wire.Value.{Value, int32, int64, struct, nil, cons}
use go_zookeeper.Wire.Structs.{response_header_type}
use go_zookeeper.Wire.Spec.{HasKind, is_struct, is_int32, is_int64, more_fields, no_fields, wire}
use go_zookeeper.Wire.Memory.{slice_range_fails, slice_range_ok}
use go_zookeeper.Wire.Packets.{decode_packet-wire}
use go_zookeeper.Conn.{Conn, Request, lookup_request, delete_request}
use go_zookeeper.Constants.{to_error}
use go_zookeeper.Conn.Receive.{
  ResponseHeader, header_of, body_of, answer, dispatch, response_body, after_response, complete,
  handle_response, handle_packet, recv_packet,
}

-- A response header as the server sends it.
abbrev pub header_value : ResponseHeader → Value
header_value h = struct (cons (int32 h.xid) (cons (int64 h.zxid) (cons (int32 h.err_code) nil)))

pub record InRange (h : ResponseHeader) : Type 0 where
  pub xid_range : IsInt32 h.xid
  pub zxid_range : IsInt64 h.zxid
  pub err_range : IsInt32 h.err_code

header-HasKind : {h : ResponseHeader} → InRange h → HasKind response_header_type (header_value h)
header-HasKind {h} r = is_struct (
    more_fields (is_int32 h.xid r.xid_range) (
      more_fields (is_int64 h.zxid r.zxid_range)
        (more_fields (is_int32 h.err_code r.err_range) no_fields)))

pub length-header : (h : ResponseHeader) → length (wire (header_value h)) ≡ 16
unfolding wire
length-header h = refl

pub body_slice :
    (head body rest : Bytes)
    → length head ≡ 16
    → slice_range 16
        (16 + length body)
        (record { len = 16 + length body; mem = head ++ (body ++ rest) })
      ≡ ok (record { len = length body; mem = body ++ rest })
body_slice head body rest l =
    let s : Slice = record { len = 16 + length body; mem = head ++ (body ++ rest) } in
    let range =
      slice_range_ok 16 (16 + length body) s (omega arith)
        (omega (arith, length-append head (body ++ rest), length-append body rest)) in
    let size : 16 + length body - 16 ≡ length body = omega arith in
    let behind : drop 16 (head ++ (body ++ rest)) ≡ body ++ rest =
      drop-append head (body ++ rest) 16 (sym l) in
    rw (range, behind, size)

-- The packet is dispatched by the header that its first sixteen bytes stand for, whatever its length.
pub recv_packet_lem :
    (h : ResponseHeader) (rest : Bytes) (len : ℕ) (c : Conn)
    → InRange h
    → recv_packet (record { len = len; mem = wire (header_value h) ++ rest }) c
      ≡ handle_packet (record { len = len; mem = wire (header_value h) ++ rest }) h c
unfolding recv_packet dispatch header_of
recv_packet_lem h rest len c r =
    let l = length-header h in
    let p : Slice = record { len = len; mem = wire (header_value h) ++ rest } in
    let head =
      slice_range_ok 0 16 p (omega arith)
        (omega (arith, length-append (wire (header_value h)) rest)) in
    let value = decode_packet-wire rest 16 (header-HasKind r) (omega arith) in rw (head, value)

-- A response is dispatched to the last branch.
pub dispatch_response :
    (packet : Slice) (h : ResponseHeader) (c : Conn)
    → is_neg h.xid ≡ false
    → handle_packet packet h c ≡ handle_response packet h c
unfolding handle_packet
dispatch_response packet h c e = ground (arith, e)

-- The pending request of a response without an error gets the value that the server sent, with the zxid
-- of the response, once and after all earlier responses; it is pending no more, its recvFunc has
-- run without an error, and the last zxid is that of the response if this one is positive. The
-- loop goes on unless the request was a close.
pub recv_packet-response :
    (h : ResponseHeader) (v : Value) (rest : Bytes) (req : Request) (c : Conn)
    → InRange h
    → is_neg h.xid ≡ false
    → h.err_code ≡ pos 0
    → HasKind req.recv_struct v
    → lookup_request h.xid c.requests ≡ some req
    → recv_packet
        (record { len = 16 + length (wire v); mem = wire (header_value h) ++ (wire v ++ rest) })
        c
      ≡ ok (
        complete h req
            (none, some v)
            (record c {
              last_zxid = if is_pos h.zxid then h.zxid else c.last_zxid;
              requests = delete_request h.xid c.requests;
            }),
        after_response req,
      )
unfolding handle_response answer response_body body_of
recv_packet-response h v rest req c r x e k found =
    let z : int_eq h.err_code (pos 0) ≡ true = rw e refl in
    let p : Slice = record {
      len = 16 + length (wire v);
      mem = wire (header_value h) ++ (wire v ++ rest);
    } in
    let l = length-header h in
    let rest_of : slice_range 16 (16 + length (wire v)) p
        ≡ ok (record { len = length (wire v); mem = wire v ++ rest }) =
      body_slice (wire (header_value h)) (wire v) rest l in
    let value = decode_packet-wire rest (length (wire v)) k (omega arith) in
    rw
      (
        recv_packet_lem h (wire v ++ rest) (16 + length (wire v)) c r,
        dispatch_response p h c x,
        found,
      )
      (rw (z, rest_of) (rw (value)))

-- A packet that is shorter than its header of sixteen bytes, but that says that it answers a pending
-- request without an error, ends the program with a panic of the run time.
pub short_response_panics :
    (h : ResponseHeader) (rest : Bytes) (len : ℕ) (req : Request) (c : Conn)
    → InRange h
    → is_neg h.xid ≡ false
    → h.err_code ≡ pos 0
    → lookup_request h.xid c.requests ≡ some req
    → len < 16
    → recv_packet (record { len = len; mem = wire (header_value h) ++ rest }) c ≡ panic slice_bounds
unfolding handle_response answer response_body body_of
short_response_panics h rest len req c r x e found l =
    let z : int_eq h.err_code (pos 0) ≡ true = rw e refl in
    let p : Slice = record { len = len; mem = wire (header_value h) ++ rest } in
    let none_left = slice_range_fails 16 len p l in
    rw (recv_packet_lem h rest len c r, dispatch_response p h c x, found) (rw (z, none_left))

-- A response with an error code completes its pending request with the error of the code and no body,
-- whatever follows its header, and whatever its length.
pub recv_packet-failed :
    (h : ResponseHeader) (rest : Bytes) (len : ℕ) (req : Request) (c : Conn)
    → InRange h
    → is_neg h.xid ≡ false
    → int_eq h.err_code (pos 0) ≡ false
    → lookup_request h.xid c.requests ≡ some req
    → recv_packet (record { len = len; mem = wire (header_value h) ++ rest }) c
      ≡ ok (
        complete h req
            (to_error h.err_code, none)
            (record c {
              last_zxid = if is_pos h.zxid then h.zxid else c.last_zxid;
              requests = delete_request h.xid c.requests;
            }),
        after_response req,
      )
unfolding handle_response answer response_body body_of
recv_packet-failed h rest len req c r x e found =
    let p : Slice = record { len = len; mem = wire (header_value h) ++ rest } in
    rw (recv_packet_lem h rest len c r, dispatch_response p h c x, found) (rw (e))
