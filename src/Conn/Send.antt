-- ===== src/Conn/Send.antt =====
-- sendData, sendRequest and the ping of sendLoop in zk/conn.go.
use go_zookeeper.Base.{
  ℕ, ◌-◌, ℤ, negsuc, Bytes, Option, none, some, [], ◌∷◌, ◌++◌, if◌then◌else◌, length, take,
}
use go_zookeeper.Constants.{Error, connection_closed, op_ping}
use go_zookeeper.Wire.{
  Result, ok, err, panic, unexpected_error, ◌>>=◌, Slice, slice_range, overwrite, be_bytes,
}
use go_zookeeper.Wire.Value.{Kind, Value, int32, struct, nil, cons}
use go_zookeeper.Wire.Encode.{Write, encode_after, encode_packet}
use go_zookeeper.Conn.{Conn, Request, RecvFunc, failure, respond, insert_request, new_request}

-- What the calls of net.Conn around a write return: each of them may fail.
pub data WriteResult : Type 0 where
  written : WriteResult
  deadline_failed write_failed reset_failed : Error → WriteResult

abbrev pub whole : Bytes → Slice
whole buf = record { len = length buf; mem = buf }

-- requestHeader{xid, opcode}
abbrev pub request_header : ℤ → ℤ → Value
request_header xid opcode = struct (cons (int32 xid) (cons (int32 opcode) nil))

-- PutUint32(c.buf[:4], uint32(n)), where the bytes of the packet end at `total` = n + 4.
unfoldable pub put_length : Write → Result Write
put_length w = do
  _ ← slice_range 0 4 (whole w.mem)
  ok (record { n = w.n; mem = overwrite (be_bytes 4 (w.n - 4)) w.mem })

-- The header and the packet, encoded behind the four bytes of the length; the frame is the first `n`
-- bytes of the memory.
unfoldable pub encode_frame : Bytes → ℤ → ℤ → Value → Result Write
unfolding put_length
encode_frame buf xid opcode pkt = do
  h ← encode_after 4 (encode_packet (request_header xid opcode)) (whole buf)
  p ← encode_after h.n (encode_packet pkt) (whole h.mem)
  put_length p

-- c.conn.Write(c.buf[:n+4]) and the deadlines around it. An error of a deadline is returned, and
-- an error of the write is sent to the request first.
unfoldable pub write_frame : WriteResult → ℕ → Bytes → Conn → Conn × Option Error
unfolding respond
write_frame (deadline_failed e) ch frame c = (c, some e)
write_frame (write_failed e) ch frame c = (respond ch (failure e) c, some e)
write_frame (reset_failed e) ch frame c = (record c { frames = c.frames ++ (frame ∷ []) }, some e)
write_frame written ch frame c = (record c { frames = c.frames ++ (frame ∷ []) }, none)

-- sendData once the packet stands in the buffer, under requestsLock and then on the network.
unfoldable pub send_frame : WriteResult → Request → Write → Conn → Conn × Option Error
unfolding respond insert_request write_frame
send_frame net req w c =
    if c.close_chan_closed
    then (respond req.recv_chan (failure connection_closed) c, some connection_closed)
    else write_frame net req.recv_chan (take w.n w.mem)
        (record c { requests = insert_request req.xid req c.requests })

-- What follows the encoding. An error of the encoder goes to the request, and sendData returns nil; a
-- panic ends the program.
unfoldable pub send_encoded :
    WriteResult → Request → Conn → Result Write → Result (Conn × Option Error)
unfolding send_frame respond
send_encoded net req c (ok w) = ok (send_frame net req w (record c { buf = w.mem }))
send_encoded net req c (err e) = ok (respond req.recv_chan (failure e) c, none)
send_encoded net req c (panic p) = panic p

unfoldable pub send_data : WriteResult → Request → Conn → Result (Conn × Option Error)
unfolding encode_frame send_encoded
send_data net req c = send_encoded net req c (encode_frame c.buf req.xid req.opcode req.pkt)

-- sendRequest: the channel is returned unless sendData returns an error.
unfoldable pub send_request :
    WriteResult → ℤ → Value → Kind → RecvFunc → Conn → Result (Conn × ℕ × Option Error)
unfolding new_request send_data
send_request net opcode pkt recv_struct recv_func c =
    let (c', rq) = new_request opcode pkt recv_struct recv_func c in
    send_data net rq c' >>= λ r. ok (r.0, rq.recv_chan, r.1)

-- The case of sendLoop for sendChan: the oldest request is taken and sent. On an empty channel the loop
-- waits.
unfoldable pub send_next : WriteResult → Conn → Option (Result (Conn × Option Error))
unfolding send_data
send_next net c = elim c.send_chan [
  | [] ↦ none
  | req ∷ rest ↦ some (send_data net req (record c { send_chan = rest }))
]

unfoldable pub write_ping : WriteResult → Bytes → Conn → Conn × Option Error
write_ping (deadline_failed e) frame c = (c, some e)
write_ping (write_failed e) frame c = (c, some e)
write_ping (reset_failed e) frame c = (record c { frames = c.frames ++ (frame ∷ []) }, some e)
write_ping written frame c = (record c { frames = c.frames ++ (frame ∷ []) }, none)

-- The case of sendLoop for the ticker. An error of the encoder is a panic there.
unfoldable pub send_ping : WriteResult → Conn → Result (Conn × Option Error)
unfolding put_length write_ping
send_ping net c =
    elim (encode_after 4 (encode_packet (request_header (negsuc 1) op_ping)) (whole c.buf)
      >>= put_length) [
        | ok w ↦ ok (write_ping net (take w.n w.mem) (record c { buf = w.mem }))
        | err e ↦ panic unexpected_error
        | panic p ↦ panic p
      ]
