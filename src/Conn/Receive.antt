-- ===== src/Conn/Receive.antt =====
-- recvLoop in zk/conn.go: what it does with one packet of the server.
use go_zookeeper.Base.{
  ℕ, ℤ, pos, negsuc, int_eq, is_neg, is_pos, Bytes, Option, none, some, [], if◌then◌else◌,
}
use go_zookeeper.Constants.{Error, ErrCode, no_node, end_of_file, op_close, to_error}
use go_zookeeper.Wire.{Result, ok, err, panic, ◌>>=◌, Slice, slice_range}
use go_zookeeper.Wire.Value.{Value, int32, int64, string, struct, nil, cons}
use go_zookeeper.Wire.Structs.{response_header_type, watcher_event_type}
use go_zookeeper.Wire.Decode.{Read, decode_packet}
use go_zookeeper.Watch.{WatchType, watch_data, watch_exist, Event, Watches, add_watcher, deliver}
use go_zookeeper.Conn.{
  Conn, Request, RecvFunc, no_func, watch_if_ok, watch_exists, send_event, respond, lookup_request,
  delete_request,
}

pub record ResponseHeader : Type 0 where
  pub xid : ℤ
  pub zxid : ℤ
  pub err_code : ErrCode

-- The fields of the two structs that recvLoop reads itself. The decoder returns values of their types
-- only; any other shape is left without a meaning.
unfoldable pub header_of : Value → Option ResponseHeader
header_of (struct (cons (int32 x) (cons (int64 z) (cons (int32 e) nil)))) =
    some (record { xid = x; zxid = z; err_code = e })
header_of _ = none

unfoldable pub event_of : Value → Option Event
event_of (struct (cons (int32 t) (cons (int32 s) (cons (string p) nil)))) =
    some (record { event_type = t; state = s; path = p; err = none; server = [] })
event_of _ = none

-- req.recvFunc(req, &res, err): the watchers after it, and the channel that it made.
unfoldable pub add_to : Bytes → WatchType → Watches → Watches × Option ℕ
unfolding add_watcher
add_to path t w = let (w', ch) = add_watcher path t w in (w', some ch)

unfoldable pub exists_func : Bytes → Option Error → Watches → Watches × Option ℕ
unfolding add_to
exists_func path none w = add_to path watch_data w
exists_func path (some no_node) w = add_to path watch_exist w
exists_func path (some _) w = (w, none)

unfoldable pub run_recv_func : RecvFunc → Option Error → Watches → Watches × Option ℕ
unfolding add_to exists_func
run_recv_func no_func e w = (w, none)
run_recv_func (watch_if_ok path t) none w = add_to path t w
run_recv_func (watch_if_ok path t) (some e) w = (w, none)
run_recv_func (watch_exists path) e w = exists_func path e w

-- The body of a response, or the error of the decoder.
unfoldable pub body_of : Result (Read Value) → Result (Option Error × Option Value)
body_of (ok r) = ok (none, some r.value)
body_of (err e) = ok (some e, none)
body_of (panic p) = panic p

-- The error and the body of a response: those of the header's code, or else those of the decoder.
unfoldable pub response_body :
    Slice → ResponseHeader → Request → Result (Option Error × Option Value)
unfolding body_of
response_body packet h req =
    if int_eq h.err_code (pos 0)
    then (slice_range 16 packet.len packet >>= λ rest. body_of (decode_packet req.recv_struct rest))
    else ok (to_error h.err_code, none)

-- The error with which recvLoop returns after a response: io.EOF if the request was a close.
abbrev pub after_response : Request → Option Error
after_response req = if int_eq req.opcode op_close then some end_of_file else none

-- A response to the pending request `req`, which was taken out of the map.
unfoldable pub complete : ResponseHeader → Request → Option Error × Option Value → Conn → Conn
unfolding run_recv_func respond
complete h req (e, body) c =
    let (w, ch) = run_recv_func req.recv_func e c.watches in
    respond req.recv_chan (record { zxid = h.zxid; err = e; body = body; watcher = ch })
      (record c { watches = w })

-- A response to what the map of pending requests has for its xid. One to no request is logged.
unfoldable pub answer :
    Slice → ResponseHeader → Option Request → Conn → Result (Conn × Option Error)
unfolding response_body complete delete_request
answer packet h none c = ok (c, none)
answer packet h (some req) c = response_body packet h req >>= λ r.
    ok (
      complete h req r (record c { requests = delete_request h.xid c.requests }),
      after_response req,
    )

-- The last branch of recvLoop.
unfoldable pub handle_response : Slice → ResponseHeader → Conn → Result (Conn × Option Error)
unfolding answer lookup_request
handle_response packet h c =
    answer packet h (lookup_request h.xid c.requests)
      (record c { last_zxid = if is_pos h.zxid then h.zxid else c.last_zxid })

-- A decoded watcher event goes to the event channel and to the watchers.
unfoldable pub notify : Conn → Result (Read Value) → Result (Conn × Option Error)
unfolding send_event deliver event_of
notify c (err e) = ok (c, some e)
notify c (panic p) = panic p
notify c (ok r) = elim (event_of r.value) [
  | none ↦ ok (c, none)
  | some ev ↦ let c' = send_event ev c in ok (record c' { watches = deliver ev c'.watches }, none)
]

-- The branch for a watcher event.
unfoldable pub handle_event : Slice → Conn → Result (Conn × Option Error)
unfolding notify
handle_event packet c =
    slice_range 16 packet.len packet >>= λ rest. notify c (decode_packet watcher_event_type rest)

unfoldable pub handle_packet : Slice → ResponseHeader → Conn → Result (Conn × Option Error)
unfolding handle_event handle_response
handle_packet packet h c =
    if int_eq h.xid (negsuc 0)
    then handle_event packet c
    else if int_eq h.xid (negsuc 1)
    then ok (c, none)
    else if is_neg h.xid
    then ok (c, none)
    else handle_response packet h c

-- What follows the decoding of the header.
unfoldable pub dispatch : Slice → Conn → Result (Read Value) → Result (Conn × Option Error)
unfolding handle_packet header_of
dispatch packet c (err e) = ok (c, some e)
dispatch packet c (panic p) = panic p
dispatch packet c (ok r) = elim (header_of r.value) [
  | none ↦ ok (c, none)
  | some h ↦ handle_packet packet h c
]

-- recvLoop once buf[:blen] was read; `packet` is that slice, with the capacity of the buffer behind it.
-- The result is the connection and the error with which the loop returns, none where it goes on.
unfoldable pub recv_packet : Slice → Conn → Result (Conn × Option Error)
unfolding dispatch
recv_packet packet c =
    slice_range 0 16 packet >>= λ head. dispatch packet c (decode_packet response_header_type head)
