-- ===== src/Conn/Session.antt =====
-- What authenticate of zk/conn.go does with the response of a server.
use go_zookeeper.Base.{
  ap, ◌∙◌, ◌*◌, ◌/◌, pos, int_eq, some, none, List, refl, length-replicate, ℕ, ◌+◌, ◌-◌, ◌≤◌, ◌<◌,
  ◌^◌, ◌≡◌, Bytes, [], ◌∷◌, ◌++◌, append_assoc, arith, length, take, drop, length-append,
  length-drop, length-take, take-append-drop, take-append, replicate, ltb, if◌then◌else◌,
  Bool-cases, inl, inr,
}
use go_zookeeper.Wire.{ok, be_bytes, overwrite, ◌>>=◌}
use go_zookeeper.Wire.Value.{Kind, Value, int32, int64, bytes, struct, nil, cons}
use go_zookeeper.Wire.Structs.{connect_request_type, connect_response_type}
use go_zookeeper.Wire.Encode.{encode_after, encode_packet}
use go_zookeeper.Wire.Spec.{HasKind, wire}
use go_zookeeper.Wire.Memory.{
  length-be_bytes, slice_range_ok, overwrite_front, overwrite-eq, be_value32,
}
use go_zookeeper.Wire.Encoding.{encode_after-Writes}
use go_zookeeper.Wire.Packets.{encode_packet-wire, decode_packet-wire}
use go_zookeeper.Constants.{
  State, event_session, state_expired, state_has_session, session_expired, empty_password,
}
use go_zookeeper.Watch.{Event}
use go_zookeeper.Conn.{Conn, set_state, send_event}
use go_zookeeper.Conn.Send.{whole, put_length}
use go_zookeeper.Conn.Connect.{
  answered, set_timeouts, ConnectResponse, connect_request, connect_response_of, establish,
  read_response, response_buffer, exchange, after_encoding, authenticate,
}

-- A packet that is encoded behind the four bytes of its length.
encode_alone :
    {k : Kind} {v : Value} (buf : Bytes)
    → HasKind k v
    → 4 + length (wire v) ≤ length buf
    → (encode_after 4 (encode_packet v) (whole buf) >>= put_length)
      ≡ ok (record {
        n = 4 + length (wire v);
        mem = be_bytes 4 (length (wire v)) ++ (wire v ++ drop (length (wire v)) (drop 4 buf));
      })
unfolding put_length
encode_alone {v = v} buf h room =
    let w = wire v in
    let front : 4 ≡ length (take 4 buf) = omega (arith, length-take 4 buf) in
    let behind : length w ≤ length (drop 4 buf) = omega (arith, length-drop 4 buf) in
    let left = drop (length w) (drop 4 buf) in
    let first = rw (take-append-drop 4 buf) at (
      encode_after-Writes (encode_packet v) w (take 4 buf) (drop 4 buf) 4 (length buf)
        (λ s l m. encode_packet-wire s h l m) front (omega arith) behind) in
    let mem = (take 4 buf ++ w) ++ left in
    let range =
      slice_range_ok 0 4 (whole mem) (omega arith)
        (omega (arith, length-append (take 4 buf ++ w) left, length-append (take 4 buf) w)) in
    let less : 4 + length w - 4 ≡ length w = omega arith in
    let put = overwrite_front (be_bytes 4 (length w)) (take 4 buf) (w ++ left) front in
    rw (first, range, append_assoc (take 4 buf) w left) (rw (less) (rw (put)))

-- A response as the server sends it.
abbrev pub response_value : ConnectResponse → Value
response_value r = struct (
    cons (int32 r.version)
      (cons (int32 r.timeout) (cons (int64 r.session) (cons (bytes r.passwd) nil))))

fits : (buf : Bytes) (n : ℕ) → n ≤ length (if ltb (length buf) n then replicate n 0 else buf)
fits buf n = elim (Bool-cases (ltb (length buf) n)) [
  | inl e ↦ rw (e) (omega (arith, length-replicate {A = ℕ} n 0))
  | inr e ↦ rw (e) (ground arith)
]

-- The bytes of the length and of the request.
abbrev pub connect_frame : Conn → Bytes
connect_frame c = be_bytes 4 (length (wire (connect_request c))) ++ wire (connect_request c)

-- The event of a new state
abbrev pub session_event : State → Conn → Event
session_event s c = record {
  event_type = event_session;
  state = s;
  path = [];
  err = none;
  server = c.server;
}

-- The events in the event channel, which has room for six, and those handed to the callback, once `ev` was
-- published.
abbrev pub told : Event → Conn → List Event
told ev c = if ltb (length c.event_chan) 6 then c.event_chan ++ (ev ∷ []) else c.event_chan

abbrev pub called : Event → Conn → List Event
called ev c = if c.event_callback then c.calls ++ (ev ∷ []) else c.calls

-- A response of the server, of any length, as establish takes it over.
pub authenticate-establish :
    (r : ConnectResponse) (c : Conn)
    → HasKind connect_request_type (connect_request c)
    → length (wire (connect_request c)) ≤ 252
    → HasKind connect_response_type (response_value r)
    → length (wire (response_value r)) < 2 ^ 32
    → authenticate
        (answered (be_bytes 4 (length (wire (response_value r)))) (wire (response_value r)))
        c
      ≡ ok (establish r (record c { frames = c.frames ++ (connect_frame c ∷ []) }))
unfolding authenticate after_encoding exchange read_response connect_response_of response_buffer
authenticate-establish r c hq room hr small =
    let q = wire (connect_request c) in
    let p = wire (response_value r) in
    let left : Bytes = drop (length q) (drop 4 (replicate 256 0)) in
    let request =
      encode_alone (replicate 256 0) hq (omega (arith, length-replicate {A = ℕ} 256 0)) in
    let frame_size : 4 + length q ≡ length (connect_frame c) =
      omega (arith, length-be_bytes 4 (length q), length-append (be_bytes 4 (length q)) q) in
    let assoc = append_assoc (be_bytes 4 (length q)) q left in
    let cut : take (4 + length q) (be_bytes 4 (length q) ++ (q ++ left)) ≡ connect_frame c =
      rw (← assoc) (take-append (connect_frame c) left (4 + length q) frame_size) in
    let buf = overwrite (be_bytes 4 (length p)) (be_bytes 4 (length q) ++ (q ++ left)) in
    let size = be_value32 (length p) small in
    let filled =
      overwrite-eq p (if ltb (length buf) (length p) then replicate (length p) 0 else buf)
        (fits buf (length p)) in
    let value =
      decode_packet-wire
        (drop (length p) (if ltb (length buf) (length p) then replicate (length p) 0 else buf))
        (length p) hr (omega arith) in
    rw (request, cut, size) (rw (filled, value))

established :
    (r : ConnectResponse) (t : ℕ) (c : Conn)
    → r.timeout ≡ pos t
    → establish r c ≡ (
        if int_eq r.session (pos 0)
        then (
          record c {
            session_id = pos 0;
            passwd = some empty_password;
            last_zxid = pos 0;
            state = state_expired;
            event_chan = told (session_event state_expired c) c;
            calls = called (session_event state_expired c) c;
          },
          some session_expired,
        )
        else (
          record c {
            session_id = r.session;
            passwd = r.passwd;
            session_timeout_ms = pos t;
            recv_timeout = pos (t * 2_000_000 / 3);
            ping_interval = pos (t * 2_000_000 / 3 / 2);
            state = state_has_session;
            event_chan = told (session_event state_has_session c) c;
            calls = called (session_event state_has_session c) c;
          },
          none,
        ))
unfolding establish set_state set_timeouts send_event
established r t c e = elim (Bool-cases (int_eq r.session (pos 0))) [
  | inl z ↦ rw z refl
  | inr z ↦
      let double : t * 1_000_000 * 2 ≡ t * 2_000_000 = omega arith in rw (z, e) (rw (double) refl)
]

-- A connect request with room in its buffer of 256 bytes is written as one frame, and a response of the
-- server, whatever its length, is taken over as it was sent. For a session other than 0 these are
-- its id, the password and the timeout, of which two thirds are the timeout of the receiver and one
-- third the interval of the pings, and the state has a session. A session of 0 is reported as
-- expired: the id, the password and the last zxid are reset and the state is expired. The new state
-- is put on the event channel, if this holds less than six events, and handed to the callback, if
-- there is one; nothing else changes. The timeout is not below 0.
pub authenticate-response :
    (r : ConnectResponse) (t : ℕ) (c : Conn)
    → HasKind connect_request_type (connect_request c)
    → length (wire (connect_request c)) ≤ 252
    → HasKind connect_response_type (response_value r)
    → length (wire (response_value r)) < 2 ^ 32
    → r.timeout ≡ pos t
    → authenticate
        (answered (be_bytes 4 (length (wire (response_value r)))) (wire (response_value r)))
        c
      ≡ ok (
          if int_eq r.session (pos 0)
          then (
            record c {
              session_id = pos 0;
              passwd = some empty_password;
              last_zxid = pos 0;
              state = state_expired;
              event_chan = told (session_event state_expired c) c;
              calls = called (session_event state_expired c) c;
              frames = c.frames ++ (connect_frame c ∷ []);
            },
            some session_expired,
          )
          else (
            record c {
              session_id = r.session;
              passwd = r.passwd;
              session_timeout_ms = pos t;
              recv_timeout = pos (t * 2_000_000 / 3);
              ping_interval = pos (t * 2_000_000 / 3 / 2);
              state = state_has_session;
              event_chan = told (session_event state_has_session c) c;
              calls = called (session_event state_has_session c) c;
              frames = c.frames ++ (connect_frame c ∷ []);
            },
            none,
          ))
authenticate-response r t c hq room hr small e =
    authenticate-establish r c hq room hr small
    ∙ ap ok (established r t (record c { frames = c.frames ++ (connect_frame c ∷ []) }) e)
