-- ===== src/Tests/Sessions.antt =====
-- The start of a session of zk/conn.go.
use go_zookeeper.Base.{
  refl, none, ◌≡◌, ◌≤◌, ◌<◌, ◌^◌, pos, false, some, [], ◌∷◌, arith, length, replicate, str,
}
use go_zookeeper.Constants.{state_has_session, state_connected, empty_password}
use go_zookeeper.Wire.{ok, be_bytes}
use go_zookeeper.Wire.Structs.{connect_request_type, connect_response_type}
use go_zookeeper.Wire.Spec.{
  HasKind, is_int32, is_int64, is_bytes, is_struct, more_fields, no_fields, wire,
}
use go_zookeeper.Watch.Once.{no_watches}
use go_zookeeper.Conn.{Conn}
use go_zookeeper.Conn.Connect.{answered, ConnectResponse, connect_request, authenticate}
use go_zookeeper.Conn.Session.{session_event, response_value, connect_frame, authenticate-response}

abbrev pub new_conn : Conn
new_conn = record {
  last_zxid = pos 0;
  session_id = pos 0;
  state = state_connected;
  xid = 0;
  session_timeout_ms = pos 4000;
  passwd = some empty_password;
  recv_timeout = pos 2666666666;
  ping_interval = pos 1333333333;
  server = str "a:1";
  event_chan = [];
  event_callback = false;
  calls = [];
  creds = [];
  send_chan = [];
  requests = [];
  watches = no_watches;
  close_chan_closed = false;
  buf = replicate 32 0;
  next_chan = 0;
  responses = [];
  frames = [];
}

abbrev pub accepted : ConnectResponse
accepted = record {
  version = pos 0;
  timeout = pos 6000;
  session = pos 77;
  passwd = some (1 ∷ 2 ∷ []);
}

pub request-HasKind : HasKind connect_request_type (connect_request new_conn)
request-HasKind = is_struct (
    more_fields (is_int32 (pos 0) (omega arith)) (
      more_fields (is_int64 (pos 0) (omega arith)) (
        more_fields (is_int32 (pos 4000) (omega arith)) (
          more_fields (is_int64 (pos 0) (omega arith))
            (more_fields (is_bytes empty_password (omega arith)) no_fields)))))

pub response-HasKind : HasKind connect_response_type (response_value accepted)
response-HasKind = is_struct (
    more_fields (is_int32 (pos 0) (omega arith)) (
      more_fields (is_int32 (pos 6000) (omega arith)) (
        more_fields (is_int64 (pos 77) (omega arith))
          (more_fields (is_bytes (1 ∷ 2 ∷ []) (omega arith)) no_fields))))

pub request-room : length (wire (connect_request new_conn)) ≤ 252
unfolding wire
request-room = omega arith

pub response-small : length (wire (response_value accepted)) < 2 ^ 32
unfolding wire
response-small = omega arith

-- Two thirds of six seconds are four, in nanoseconds.
authenticate-response_example :
    authenticate
      (answered
        (be_bytes 4 (length (wire (response_value accepted))))
        (wire (response_value accepted)))
      new_conn
    ≡ ok (
      record new_conn {
        session_id = pos 77;
        passwd = some (1 ∷ 2 ∷ []);
        session_timeout_ms = pos 6000;
        recv_timeout = pos 4_000_000_000;
        ping_interval = pos 2_000_000_000;
        state = state_has_session;
        event_chan = session_event state_has_session new_conn ∷ [];
        frames = connect_frame new_conn ∷ [];
      },
      none,
    )
authenticate-response_example =
    authenticate-response accepted 6000 new_conn request-HasKind request-room response-HasKind
      response-small refl
