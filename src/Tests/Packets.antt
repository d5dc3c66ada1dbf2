-- ===== src/Tests/Packets.antt =====
-- The connection of zk/conn.go on concrete packets.
use go_zookeeper.Base.{
  bytes_eq, ◌&&◌, if◌then◌else◌, map, map, ◌<◌, ◌^◌, true, Bytes, negsuc, ◌+◌, ◌≡◌, pos, is_pos,
  refl, false, none, some, [], ◌∷◌, ◌++◌, arith, length, drop, replicate, str, if◌then◌else◌, ◌≤◌,
}
use go_zookeeper.Constants.{packet_too_long, err_no_node, to_error, op_create, state_has_session}
use go_zookeeper.Wire.{be_bytes, be_value, overwrite, ok, panic, slice_bounds}
use go_zookeeper.Wire.Value.{Value, string, struct, nil, cons}
use go_zookeeper.Wire.Structs.{watcher_event_type, path_response_type}
use go_zookeeper.Wire.Spec.{is_int32, HasKind, is_string, is_struct, more_fields, no_fields, wire}
use go_zookeeper.Watch.Once.{no_watches}
use go_zookeeper.Conn.{Conn, Request, no_func, lookup_request, delete_request, insert_request}
use go_zookeeper.Conn.Send.{written, send_data}
use go_zookeeper.Conn.Frames.{frame, send_data-frame}
use go_zookeeper.Conn.Receive.{ResponseHeader, complete, after_response, recv_packet}
use go_zookeeper.Conn.Events.{fired, event_value, server_event, recv_packet-event}
use go_zookeeper.Watch.{Event, Watches, WatchPath, watch_data, lookup_watch}
use go_zookeeper.Watch.Tables.{IsMap}
use go_zookeeper.Watch.Delivery.{heard, fires}
use go_zookeeper.Loop.Reading.{over_limit, packet, receive_packet}
use go_zookeeper.Loop.Small.{receive_packet-small_limit}
use go_zookeeper.Loop.Reading.{recv_buffer}
use go_zookeeper.Loop.Bounds.{IsBounded}
use go_zookeeper.Loop.Limits.{receive_packet-response, receive_packet-over_limit}
use go_zookeeper.Conn.Replies.{recv_packet-failed, header_value, InRange, short_response_panics}

abbrev path_value : Value
path_value = struct (cons (string (str "/a")) nil)

path_value-HasKind : HasKind path_response_type path_value
path_value-HasKind = is_struct (more_fields (is_string (str "/a") (omega arith)) no_fields)

abbrev asked : Request
asked = record {
  xid = pos 7;
  opcode = op_create;
  pkt = path_value;
  recv_struct = path_response_type;
  recv_chan = 3;
  recv_func = no_func;
}

-- A connection with a session and one request that waits for its response.
abbrev waiting_conn : Conn
waiting_conn = record {
  last_zxid = pos 40;
  session_id = pos 9;
  state = state_has_session;
  xid = 7;
  session_timeout_ms = pos 4000;
  passwd = some [];
  recv_timeout = pos 2666666666;
  ping_interval = pos 1333333333;
  server = str "a:1";
  event_chan = [];
  event_callback = false;
  calls = [];
  creds = [];
  send_chan = [];
  requests = (pos 7, asked) ∷ [];
  watches = no_watches;
  close_chan_closed = false;
  buf = replicate 32 0;
  next_chan = 4;
  responses = [];
  frames = [];
}

abbrev header : ResponseHeader
header = record { xid = pos 7; zxid = pos 41; err_code = pos 0 }

header-InRange : InRange header
header-InRange = record {
  xid_range = omega arith;
  zxid_range = omega arith;
  err_range = omega arith;
}

found : lookup_request (pos 7) waiting_conn.requests ≡ some asked
unfolding lookup_request
found = refl

short_response_panics_example :
    recv_packet (record { len = 12; mem = wire (header_value header) ++ [] }) waiting_conn
    ≡ panic slice_bounds
short_response_panics_example =
    short_response_panics header [] 12 asked waiting_conn header-InRange refl refl found
      (omega arith)

path_value-room : 12 + length (wire path_value) ≤ length waiting_conn.buf
unfolding wire
path_value-room = omega arith

send_data-frame_example :
    send_data written asked waiting_conn
    ≡ ok (
      record waiting_conn {
        buf =
            frame (pos 7) op_create path_value
            ++ drop (12 + length (wire path_value)) waiting_conn.buf;
        requests = insert_request (pos 7) asked waiting_conn.requests;
        frames = waiting_conn.frames ++ (frame (pos 7) op_create path_value ∷ []);
      },
      none,
    )
send_data-frame_example =
    send_data-frame asked waiting_conn (omega arith) (omega arith) path_value-HasKind
      path_value-room refl

-- The server says that there is no such node.
abbrev refusal : ResponseHeader
refusal = record { xid = pos 7; zxid = pos 42; err_code = err_no_node }

recv_packet-failed_example :
    recv_packet (record { len = 16; mem = wire (header_value refusal) ++ [] }) waiting_conn
    ≡ ok (
      complete refusal asked
          (to_error err_no_node, none)
          (record waiting_conn {
            last_zxid = if is_pos (pos 42) then pos 42 else pos 40;
            requests = delete_request (pos 7) waiting_conn.requests;
          }),
      after_response asked,
    )
recv_packet-failed_example =
    recv_packet-failed refusal [] 16 asked waiting_conn
      (record { xid_range = omega arith; zxid_range = omega arith; err_range = omega arith }) refl
      refl found

abbrev notice : ResponseHeader
notice = record { xid = negsuc 0; zxid = negsuc 0; err_code = pos 0 }

deletion-HasKind : HasKind watcher_event_type (event_value (pos 2) (pos 3) (str "/a"))
deletion-HasKind = is_struct (
    more_fields (is_int32 (pos 2) (omega arith)) (
      more_fields (is_int32 (pos 3) (omega arith))
        (more_fields (is_string (str "/a") (omega arith)) no_fields)))

-- A watcher waits for the data of /a, and the client has a callback.
abbrev watching_conn : Conn
watching_conn = record waiting_conn {
  event_callback = true;
  watches = record {
    table = (record { path = str "/a"; w_type = watch_data }, 0 ∷ []) ∷ [];
    next_chan = 1;
    delivered = [];
  };
}

watching_conn-IsMap : IsMap watching_conn.watches.table
unfolding lookup_watch
watching_conn-IsMap = (refl, tt)

abbrev deletion : Event
deletion = server_event (pos 2) (pos 3) (str "/a")

recv_packet-event_example :
    (w : Watches) × (recv_packet
        (record {
          len = 16 + length (wire (event_value (pos 2) (pos 3) (str "/a")));
          mem = wire (header_value notice) ++ (wire (event_value (pos 2) (pos 3) (str "/a")) ++ []);
        })
        watching_conn
      ≡ ok (
        record watching_conn { event_chan = deletion ∷ []; calls = deletion ∷ []; watches = w },
        none,
      ))
    × (w.delivered
        ≡ map (λ ch. (ch, deletion)) (heard (str "/a") (fired (pos 2)) watching_conn.watches.table))
    × ((j : WatchPath)
        → lookup_watch j w.table ≡ (
            if bytes_eq (str "/a") j.path && fires j.w_type (fired (pos 2))
            then none
            else lookup_watch j watching_conn.watches.table))
recv_packet-event_example =
    recv_packet-event notice (pos 2) (pos 3) (str "/a") [] watching_conn
      (record { xid_range = omega arith; zxid_range = omega arith; err_range = omega arith }) refl
      deletion-HasKind watching_conn-IsMap

-- An answer to a ping.
abbrev pong : ResponseHeader
pong = record { xid = negsuc 1; zxid = pos 50; err_code = pos 0 }

not_pending : lookup_request (negsuc 1) waiting_conn.requests ≡ none
unfolding lookup_request
not_pending = refl

path_value-size : 16 + length (wire path_value) < 2 ^ 32
unfolding wire
path_value-size = omega arith

path_value-limit : over_limit (pos 64) (16 + length (wire path_value)) ≡ false
unfolding wire over_limit
path_value-limit = refl

small-IsBounded : IsBounded (pos 64) (replicate 8 0)
unfolding over_limit
small-IsBounded = refl

receive_packet-response_example :
    (buf' : Bytes) × IsBounded (pos 64) buf'
    × (receive_packet
          (packet
            (be_bytes 4 (16 + length (wire path_value)))
            (wire (header_value header) ++ wire path_value))
          (pos 64)
          (replicate 8 0)
          waiting_conn
        ≡ ok (
          buf',
          complete header asked
              (none, some path_value)
              (record waiting_conn {
                last_zxid = if is_pos (pos 41) then pos 41 else pos 40;
                requests = delete_request (pos 7) waiting_conn.requests;
              }),
          after_response asked,
        ))
receive_packet-response_example =
    receive_packet-response header path_value (pos 64) (replicate 8 0) asked waiting_conn
      header-InRange refl refl path_value-HasKind found path_value-size (omega arith)
      small-IsBounded path_value-limit

-- A length of 65, with a limit of 64.
long_packet : over_limit (pos 64) (be_value 0 (0 ∷ 0 ∷ 0 ∷ 65 ∷ [])) ≡ true
unfolding over_limit
long_packet = refl

receive_packet-over_limit_example :
    receive_packet (packet (0 ∷ 0 ∷ 0 ∷ 65 ∷ []) []) (pos 64) (replicate 8 0) waiting_conn
    ≡ ok (overwrite (0 ∷ 0 ∷ 0 ∷ 65 ∷ []) (replicate 8 0), waiting_conn, some packet_too_long)
receive_packet-over_limit_example =
    receive_packet-over_limit (pos 64) (replicate 8 0) (0 ∷ 0 ∷ 0 ∷ 65 ∷ []) [] waiting_conn
      (omega arith) small-IsBounded long_packet

-- A limit of 8.
receive_packet-small_limit_example :
    receive_packet
      (packet (0 ∷ 0 ∷ 0 ∷ 4 ∷ []) (1 ∷ 2 ∷ 3 ∷ 4 ∷ []))
      (pos 8)
      (recv_buffer (pos 8))
      waiting_conn
    ≡ panic slice_bounds
receive_packet-small_limit_example =
    receive_packet-small_limit 7 (0 ∷ 0 ∷ 0 ∷ 4 ∷ []) (1 ∷ 2 ∷ 3 ∷ 4 ∷ []) waiting_conn
      (omega arith) refl (omega arith)
