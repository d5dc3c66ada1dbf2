-- ===== src/Tests/Requests.antt =====
-- A request of zk/conn.go from the queue to its answer.
use go_zookeeper.Base.{
  ◌+◌, ◌≡◌, ◌≤◌, pos, is_pos, refl, false, none, some, [], ◌∷◌, ◌++◌, arith, length, drop,
  replicate, str, if◌then◌else◌,
}
use go_zookeeper.Constants.{Error, op_create, state_has_session, closing, foreign}
use go_zookeeper.Wire.{ok, ◌>>=◌}
use go_zookeeper.Wire.Value.{Value, string, struct, nil, cons}
use go_zookeeper.Wire.Structs.{path_response_type}
use go_zookeeper.Wire.Spec.{HasKind, is_string, is_struct, more_fields, no_fields, wire}
use go_zookeeper.Watch.Once.{no_watches}
use go_zookeeper.Conn.{
  Conn, Request, no_func, lookup_request, delete_request, insert_request, queue_request,
  new_request, next_xid, failure,
}
use go_zookeeper.Conn.Send.{written, write_failed, send_data}
use go_zookeeper.Conn.Frames.{frame, send_data-frame, encode_frame_lem}
use go_zookeeper.Conn.Receive.{ResponseHeader, complete}
use go_zookeeper.Conn.Replies.{header_value, InRange, recv_packet-response}
use go_zookeeper.Conn.Flush.{flush_requests}
use go_zookeeper.Conn.Answers.{Step, Reach, write_failed_answers_twice}

abbrev pub path_value : Value
path_value = struct (cons (string (str "/a")) nil)

path_value-HasKind : HasKind path_response_type path_value
path_value-HasKind = is_struct (more_fields (is_string (str "/a") (omega arith)) no_fields)

abbrev pub new_conn : Conn
new_conn = record {
  last_zxid = pos 0;
  session_id = pos 9;
  state = state_has_session;
  xid = 0;
  session_timeout_ms = pos 4000;
  passwd = some [];
  recv_timeout = pos 2666666666;
  ping_interval = pos 1333333333;
  server = str "a:1";
  event_chan = [];
  event_callback = false;
  calls = [];
  creds = [];
  send_chan = [];
  requests = [];
  watches = no_watches;
  close_chan_closed = false;
  buf = replicate 32 0;
  next_chan = 0;
  responses = [];
  frames = [];
}

abbrev first_request : Request
first_request = record {
  xid = pos 1;
  opcode = op_create;
  pkt = path_value;
  recv_struct = path_response_type;
  recv_chan = 0;
  recv_func = no_func;
}

abbrev queued_conn : Conn
queued_conn = record new_conn { xid = 1; next_chan = 1; send_chan = first_request ∷ [] }

abbrev taken_conn : Conn
taken_conn = record queued_conn { send_chan = [] }

queued :
    queue_request op_create path_value path_response_type no_func new_conn ≡ some (queued_conn, 0)
unfolding queue_request new_request next_xid
queued = refl

room : 12 + length (wire path_value) ≤ 32
unfolding wire
room = omega arith

abbrev sent_conn : Conn
sent_conn = record taken_conn {
  buf = frame (pos 1) op_create path_value ++ drop (12 + length (wire path_value)) taken_conn.buf;
  requests = insert_request (pos 1) first_request [];
  frames = [] ++ (frame (pos 1) op_create path_value ∷ []);
}

not_failed : (e : Error) → ¬ (written ≡ write_failed e)
not_failed e h = cc

sent-Reach : Reach new_conn sent_conn
unfolding lookup_request
sent-Reach =
    Reach.later
      (Reach.later Reach.here (Step.queues op_create path_value path_response_type no_func queued))
      (Step.sends written first_request [] refl refl not_failed (
        send_data-frame first_request taken_conn (omega arith) (omega arith) path_value-HasKind room
          refl))

abbrev header : ResponseHeader
header = record { xid = pos 1; zxid = pos 41; err_code = pos 0 }

header-InRange : InRange header
header-InRange = record {
  xid_range = omega arith;
  zxid_range = omega arith;
  err_range = omega arith;
}

found : lookup_request (pos 1) sent_conn.requests ≡ some first_request
unfolding lookup_request insert_request
found = refl

abbrev answered_conn : Conn
answered_conn =
    complete header first_request (none, some path_value)
      (record sent_conn {
        last_zxid = if is_pos (pos 41) then pos 41 else pos 0;
        requests = delete_request (pos 1) sent_conn.requests;
      })

answered-Reach : Reach new_conn answered_conn
answered-Reach = Reach.later sent-Reach (
    Step.receives
      (record {
        len = 16 + length (wire path_value);
        mem = wire (header_value header) ++ (wire path_value ++ []);
      })
      (recv_packet-response header path_value [] first_request sent_conn header-InRange refl refl
        path_value-HasKind found))

-- The error of the network.
abbrev broken : Error
broken = foreign 0

write_failed_answers_twice_example :
    (send_data (write_failed broken) first_request taken_conn >>= λ p.
    ok (flush_requests closing p.0).responses)
    ≡ ok ([] ++ ((0, failure broken) ∷ (0, failure closing) ∷ []))
write_failed_answers_twice_example =
    write_failed_answers_twice first_request taken_conn
      (record {
        n = 12 + length (wire path_value);
        mem =
            frame (pos 1) op_create path_value
            ++ drop (12 + length (wire path_value)) taken_conn.buf;
      })
      broken closing refl refl
      (encode_frame_lem taken_conn.buf (pos 1) op_create (omega arith) (omega arith)
        path_value-HasKind room)
