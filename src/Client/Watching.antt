-- ===== src/Client/Watching.antt =====
-- Get, GetW and ExistsW of zk/conn.go from the call to its result, with the answer of the server.
use go_zookeeper.Base.{
  ◌+◌, ◌≤◌, ◌≡◌, refl, ◌∙◌, ℤ, pos, IsInt32, IsInt64, Bytes, true, false, Option, none, some, [],
  ◌∷◌, ◌++◌, arith, length, length-append, ◌<◌, ◌^◌,
}
use go_zookeeper.Constants.{no_node, err_no_node, op_get_data, op_exists, to_error, lookup_int}
use go_zookeeper.Wire.{ok}
use go_zookeeper.Wire.Value.{Kind, Value, bytes, struct, nil, cons}
use go_zookeeper.Wire.Structs.{path_watch_request_type, get_data_response_type, stat_response_type}
use go_zookeeper.Wire.Spec.{HasKind, is_struct, is_bool, is_string, more_fields, no_fields, wire}
use go_zookeeper.Watch.{watch_data, watch_exist, add_watcher}
use go_zookeeper.Conn.{
  Conn, RecvFunc, lookup_request, next_xid, new_request, watch_if_ok, watch_exists, respond,
}
use go_zookeeper.Conn.Frames.{frame}
use go_zookeeper.Conn.Receive.{run_recv_func, add_to, exists_func}
use go_zookeeper.Paths.{Utf8, validate_path}
use go_zookeeper.Client.{World, run, zero_value}
use go_zookeeper.Client.Running.{run-call}
use go_zookeeper.Client.Calls.{get_w, exists_w, watch_request, field_of}
use go_zookeeper.Client.Served.{served, IsServable, answered_with, serve-response, serve-failed}

-- The connection can send a request for `path`: there is room in its buffer, it is not being closed, and
-- no request is pending under the next xid.
pub record CanAsk (path : Bytes) (c : Conn) : Type 0 where
  pub fits : length path < 2 ^ 32
  pub room : 17 + length path ≤ length c.buf
  pub is_open : c.close_chan_closed ≡ false
  pub is_new : lookup_request (next_xid c).1 c.requests ≡ none

length-watch_request : (path : Bytes) → length (wire (watch_request path true)) ≡ 5 + length path
unfolding wire
length-watch_request path = omega (arith, length-append path (1 ∷ []))

watch-IsServable :
    (o : ℤ) (path : Bytes) (k : Kind) (func : RecvFunc) (c : Conn)
    → IsInt32 o
    → CanAsk path c
    → (let n = new_request o (watch_request path true) k func c in IsServable n.1 n.0)
unfolding new_request next_xid
watch-IsServable o path k func c ho a = record {
  s = path_watch_request_type;
  pkt_kind = is_struct (more_fields (is_string path a.fits) (more_fields (is_bool true) no_fields));
  room = omega (arith, length-watch_request path, a.room);
  is_open = a.is_open;
  is_new = a.is_new;
  xid_range = omega arith;
  xid_sign = refl;
  opcode_range = ho;
}

-- GetW of a valid path, answered by the server with the data `d` and the Stat `st`: it returns these, with
-- the channel of a new watcher for the data of the path, which is the only change of the watchers;
-- one frame was written, with the path and the watch flag, and no request of this call is pending.
-- The connection has room in its buffer, is not being closed and has no request pending under the
-- next xid, and the zxid and the answer are values of their types.
pub get_w-served :
    (u : Utf8) (w : World) (c : Conn) (path rest : Bytes) (zxid : ℤ) (d : Option Bytes) (st : Value)
    → validate_path u path false ≡ ok tt
    → CanAsk path c
    → IsInt64 zxid
    → HasKind get_data_response_type (struct (cons (bytes d) (cons st nil)))
    → (c' : Conn) × (run
          (served zxid (pos 0) (wire (struct (cons (bytes d) (cons st nil)))) rest w)
          (get_w u path)
          c
        ≡ ok (c', (d, some st, some c.watches.next_chan, none)))
      × (c'.watches ≡ (add_watcher path watch_data c.watches).0)
      × (c'.requests ≡ c.requests)
      × (c'.frames ≡ c.frames ++ (frame (next_xid c).1 op_get_data (watch_request path true) ∷ []))
unfolding get_w served new_request next_xid run_recv_func add_to respond
get_w-served u w c path rest zxid d st valid a hz k =
    let v : Value = struct (cons (bytes d) (cons st nil)) in
    let func = watch_if_ok path watch_data in
    let n = new_request op_get_data (watch_request path true) get_data_response_type func c in
    let answer =
      serve-response zxid v rest n.1 n.0
        (watch-IsServable op_get_data path get_data_response_type func c (omega arith) a) hz k in
    let p = answered_with zxid n.1 (none, some v) n.0 in
    (
      p.0,
      run-call u (served zxid (pos 0) (wire v) rest w) c path false op_get_data
            (watch_request path true) get_data_response_type func p _ _ valid answer
          ∙ (unfold run in refl),
      refl,
      refl,
      refl,
    )

-- ExistsW of a valid path that the server does not know: it returns false, no error and the channel of a new
-- watcher for the creation of the path, which is the only change of the watchers; no request of
-- this call is pending. The connection has room in its buffer, is not being closed and has no
-- request pending under the next xid, and the zxid is one of 64 bits.
pub exists_w-missing :
    (u : Utf8) (w : World) (c : Conn) (path body rest : Bytes) (zxid : ℤ)
    → validate_path u path false ≡ ok tt
    → CanAsk path c
    → IsInt64 zxid
    → (c' : Conn) × (run (served zxid err_no_node body rest w) (exists_w u path) c
        ≡ ok (
          c',
          (
            false,
            some (field_of 0 (zero_value stat_response_type)),
            some c.watches.next_chan,
            none,
          ),
        ))
      × (c'.watches ≡ (add_watcher path watch_exist c.watches).0)
      × (c'.requests ≡ c.requests)
unfolding exists_w served new_request next_xid run_recv_func exists_func add_to respond to_error
    lookup_int
exists_w-missing u w c path body rest zxid valid a hz =
    let func = watch_exists path in
    let n = new_request op_exists (watch_request path true) stat_response_type func c in
    let answer =
      serve-failed zxid err_no_node body rest n.1 n.0
        (watch-IsServable op_exists path stat_response_type func c (omega arith) a) hz (omega arith)
        refl in
    let p = answered_with zxid n.1 (some no_node, none) n.0 in
    (
      p.0,
      run-call u (served zxid err_no_node body rest w) c path false op_exists
            (watch_request path true) stat_response_type func p _ _ valid answer
          ∙ (unfold run in refl),
      refl,
      refl,
    )
