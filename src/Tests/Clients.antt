-- ===== src/Tests/Clients.antt =====
-- Paths and calls of the client in zk/util.go and zk/conn.go at concrete inputs.
use go_zookeeper.Base.{
  ◌++◌, ◌≡◌, refl, ◌||◌, ◌&&◌, not, pos, negsuc, Bytes, bytes_eq, bytes_eq_refl, str, split, join,
  true, false, none, some, [], ◌∷◌, arith,
}
use go_zookeeper.Constants.{invalid_path, err_no_node, connection_closed, op_get_data}
use go_zookeeper.Wire.{ok, panic, slice_bounds}
use go_zookeeper.Wire.Value.{Value, int32, int64, bytes, slice, struct, nil, cons}
use go_zookeeper.Wire.Structs.{stat_type, stat_response_type, get_data_response_type}
use go_zookeeper.Wire.Spec.{
  HasKind, is_string, is_bytes, is_nil, is_slice, is_struct, is_int32, is_int64, no_items,
  more_fields, no_fields, wire,
}
use go_zookeeper.Wire.Encode.{count_values}
use go_zookeeper.Watch.{watch_data, watch_exist, add_watcher}
use go_zookeeper.Conn.{Conn, new_request, next_xid, lookup_request}
use go_zookeeper.Conn.Frames.{frame}
use go_zookeeper.Paths.{
  validate_path, check_runes, check_rune, check_slash, check_dot, check_next, rune_before, byte_at,
  text_from, text_to,
}
use go_zookeeper.Paths.Ascii.{verdict, ends_in_slash}
use go_zookeeper.Paths.Parts.{are_parts, drop_first_dot, validate_path-are_parts, validate_path-dot}
use go_zookeeper.Paths.Whole.{is_path}
use go_zookeeper.Client.{◌>>=◌, run, with_valid, zero_value}
use go_zookeeper.Client.Calls.{
  children, children_w, get, get_w, set, create, delete, exists, exists_w, get_acl, set_acl, sync,
  add_auth, incremental_reconfig, reconfig, field_of, watch_request,
}
use go_zookeeper.Base.{List, All}
use go_zookeeper.Constants.{op_multi}
use go_zookeeper.Wire.Value.{Kind, string, multi, op, no_ops}
use go_zookeeper.Wire.Structs.{request_struct_for_op}
use go_zookeeper.Client.Multi.{
  Operation, delete_request, check_version_request, op_header, op_code, multi_ops, multi_request,
}
use go_zookeeper.Client.Operations.{IsOperation}
use go_zookeeper.Client.Requests.{IsTyped, calls-refused, calls-IsTyped}
use go_zookeeper.Client.Served.{served}
use go_zookeeper.Client.Watching.{CanAsk, get_w-served, exists_w-missing}
use go_zookeeper.Client.Protected.{
  create_protected, create_rounds, after_create, protected_parts, but_last, hex,
}
use go_zookeeper.Client.Protected.Owned.{IsOwn, create_protected-IsOwn}
use go_zookeeper.Client.Protected.Panics.{short_child_panics}
use go_zookeeper.Tests.Requests.{new_conn}
use go_zookeeper.Tests.Worlds.{ascii, ascii-ReadsAscii, queue_world, losing_world}

validate_path-are_parts_example :
    validate_path ascii (str "/a/../b") false
    ≡ verdict (
        (false || not (ends_in_slash (str "a/../b")))
        && are_parts (drop_first_dot (split b'/' (str "a/../b"))))
validate_path-are_parts_example =
    validate_path-are_parts ascii ascii-ReadsAscii (str "a/../b") false (omega arith)

validate_path-dot_example :
    validate_path ascii (str "/./x") false ≡ validate_path ascii (str "/x") false
validate_path-dot_example =
    validate_path-dot ascii ascii-ReadsAscii b'x' [] false (omega arith) refl

dots : is_path (str "/a/..") true ≡ false
unfolding are_parts drop_first_dot bytes_eq
dots = refl

slash_at_end : is_path (str "/a/") false ≡ false
slash_at_end = refl

calls-refused_example :
    (run queue_world (children ascii (str "/a/")) new_conn
      ≡ ok (new_conn, ([], none, some invalid_path)))
    × (run queue_world (children_w ascii (str "/a/")) new_conn
        ≡ ok (new_conn, ([], none, none, some invalid_path)))
    × (run queue_world (get ascii (str "/a/")) new_conn
        ≡ ok (new_conn, (none, none, some invalid_path)))
    × (run queue_world (get_w ascii (str "/a/")) new_conn
        ≡ ok (new_conn, (none, none, none, some invalid_path)))
    × (run queue_world (set ascii (str "/a/") none (pos 1)) new_conn
        ≡ ok (new_conn, (none, some invalid_path)))
    × (run queue_world (create ascii (str "/a/") none (pos 1) []) new_conn
        ≡ ok (new_conn, ([], some invalid_path)))
    × (run queue_world (delete ascii (str "/a/") (pos 1)) new_conn
        ≡ ok (new_conn, some invalid_path))
    × (run queue_world (exists ascii (str "/a/")) new_conn
        ≡ ok (new_conn, (false, none, some invalid_path)))
    × (run queue_world (exists_w ascii (str "/a/")) new_conn
        ≡ ok (new_conn, (false, none, none, some invalid_path)))
    × (run queue_world (get_acl ascii (str "/a/")) new_conn
        ≡ ok (new_conn, (slice nil, none, some invalid_path)))
    × (run queue_world (set_acl ascii (str "/a/") [] (pos 1)) new_conn
        ≡ ok (new_conn, (none, some invalid_path)))
    × (run queue_world (sync ascii (str "/a/")) new_conn ≡ ok (new_conn, ([], some invalid_path)))
    × (run queue_world (create ascii (str "/a/..") none (pos 3) []) new_conn
        ≡ ok (new_conn, ([], some invalid_path)))
    × (run queue_world (create_protected ascii (str "/a/..") none []) new_conn
        ≡ ok (new_conn, ([], some invalid_path)))
calls-refused_example =
    calls-refused ascii queue_world new_conn (str "/a/") (str "/a/..") none (pos 1) (pos 1) (pos 3)
      [] ascii-ReadsAscii (omega arith) (omega arith) slash_at_end dots refl

-- A delete and a check of a version in one request.
abbrev operations : List Operation
operations = delete_request (str "/a") (pos 1) ∷ check_version_request (str "/b") (pos 2) ∷ []

abbrev batch : Value
batch =
    multi
      (op (op_header (pos 2)) (struct (cons (string (str "/a")) (cons (int32 (pos 1)) nil))) (
        op (op_header (pos 13)) (struct (cons (string (str "/b")) (cons (int32 (pos 2)) nil)))
          no_ops))
      (record { op_type = negsuc 0; done = true; err_code = negsuc 0 })

run-multi_request : multi_request operations ≡ ok batch
unfolding multi_request multi_ops op_code
run-multi_request = refl

operations-IsOperation : All IsOperation operations
operations-IsOperation = (
  is_struct (
      more_fields (is_string (str "/a") (omega arith))
        (more_fields (is_int32 (pos 1) (omega arith)) no_fields)),
  (
    is_struct (
        more_fields (is_string (str "/b") (omega arith))
          (more_fields (is_int32 (pos 2) (omega arith)) no_fields)),
    tt,
  ),
)

abbrev AllTyped : Type 0
AllTyped =
    IsTyped (children ascii (str "/a"))
    × IsTyped (children_w ascii (str "/a"))
    × IsTyped (get ascii (str "/a"))
    × IsTyped (get_w ascii (str "/a"))
    × IsTyped (set ascii (str "/a") none (pos 1))
    × IsTyped (create ascii (str "/a") none (pos 3) [])
    × IsTyped (delete ascii (str "/a") (pos 1))
    × IsTyped (exists ascii (str "/a"))
    × IsTyped (exists_w ascii (str "/a"))
    × IsTyped (get_acl ascii (str "/a"))
    × IsTyped (set_acl ascii (str "/a") [] (pos 1))
    × IsTyped (sync ascii (str "/a"))
    × IsTyped (add_auth (str "digest") (some (str "u:p")))
    × IsTyped (incremental_reconfig (str "s1" ∷ []) (str "2" ∷ []) (negsuc 0))
    × IsTyped (reconfig (str "s1" ∷ []) (negsuc 0))
    × ((s : Kind) × (request_struct_for_op op_multi ≡ some s) × HasKind s batch)

calls-IsTyped_example : AllTyped
unfolding count_values
calls-IsTyped_example =
    calls-IsTyped ascii (str "/a") (str "digest") (some (str "u:p")) none (pos 1) (pos 3) (negsuc 0)
      [] (str "s1" ∷ []) (str "2" ∷ []) operations batch (is_string (str "/a") (omega arith))
      (is_string (str "digest") (omega arith)) (is_bytes (str "u:p") (omega arith)) is_nil
      (is_slice no_items (omega arith)) (omega arith) (omega arith) (omega arith)
      (is_bytes (str "s1") (omega arith)) (is_bytes (str "2") (omega arith)) operations-IsOperation
      run-multi_request

valid_path : validate_path ascii (str "/a") false ≡ ok tt
unfolding validate_path check_runes check_rune byte_at text_from
valid_path = refl

new_conn-CanAsk : CanAsk (str "/a") new_conn
unfolding lookup_request
new_conn-CanAsk = record { fits = omega arith; room = omega arith; is_open = refl; is_new = refl }

abbrev node : Value
node = struct (cons (bytes (some (str "x"))) (cons (zero_value stat_type) nil))

zero_long : HasKind int64 (int64 (pos 0))
zero_long = is_int64 (pos 0) (omega arith)

zero_int : HasKind int32 (int32 (pos 0))
zero_int = is_int32 (pos 0) (omega arith)

node-HasKind : HasKind get_data_response_type node
node-HasKind = is_struct (
    more_fields (is_bytes (str "x") (omega arith)) (
      more_fields
        (is_struct (
          more_fields zero_long (
            more_fields zero_long (
              more_fields zero_long (
                more_fields zero_long (
                  more_fields zero_int (
                    more_fields zero_int (
                      more_fields zero_int (
                        more_fields zero_long (
                          more_fields zero_int
                            (more_fields zero_int (more_fields zero_long no_fields))))))))))))
        no_fields))

get_w-served_example :
    (c' : Conn) × (run
        (served (pos 5) (pos 0) (wire node) [] queue_world)
        (get_w ascii (str "/a"))
        new_conn
      ≡ ok (c', (some (str "x"), some (zero_value stat_type), some 0, none)))
    × (c'.watches ≡ (add_watcher (str "/a") watch_data new_conn.watches).0)
    × (c'.requests ≡ [])
    × (c'.frames
        ≡ [] ++ (frame (next_xid new_conn).1 op_get_data (watch_request (str "/a") true) ∷ []))
get_w-served_example =
    get_w-served ascii queue_world new_conn (str "/a") [] (pos 5) (some (str "x"))
      (zero_value stat_type) valid_path new_conn-CanAsk (omega arith) node-HasKind

exists_w-missing_example :
    (c' : Conn) × (run
        (served (pos 5) err_no_node [] [] queue_world)
        (exists_w ascii (str "/a"))
        new_conn
      ≡ ok (c', (false, some (field_of 0 (zero_value stat_response_type)), some 0, none)))
    × (c'.watches ≡ (add_watcher (str "/a") watch_exist new_conn.watches).0)
    × (c'.requests ≡ [])
exists_w-missing_example =
    exists_w-missing ascii queue_world new_conn (str "/a") [] [] (pos 5) valid_path new_conn-CanAsk
      (omega arith)

abbrev asked : Conn
asked = record new_conn { xid = 1; next_chan = 1 }

abbrev asked_twice : Conn
asked_twice = record new_conn { xid = 2; next_chan = 2 }

run-create_protected :
    run queue_world (create_protected ascii (str "/l/lock-") none []) new_conn
    ≡ ok (asked, (str "/l/lock-7", none))
unfolding run ◌>>=◌ with_valid validate_path check_runes check_rune check_slash check_dot check_next
    rune_before byte_at text_from text_to create create_protected create_rounds after_create
    new_request next_xid
run-create_protected = refl

create_protected-IsOwn_example :
    (c₀ : Conn) × (guid : Bytes) × (queue_world.random new_conn ≡ (c₀, (none, guid)))
    × IsOwn ascii queue_world
        (hex guid)
        (join b'/' (but_last (split b'/' (str "/l/lock-"))))
        (join b'/' (protected_parts (hex guid) (split b'/' (str "/l/lock-"))))
        none
        []
        asked
        (str "/l/lock-7")
create_protected-IsOwn_example =
    create_protected-IsOwn ascii queue_world (str "/l/lock-") none [] new_conn asked
      (str "/l/lock-7") run-create_protected

run-create :
    run losing_world (create ascii (str "/l/_c_00-n") none (pos 3) []) new_conn
    ≡ ok (asked, ([], some connection_closed))
unfolding run with_valid validate_path check_runes check_rune check_slash check_dot check_next
    rune_before byte_at text_from text_to create new_request next_xid
run-create = refl

run-children :
    run losing_world (children ascii (str "/l")) asked
    ≡ ok (asked_twice, (str "_c_x" ∷ [], some (zero_value stat_type), none))
unfolding run with_valid validate_path check_runes check_rune check_slash check_dot check_next
    rune_before byte_at text_from text_to children new_request next_xid
run-children = refl

prefix_found : bytes_eq (str "_c_") (str "_c_") ≡ true
prefix_found = bytes_eq_refl (str "_c_")

short_child_panics_example :
    run losing_world
      (create_rounds ascii (str "00") (str "/l") (str "/l/_c_00-n") none [] 3 none)
      new_conn
    ≡ panic slice_bounds
short_child_panics_example =
    short_child_panics ascii losing_world (str "00") (str "/l") (str "/l/_c_00-n") (str "_c_x") []
      none [] 2 none new_conn asked asked_twice [] (some (zero_value stat_type)) prefix_found
      (omega arith) run-create run-children
