-- ===== src/Wire/Structs.antt =====
-- The request and response types of zk/structs.go as the codec sees them, and requestStructForOp.
use go_zookeeper.Base.{ℤ, int_eq, Option, none, some, List, [], ◌∷◌, if◌then◌else◌}
use go_zookeeper.Constants.{
  op_create, op_delete, op_exists, op_get_data, op_set_data, op_get_acl, op_set_acl,
  op_get_children, op_sync, op_ping, op_get_children2, op_check, op_multi, op_reconfig, op_close,
  op_set_auth, op_set_watches,
}
use go_zookeeper.Wire.Value.{
  Kind, Kinds, bool, int32, int64, string, bytes, multi, slice, struct, end, field,
}

infixr 66 ◌▸◌
abbrev pub ◌▸◌ : Kind → Kinds → Kinds
k ▸ ks = field k ks

abbrev pub acl_type : Kind
acl_type = struct (int32 ▸ string ▸ string ▸ end)

abbrev pub stat_type : Kind
stat_type =
    struct
      (int64 ▸ int64 ▸ int64 ▸ int64 ▸ int32 ▸ int32 ▸ int32 ▸ int64 ▸ int32 ▸ int32 ▸ int64 ▸ end)

abbrev pub request_header_type : Kind
request_header_type = struct (int32 ▸ int32 ▸ end)

abbrev pub response_header_type : Kind
response_header_type = struct (int32 ▸ int64 ▸ int32 ▸ end)

abbrev pub multi_header_type : Kind
multi_header_type = struct (int32 ▸ bool ▸ int32 ▸ end)

abbrev pub auth_type : Kind
auth_type = struct (int32 ▸ string ▸ bytes ▸ end)

abbrev pub path_request_type : Kind
path_request_type = struct (string ▸ end)

abbrev pub path_version_request_type : Kind
path_version_request_type = struct (string ▸ int32 ▸ end)

abbrev pub path_watch_request_type : Kind
path_watch_request_type = struct (string ▸ bool ▸ end)

abbrev pub path_response_type : Kind
path_response_type = struct (string ▸ end)

abbrev pub stat_response_type : Kind
stat_response_type = struct (stat_type ▸ end)

-- closeRequest, closeResponse, deleteResponse, pingRequest, setWatchesResponse, setAuthResponse
abbrev pub empty_type : Kind
empty_type = struct end

abbrev pub connect_request_type : Kind
connect_request_type = struct (int32 ▸ int64 ▸ int32 ▸ int64 ▸ bytes ▸ end)

abbrev pub connect_response_type : Kind
connect_response_type = struct (int32 ▸ int32 ▸ int64 ▸ bytes ▸ end)

abbrev pub create_request_type : Kind
create_request_type = struct (string ▸ bytes ▸ slice acl_type ▸ int32 ▸ end)

abbrev pub get_acl_response_type : Kind
get_acl_response_type = struct (slice acl_type ▸ stat_type ▸ end)

abbrev pub get_children_response_type : Kind
get_children_response_type = struct (slice string ▸ end)

abbrev pub get_children2_response_type : Kind
get_children2_response_type = struct (slice string ▸ stat_type ▸ end)

abbrev pub get_data_response_type : Kind
get_data_response_type = struct (bytes ▸ stat_type ▸ end)

abbrev pub set_acl_request_type : Kind
set_acl_request_type = struct (string ▸ slice acl_type ▸ int32 ▸ end)

abbrev pub set_data_request_type : Kind
set_data_request_type = struct (string ▸ bytes ▸ int32 ▸ end)

abbrev pub set_watches_request_type : Kind
set_watches_request_type = struct (int64 ▸ slice string ▸ slice string ▸ slice string ▸ end)

abbrev pub reconfig_request_type : Kind
reconfig_request_type = struct (bytes ▸ bytes ▸ bytes ▸ int64 ▸ end)

abbrev pub watcher_event_type : Kind
watcher_event_type = struct (int32 ▸ int32 ▸ string ▸ end)

-- The switch of requestStructForOp, as the list of its cases.
abbrev pub request_structs : List (ℤ × Kind)
request_structs =
    (op_close, empty_type)
    ∷ (op_create, create_request_type)
    ∷ (op_delete, path_version_request_type)
    ∷ (op_exists, path_watch_request_type)
    ∷ (op_get_acl, path_request_type)
    ∷ (op_get_children, path_request_type)
    ∷ (op_get_children2, path_watch_request_type)
    ∷ (op_get_data, path_watch_request_type)
    ∷ (op_ping, empty_type)
    ∷ (op_set_acl, set_acl_request_type)
    ∷ (op_set_data, set_data_request_type)
    ∷ (op_set_watches, set_watches_request_type)
    ∷ (op_sync, path_request_type)
    ∷ (op_set_auth, auth_type)
    ∷ (op_check, path_version_request_type)
    ∷ (op_multi, multi)
    ∷ (op_reconfig, reconfig_request_type)
    ∷ []

unfoldable pub find_struct : ℤ → List (ℤ × Kind) → Option Kind
find_struct o [] = none
find_struct o ((p, k) ∷ rest) = if int_eq p o then some k else find_struct o rest

unfoldable pub request_struct_for_op : ℤ → Option Kind
unfolding find_struct
request_struct_for_op o = find_struct o request_structs
