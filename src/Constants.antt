-- ===== src/Constants.antt =====
-- zk/constants.go: operation codes, states, event types, error codes and the errors they stand for.
-- The error values that the other files of zk/ declare are constructors of the same `Error` type.
mod Codes
pub mod Laws
pub use Codes.*
use go_zookeeper.Base.{
  ℕ, ℤ, pos, negsuc, int_eq, Bytes, str, if◌then◌else◌, Option, none, some, List, [], ◌∷◌,
}

-- What an `error` variable holds when it is not nil. `unknown_code` is the error that toError formats,
-- `foreign` is an error of the network or of the standard library.
pub data Error : Type 0 where
  connection_closed unknown api_error no_node no_auth bad_version : Error
  no_children_for_ephemerals node_exists not_empty session_expired invalid_acl : Error
  auth_failed closing nothing session_moved reconfig_disabled bad_arguments : Error
  no_server invalid_path : Error
  unhandled_field_type ptr_expected short_buffer : Error
  deadlock not_locked : Error
  no_servers_given no_hosts_found packet_too_long unknown_operation bad_number end_of_file : Error
  number_out_of_range unparsed_response : Error
  unknown_code : ℤ → Error
  foreign : ℕ → Error

-- The named integer types.
abbrev pub State : Type 0
State = ℤ

abbrev pub EventType : Type 0
EventType = ℤ

abbrev pub ErrCode : Type 0
ErrCode = ℤ

unfoldable pub lookup_int {ℓ} : {V : Type ℓ} → ℤ → List (ℤ × V) → Option V
lookup_int k [] = none
lookup_int k ((j, v) ∷ m) = if int_eq j k then some v else lookup_int k m

abbrev pub err_code_to_error : List (ℤ × Option Error)
err_code_to_error =
    (pos 0, none)
    ∷ (err_apierror, some api_error)
    ∷ (err_no_node, some no_node)
    ∷ (err_no_auth, some no_auth)
    ∷ (err_bad_version, some bad_version)
    ∷ (err_no_children_for_ephemerals, some no_children_for_ephemerals)
    ∷ (err_node_exists, some node_exists)
    ∷ (err_not_empty, some not_empty)
    ∷ (err_session_expired, some session_expired)
    ∷ (err_invalid_acl, some invalid_acl)
    ∷ (err_auth_failed, some auth_failed)
    ∷ (err_closing, some closing)
    ∷ (err_nothing, some nothing)
    ∷ (err_session_moved, some session_moved)
    ∷ (err_zreconfig_disabled, some reconfig_disabled)
    ∷ (err_bad_arguments, some bad_arguments)
    ∷ []

unfoldable pub to_error : ℤ → Option Error
unfolding lookup_int
to_error e = elim (lookup_int e err_code_to_error) [ some err ↦ err | none ↦ some (unknown_code e) ]

abbrev pub state_names : List (ℤ × Bytes)
state_names =
    (state_unknown, str "StateUnknown")
    ∷ (state_disconnected, str "StateDisconnected")
    ∷ (state_connected_read_only, str "StateConnectedReadOnly")
    ∷ (state_sasl_authenticated, str "StateSaslAuthenticated")
    ∷ (state_expired, str "StateExpired")
    ∷ (state_auth_failed, str "StateAuthFailed")
    ∷ (state_connecting, str "StateConnecting")
    ∷ (state_connected, str "StateConnected")
    ∷ (state_has_session, str "StateHasSession")
    ∷ []

abbrev pub event_names : List (ℤ × Bytes)
event_names =
    (event_node_created, str "EventNodeCreated")
    ∷ (event_node_deleted, str "EventNodeDeleted")
    ∷ (event_node_data_changed, str "EventNodeDataChanged")
    ∷ (event_node_children_changed, str "EventNodeChildrenChanged")
    ∷ (event_session, str "EventSession")
    ∷ (event_not_watching, str "EventNotWatching")
    ∷ []

abbrev pub op_names : List (ℤ × Bytes)
op_names =
    (op_notify, str "notify")
    ∷ (op_create, str "create")
    ∷ (op_delete, str "delete")
    ∷ (op_exists, str "exists")
    ∷ (op_get_data, str "getData")
    ∷ (op_set_data, str "setData")
    ∷ (op_get_acl, str "getACL")
    ∷ (op_set_acl, str "setACL")
    ∷ (op_get_children, str "getChildren")
    ∷ (op_sync, str "sync")
    ∷ (op_ping, str "ping")
    ∷ (op_get_children2, str "getChildren2")
    ∷ (op_check, str "check")
    ∷ (op_multi, str "multi")
    ∷ (op_reconfig, str "reconfig")
    ∷ (op_close, str "close")
    ∷ (op_set_auth, str "setAuth")
    ∷ (op_set_watches, str "setWatches")
    ∷ (op_watcher_event, str "watcherEvent")
    ∷ []

-- A name in the map, or the text that is returned for a key that the map lacks.
unfoldable pub name_or : ℤ → List (ℤ × Bytes) → Bytes → Bytes
unfolding lookup_int
name_or k names d = elim (lookup_int k names) [ some name ↦ name | none ↦ d ]

unfoldable pub state_string : State → Bytes
unfolding name_or
state_string s = name_or s state_names (str "unknown state")

unfoldable pub event_type_string : EventType → Bytes
unfolding name_or
event_type_string t = name_or t event_names (str "Unknown")

abbrev pub protocol_version : ℤ
protocol_version = pos 0

abbrev pub default_port : Bytes
default_port = str "2181"

-- sixteen zero bytes
abbrev pub empty_password : Bytes
empty_password = 0 ∷ 0 ∷ 0 ∷ 0 ∷ 0 ∷ 0 ∷ 0 ∷ 0 ∷ 0 ∷ 0 ∷ 0 ∷ 0 ∷ 0 ∷ 0 ∷ 0 ∷ 0 ∷ []

-- The permissions of an ACL
abbrev pub perm_read : ℤ
perm_read = pos 1

abbrev pub perm_write : ℤ
perm_write = pos 2

abbrev pub perm_create : ℤ
perm_create = pos 4

abbrev pub perm_delete : ℤ
perm_delete = pos 8

abbrev pub perm_admin : ℤ
perm_admin = pos 16

abbrev pub perm_all : ℤ
perm_all = pos 31

-- The modes of a server, and their names
abbrev pub Mode : Type 0
Mode = ℤ

abbrev pub mode_unknown : Mode
mode_unknown = pos 0

abbrev pub mode_leader : Mode
mode_leader = pos 1

abbrev pub mode_follower : Mode
mode_follower = pos 2

abbrev pub mode_standalone : Mode
mode_standalone = pos 3

abbrev pub mode_names : List (ℤ × Bytes)
mode_names =
    (mode_leader, str "leader")
    ∷ (mode_follower, str "follower")
    ∷ (mode_standalone, str "standalone")
    ∷ []

unfoldable pub mode_string : Mode → Bytes
unfolding name_or
mode_string m = name_or m mode_names (str "unknown")
