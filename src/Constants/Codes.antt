-- ===== src/Constants/Codes.antt =====
-- The integer constants of zk/constants.go: operations, events, states, flags and error codes.
use go_zookeeper.Base.{ℤ, pos, negsuc}

abbrev pub op_notify : ℤ
op_notify = pos 0

abbrev pub op_create : ℤ
op_create = pos 1

abbrev pub op_delete : ℤ
op_delete = pos 2

abbrev pub op_exists : ℤ
op_exists = pos 3

abbrev pub op_get_data : ℤ
op_get_data = pos 4

abbrev pub op_set_data : ℤ
op_set_data = pos 5

abbrev pub op_get_acl : ℤ
op_get_acl = pos 6

abbrev pub op_set_acl : ℤ
op_set_acl = pos 7

abbrev pub op_get_children : ℤ
op_get_children = pos 8

abbrev pub op_sync : ℤ
op_sync = pos 9

abbrev pub op_ping : ℤ
op_ping = pos 11

abbrev pub op_get_children2 : ℤ
op_get_children2 = pos 12

abbrev pub op_check : ℤ
op_check = pos 13

abbrev pub op_multi : ℤ
op_multi = pos 14

abbrev pub op_reconfig : ℤ
op_reconfig = pos 16

abbrev pub op_close : ℤ
op_close = negsuc 10

abbrev pub op_set_auth : ℤ
op_set_auth = pos 100

abbrev pub op_set_watches : ℤ
op_set_watches = pos 101

abbrev pub op_error : ℤ
op_error = negsuc 0

abbrev pub op_watcher_event : ℤ
op_watcher_event = negsuc 1

abbrev pub event_node_created : ℤ
event_node_created = pos 1

abbrev pub event_node_deleted : ℤ
event_node_deleted = pos 2

abbrev pub event_node_data_changed : ℤ
event_node_data_changed = pos 3

abbrev pub event_node_children_changed : ℤ
event_node_children_changed = pos 4

abbrev pub event_session : ℤ
event_session = negsuc 0

abbrev pub event_not_watching : ℤ
event_not_watching = negsuc 1

abbrev pub state_unknown : ℤ
state_unknown = negsuc 0

abbrev pub state_disconnected : ℤ
state_disconnected = pos 0

abbrev pub state_connecting : ℤ
state_connecting = pos 1

abbrev pub state_auth_failed : ℤ
state_auth_failed = pos 4

abbrev pub state_connected_read_only : ℤ
state_connected_read_only = pos 5

abbrev pub state_sasl_authenticated : ℤ
state_sasl_authenticated = pos 6

abbrev pub state_expired : ℤ
state_expired = negsuc 111

abbrev pub state_connected : ℤ
state_connected = pos 100

abbrev pub state_has_session : ℤ
state_has_session = pos 101

abbrev pub flag_ephemeral : ℤ
flag_ephemeral = pos 1

abbrev pub flag_sequence : ℤ
flag_sequence = pos 2

abbrev pub err_system_error : ℤ
err_system_error = negsuc 0

abbrev pub err_runtime_inconsistency : ℤ
err_runtime_inconsistency = negsuc 1

abbrev pub err_data_inconsistency : ℤ
err_data_inconsistency = negsuc 2

abbrev pub err_connection_loss : ℤ
err_connection_loss = negsuc 3

abbrev pub err_marshalling_error : ℤ
err_marshalling_error = negsuc 4

abbrev pub err_unimplemented : ℤ
err_unimplemented = negsuc 5

abbrev pub err_operation_timeout : ℤ
err_operation_timeout = negsuc 6

abbrev pub err_bad_arguments : ℤ
err_bad_arguments = negsuc 7

abbrev pub err_invalid_state : ℤ
err_invalid_state = negsuc 8

abbrev pub err_apierror : ℤ
err_apierror = negsuc 99

abbrev pub err_no_node : ℤ
err_no_node = negsuc 100

abbrev pub err_no_auth : ℤ
err_no_auth = negsuc 101

abbrev pub err_bad_version : ℤ
err_bad_version = negsuc 102

abbrev pub err_no_children_for_ephemerals : ℤ
err_no_children_for_ephemerals = negsuc 107

abbrev pub err_node_exists : ℤ
err_node_exists = negsuc 109

abbrev pub err_not_empty : ℤ
err_not_empty = negsuc 110

abbrev pub err_session_expired : ℤ
err_session_expired = negsuc 111

abbrev pub err_invalid_callback : ℤ
err_invalid_callback = negsuc 112

abbrev pub err_invalid_acl : ℤ
err_invalid_acl = negsuc 113

abbrev pub err_auth_failed : ℤ
err_auth_failed = negsuc 114

abbrev pub err_closing : ℤ
err_closing = negsuc 115

abbrev pub err_nothing : ℤ
err_nothing = negsuc 116

abbrev pub err_session_moved : ℤ
err_session_moved = negsuc 117

abbrev pub err_zreconfig_disabled : ℤ
err_zreconfig_disabled = negsuc 122
