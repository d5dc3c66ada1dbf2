-- ===== src/Client/Multi.antt =====
-- Multi of zk/conn.go: the request that it builds, and the results that it returns for a response.
use go_zookeeper.Base.{ℤ, negsuc, Bytes, false, true, Option, List, [], ◌∷◌}
use go_zookeeper.Constants.{
  Error, unknown_operation, op_create, op_set_data, op_delete, op_check, to_error,
}
use go_zookeeper.Wire.{Result, ok, err, ◌>>=◌}
use go_zookeeper.Wire.Value.{
  MultiHeader, Value, Ops, int32, string, bytes, slice, struct, multi, nil, cons, no_ops, op,
}
use go_zookeeper.Wire.Response.{MultiResponseOp}
use go_zookeeper.Client.Calls.{Acl, acl_values}

-- An operation that the caller passes; `other_request` is a value of any other type.
pub data Operation : Type 0 where
  create_request : Bytes → Option Bytes → List Acl → ℤ → Operation
  set_data_request : Bytes → Option Bytes → ℤ → Operation
  delete_request : Bytes → ℤ → Operation
  check_version_request : Bytes → ℤ → Operation
  other_request : Operation

-- The switch on the type of an operation: its opcode, or the error that Multi returns.
unfoldable pub op_code : Operation → Result ℤ
op_code (create_request path dat acl flags) = ok op_create
op_code (set_data_request path dat version) = ok op_set_data
op_code (delete_request path version) = ok op_delete
op_code (check_version_request path version) = ok op_check
op_code other_request = err unknown_operation

abbrev pub request_of : Operation → Value
request_of (create_request path dat acl flags) =
    struct (
      cons (string path)
        (cons (bytes dat) (cons (slice (acl_values acl)) (cons (int32 flags) nil))))
request_of (set_data_request path dat version) =
    struct (cons (string path) (cons (bytes dat) (cons (int32 version) nil)))
request_of (delete_request path version) = struct (cons (string path) (cons (int32 version) nil))
request_of (check_version_request path version) =
    struct (cons (string path) (cons (int32 version) nil))
request_of other_request = Value.other

-- multiHeader{opCode, false, -1}
abbrev pub op_header : ℤ → MultiHeader
op_header o = record { op_type = o; done = false; err_code = negsuc 0 }

unfoldable pub multi_ops : List Operation → Result Ops
unfolding op_code
multi_ops [] = ok no_ops
multi_ops (o ∷ os) = do
  code ← op_code o
  rest ← multi_ops os
  ok (op (op_header code) (request_of o) rest)

unfoldable pub multi_request : List Operation → Result Value
unfolding multi_ops
multi_request os = multi_ops os >>= λ ops.
    ok (multi ops (record { op_type = negsuc 0; done = true; err_code = negsuc 0 }))

-- MultiResponse, with the Stat as the value of its struct
pub record MultiResponse : Type 0 where
  pub stat : Option Value
  pub string : Bytes
  pub err : Option Error

unfoldable pub multi_results : List MultiResponseOp → List MultiResponse
multi_results [] = []
multi_results (o ∷ os) =
    record { stat = o.stat; string = o.string; err = to_error o.err } ∷ multi_results os
