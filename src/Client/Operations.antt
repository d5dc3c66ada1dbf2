-- ===== src/Client/Operations.antt =====
-- The packet of Multi in zk/conn.go is of the type that requestStructForOp has for its opcode.
use go_zookeeper.Base.{◌≡◌, refl, IsInt32, ℤ, pos, negsuc, List, [], ◌∷◌, All, arith, true, some}
use go_zookeeper.Constants.{op_multi}
use go_zookeeper.Wire.{Result, ok, err, panic, ◌>>=◌}
use go_zookeeper.Wire.Value.{Kind, Value, Ops, multi, other, op, no_ops}
use go_zookeeper.Wire.Structs.{
  request_struct_for_op, find_struct, create_request_type, set_data_request_type,
  path_version_request_type,
}
use go_zookeeper.Wire.Spec.{HasKind, HasOps, last_op, more_ops, is_multi}
use go_zookeeper.Client.Multi.{
  Operation, create_request, set_data_request, delete_request, check_version_request, other_request,
  op_code, op_header, request_of, multi_ops, multi_request,
}

abbrev pub request_type : Operation → Kind
request_type (create_request path dat acl flags) = create_request_type
request_type (set_data_request path dat version) = set_data_request_type
request_type (delete_request path version) = path_version_request_type
request_type (check_version_request path version) = path_version_request_type
request_type other_request = other

-- The fields of an operation are values of their types.
abbrev pub IsOperation : Operation → Type 0
IsOperation o = HasKind (request_type o) (request_of o)

op_code-HasKind :
    (o : Operation) (code : ℤ)
    → op_code o ≡ ok code
    → (request_struct_for_op code ≡ some (request_type o)) × IsInt32 code
unfolding op_code request_struct_for_op find_struct
op_code-HasKind (create_request path dat acl flags) code e =
    let same : pos 1 ≡ code = cc in rw (← same) (refl, omega arith)
op_code-HasKind (set_data_request path dat version) code e =
    let same : pos 5 ≡ code = cc in rw (← same) (refl, omega arith)
op_code-HasKind (delete_request path version) code e =
    let same : pos 2 ≡ code = cc in rw (← same) (refl, omega arith)
op_code-HasKind (check_version_request path version) code e =
    let same : pos 13 ≡ code = cc in rw (← same) (refl, omega arith)
op_code-HasKind other_request code e = cc

multi_ops-HasOps :
    (os : List Operation) (ops : Ops) → All IsOperation os → multi_ops os ≡ ok ops → HasOps ops
unfolding multi_ops
multi_ops-HasOps [] ops h e = let same : no_ops ≡ ops = cc in rw (← same) last_op
multi_ops-HasOps (o ∷ os) ops h e =
    by_code (multi_ops-HasOps os) (op_code o) (multi_ops os) refl refl e
  where
    by_code :
        ((rest : Ops) → All IsOperation os → multi_ops os ≡ ok rest → HasOps rest)
        → (r : Result ℤ) (q : Result Ops) → op_code o ≡ r
        → multi_ops os ≡ q
        → (r >>= λ code. q >>= λ rest. ok (op (op_header code) (request_of o) rest)) ≡ ok ops
        → HasOps ops
    by_code i (err x) q c m k = cc
    by_code i (panic x) q c m k = cc
    by_code i (ok code) (err x) c m k = cc
    by_code i (ok code) (panic x) c m k = cc
    by_code i (ok code) (ok rest) c m k =
        let (known, small) = op_code-HasKind o code c in
        let same : op (op_header code) (request_of o) rest ≡ ops = cc in
        rw (← same) (
          more_ops (record { flag = refl; type_range = small; err_range = omega arith }) known h.0
            (i rest h.1 m))

pub multi_request-HasKind :
    (os : List Operation) (pkt : Value)
    → All IsOperation os
    → multi_request os ≡ ok pkt
    → (s : Kind) × (request_struct_for_op op_multi ≡ some s) × HasKind s pkt
unfolding multi_request request_struct_for_op find_struct
multi_request-HasKind os pkt h e = by_ops (multi_ops os) refl e
  where
    by_ops :
        (q : Result Ops)
        → multi_ops os ≡ q
        → (q >>= λ ops.
            ok (multi ops (record { op_type = negsuc 0; done = true; err_code = negsuc 0 })))
          ≡ ok pkt
        → (s : Kind) × (request_struct_for_op op_multi ≡ some s) × HasKind s pkt
    by_ops (err x) m k = cc
    by_ops (panic x) m k = cc
    by_ops (ok ops) m k =
        let same : multi ops (record { op_type = negsuc 0; done = true; err_code = negsuc 0 })
            ≡ pkt =
          cc in
        (
          multi,
          refl,
          rw (← same) (
              is_multi (multi_ops-HasOps os ops h m)
                (record { flag = refl; type_range = omega arith; err_range = omega arith })),
        )
