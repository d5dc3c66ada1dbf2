-- ===== src/Tests/Codec.antt =====
-- The codec of zk/structs.go on concrete values.
use go_zookeeper.Base.{
  ◌≡◌, ◌≤◌, ℤ, pos, negsuc, refl, true, false, some, [], ◌∷◌, ◌++◌, arith, length, drop, replicate,
  str,
}
use go_zookeeper.Constants.{op_create, op_delete}
use go_zookeeper.Wire.{Slice, ok, panic, index_range, ◌>>=◌}
use go_zookeeper.Wire.Value.{
  MultiHeader, Kind, Value, string, int32, bytes, slice, struct, multi, nil, cons, no_ops, op,
}
use go_zookeeper.Wire.Structs.{
  path_response_type, path_watch_request_type, request_struct_for_op, find_struct,
}
use go_zookeeper.Wire.Encode.{encode_packet, count_values}
use go_zookeeper.Wire.Decode.{decode_packet, decode_value}
use go_zookeeper.Wire.Spec.{
  HasKind, is_int32, is_string, is_bytes, is_slice, is_struct, is_multi, no_items, more_items,
  no_fields, more_fields, last_op, more_ops, wire, wire_counted,
}
use go_zookeeper.Wire.Packets.{
  encode_packet-wire, decode-encode, decode_past_end, decode_bool_panics,
}
use go_zookeeper.Wire.Fuel.{Ensures, decode_value-Ensures}

abbrev acl_value : Value
acl_value =
    struct (cons (int32 (pos 31)) (cons (string (str "world")) (cons (string (str "anyone")) nil)))

abbrev create_value : Value
create_value = struct (
    cons (string (str "/a")) (
      cons (bytes (some (7 ∷ 255 ∷ [])))
        (cons (slice (cons acl_value nil)) (cons (int32 (pos 0)) nil))))

abbrev delete_value : Value
delete_value = struct (cons (string (str "/b")) (cons (int32 (negsuc 0)) nil))

abbrev header_for : ℤ → MultiHeader
header_for t = record { op_type = t; done = false; err_code = negsuc 0 }

abbrev last_header : MultiHeader
last_header = record { op_type = negsuc 0; done = true; err_code = negsuc 0 }

-- A transaction that creates one node and deletes another.
abbrev transaction : Value
transaction =
    multi (op (header_for op_create) create_value (op (header_for op_delete) delete_value no_ops))
      last_header

transaction-HasKind : HasKind Kind.multi transaction
unfolding request_struct_for_op find_struct count_values
transaction-HasKind =
    is_multi
      (more_ops (record { flag = refl; type_range = omega arith; err_range = omega arith }) refl
        (is_struct (
          more_fields (is_string (str "/a") (omega arith)) (
            more_fields (is_bytes (7 ∷ 255 ∷ []) (omega arith)) (
              more_fields
                (is_slice
                  (more_items
                    (is_struct (
                      more_fields (is_int32 (pos 31) (omega arith)) (
                        more_fields (is_string (str "world") (omega arith))
                          (more_fields (is_string (str "anyone") (omega arith)) no_fields))))
                    no_items)
                  (omega arith))
                (more_fields (is_int32 (pos 0) (omega arith)) no_fields)))))
        (more_ops (record { flag = refl; type_range = omega arith; err_range = omega arith }) refl
          (is_struct (
            more_fields (is_string (str "/b") (omega arith))
              (more_fields (is_int32 (negsuc 0) (omega arith)) no_fields)))
          last_op))
      (record { flag = refl; type_range = omega arith; err_range = omega arith })

abbrev buffer : Slice
buffer = record { len = 100; mem = replicate 100 0 }

transaction-room : length (wire transaction) ≤ 100
unfolding wire count_values
transaction-room = omega arith

encode_packet-wire_example :
    encode_packet transaction buffer
    ≡ ok (record {
      n = length (wire transaction);
      mem = wire transaction ++ drop (length (wire transaction)) buffer.mem;
    })
encode_packet-wire_example =
    encode_packet-wire buffer transaction-HasKind transaction-room transaction-room

decode-encode_example :
    (encode_packet transaction buffer >>= λ w.
    decode_packet Kind.multi (record { len = w.n; mem = w.mem }))
    ≡ ok (record { n = length (wire transaction); value = transaction })
decode-encode_example = decode-encode buffer transaction-HasKind transaction-room transaction-room

decode_value-Ensures_example : Ensures (λ r. r.n ≤ 100) (decode_value Kind.multi buffer)
decode_value-Ensures_example = decode_value-Ensures Kind.multi buffer

decode_past_end_example :
    decode_packet path_response_type
      (record { len = 0; mem = wire_counted (str "/old") ++ (9 ∷ []) })
    ≡ ok (record { n = 8; value = struct (cons (string (str "/old")) nil) })
decode_past_end_example = decode_past_end (str "/old") (9 ∷ []) 0 (omega arith)

decode_bool_panics_example :
    decode_packet path_watch_request_type
      (record { len = 6; mem = wire_counted (str "/a") ++ (1 ∷ []) })
    ≡ panic index_range
decode_bool_panics_example = decode_bool_panics (str "/a") (1 ∷ []) (omega arith)
