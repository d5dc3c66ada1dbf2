-- ===== src/Wire/RoundTrip.antt =====
-- The reflective codec of zk/structs.go against its specification: every value of a type is read back
-- from the bytes that stand for it, and written to them.
use go_zookeeper.Base.{
  ℕ, zero, suc, ◌+◌, ◌-◌, ◌≤◌, ◌<◌, ◌≡◌, ap, Bytes, true, false, some, [], ◌++◌, arith, length,
  length-append, append_assoc, drop-append,
}
use go_zookeeper.Wire.{ok, Slice}
use go_zookeeper.Wire.Value.{MultiHeader, Kind, Kinds, Value, Values, Ops}
use go_zookeeper.Wire.Structs.{request_struct_for_op}
use go_zookeeper.Wire.Encode.{count_values, encode_value}
use go_zookeeper.Wire.Decode.{
  map_read, decode_items, decode_with, decode_fields, Multi, decode_ops, decode_multi, add_op,
}
use go_zookeeper.Wire.Spec.{
  wire_header, wire, wire_values, wire_ops, IsHeader, HasKind, HasItems, HasFields, HasOps, is_bool,
  is_int32, is_int64, is_string, is_nil, is_bytes, is_slice, is_struct, is_multi, no_items,
  more_items, no_fields, more_fields, last_op, more_ops,
}
use go_zookeeper.Wire.Memory.{slice_from_ok}
use go_zookeeper.Base.{uint32-lt, uint64-lt, to_int32-uint32, to_int64-uint64, uint32, uint64}
use go_zookeeper.Wire.Decoding.{
  Reads, ReadsFrom, decode_bool-Reads, read_uint32_lem, read_uint64_lem, decode_header-Reads,
  cons-ReadsFrom, from_front, string-Reads, nil-Reads, bytes-Reads, slice-Reads,
}

nothing-ReadsFrom : {A : Type 0} (a : A) → ReadsFrom (λ n s. ok (record { n = n; value = a })) [] a
nothing-ReadsFrom a pre rest n len hn hl = ap (λ k. ok (record { n = k; value = a })) (omega arith)

-- The last round of multiRequest.Decode: a header that says that no operation follows.
last-ReadsFrom :
    (f : ℕ) {d : MultiHeader}
    → IsHeader true d
    → ReadsFrom
        (decode_ops (suc f))
        (wire_header d.op_type true d.err_code)
        (record { ops = Ops.no_ops; done_header = d })
unfolding decode_ops
last-ReadsFrom f {d} i pre rest n len hn hl =
    let w = wire_header d.op_type true d.err_code in
    rw
      (
        slice_from_ok n (record { len = len; mem = pre ++ (w ++ rest) }) (omega arith),
        drop-append pre (w ++ rest) n hn,
        decode_header-Reads i rest (len - n) (omega arith),
        i.flag,
      )
      (ap
        (λ b. ok (record {
          n = n + 9;
          value = record { ops = Ops.no_ops; done_header = record d { done = b } };
        }))
        i.flag)

-- Any other round.
op-ReadsFrom :
    (f : ℕ) {h : MultiHeader} {k : Kind} (v : Value) (w ws : Bytes) (m : Multi)
    → IsHeader false h
    → request_struct_for_op h.op_type ≡ some k
    → Reads (decode_with (decode_multi f) k) w v
    → ReadsFrom (decode_ops f) ws m
    → ReadsFrom
        (decode_ops (suc f))
        (wire_header h.op_type false h.err_code ++ (w ++ ws))
        (add_op h v m)
unfolding decode_ops decode_multi map_read
op-ReadsFrom f {h} {k} v w ws m i hk hv hm pre rest n len hn hl =
    let hd = wire_header h.op_type false h.err_code in
    let tail = w ++ (ws ++ rest) in
    let s : Slice = record { len = len; mem = pre ++ (hd ++ tail) } in
    let lw = length-append w ws in
    let l1 : n ≤ len = omega arith in
    let l2 : 9 ≤ len - n = omega arith in
    let l3 : n + 9 ≤ len = omega arith in
    let l4 : n + 9 ≡ length (pre ++ hd) = omega (arith, length-append pre hd) in
    let l5 : length w ≤ len - (n + 9) = omega arith in
    let l6 : n + 9 + length w ≡ length ((pre ++ hd) ++ w) =
      omega (arith, length-append (pre ++ hd) w) in
    let l7 : n + 9 + length w + length ws ≤ len = omega arith in
    let count : n + 9 + length w + length ws ≡ n + length (hd ++ (w ++ ws)) = omega arith in
    let assoc = append_assoc pre hd tail in
    let cut = rw assoc at (drop-append (pre ++ hd) tail (n + 9) l4) in
    let more =
      rw (append_assoc (pre ++ hd) w (ws ++ rest), assoc) at
        (hm ((pre ++ hd) ++ w) rest (n + 9 + length w) len l6 l7) in
    rw
      (
        append_assoc w ws rest,
        slice_from_ok n s l1,
        drop-append pre (hd ++ tail) n hn,
        decode_header-Reads i tail (len - n) l2,
        i.flag,
        hk,
        append_assoc w ws rest,
        slice_from_ok (n + 9) s l3,
        cut,
        hv (ws ++ rest) (len - (n + 9)) l5,
        more,
      )
      (rw count (
        ap
          (λ b. ok (record {
            n = n + length (hd ++ (w ++ ws));
            value = add_op (record h { done = b }) v m;
          }))
          i.flag))

mutual
  unfolding decode_with wire decode_items decode_multi map_read encode_value

  pub decode_value-Reads :
      {k : Kind} {v : Value}
      → HasKind k v
      → (f : ℕ) → length (wire v) < f
      → Reads (decode_with (decode_multi f) k) (wire v) v
  decode_value-Reads (is_bool b) f lt = λ rest len l. rw (decode_bool-Reads b rest len l)
  decode_value-Reads (is_int32 z r) f lt =
      λ rest len l. rw (read_uint32_lem (uint32 z) rest len (uint32-lt z), to_int32-uint32 z r)
  decode_value-Reads (is_int64 z r) f lt =
      λ rest len l. rw (read_uint64_lem (uint64 z) rest len (uint64-lt z), to_int64-uint64 z r)
  decode_value-Reads (is_string bs l) f lt = string-Reads bs l
  decode_value-Reads is_nil f lt = nil-Reads
  decode_value-Reads (is_bytes bs l) f lt = bytes-Reads bs l
  decode_value-Reads (is_slice {k = k} {vs = vs} hs l) f lt =
      slice-Reads (decode_items (decode_with (decode_multi f) k)) vs (count_values vs)
        (wire_values vs) l (decode_items-ReadsFrom hs f (omega arith))
  decode_value-Reads (is_struct {ks = ks} {vs = vs} hs) f lt = λ rest len l. rw (
      from_front (decode_fields (decode_multi f) ks) (wire_values vs) vs
        (decode_fields-ReadsFrom hs f lt) rest len l)
  decode_value-Reads (is_multi {os = os} {d = d} hs i) f lt =
      λ rest len l. rw (from_front (decode_ops f) _ _ (decode_ops-ReadsFrom hs i f lt) rest len l)

  decode_items-ReadsFrom :
      {k : Kind} {vs : Values}
      → HasItems k vs
      → (f : ℕ) → length (wire_values vs) < f
      → ReadsFrom
          (decode_items (decode_with (decode_multi f) k) (count_values vs))
          (wire_values vs)
          vs
  decode_items-ReadsFrom no_items f lt = nothing-ReadsFrom Values.nil
  decode_items-ReadsFrom (more_items {k = k} {v = v} {vs = vs} h hs) f lt =
      let lw = length-append (wire v) (wire_values vs) in
      cons-ReadsFrom (decode_with (decode_multi f) k)
        (decode_items (decode_with (decode_multi f) k) (count_values vs)) (wire v) (wire_values vs)
        v vs (decode_value-Reads h f (omega arith)) (decode_items-ReadsFrom hs f (omega arith))

  decode_fields-ReadsFrom :
      {ks : Kinds} {vs : Values}
      → HasFields ks vs
      → (f : ℕ) → length (wire_values vs) < f
      → ReadsFrom (decode_fields (decode_multi f) ks) (wire_values vs) vs
  decode_fields-ReadsFrom no_fields f lt = nothing-ReadsFrom Values.nil
  decode_fields-ReadsFrom (more_fields {k = k} {ks = ks} {v = v} {vs = vs} h hs) f lt =
      let lw = length-append (wire v) (wire_values vs) in
      cons-ReadsFrom (decode_with (decode_multi f) k) (decode_fields (decode_multi f) ks) (wire v)
        (wire_values vs) v vs (decode_value-Reads h f (omega arith))
        (decode_fields-ReadsFrom hs f (omega arith))

  decode_ops-ReadsFrom :
      {os : Ops} {d : MultiHeader}
      → HasOps os
      → IsHeader true d
      → (f : ℕ) → length (wire_ops os ++ wire_header d.op_type true d.err_code) < f
      → ReadsFrom
          (decode_ops f)
          (wire_ops os ++ wire_header d.op_type true d.err_code)
          (record { ops = os; done_header = d })
  decode_ops-ReadsFrom hs i zero lt = absurd (omega arith)
  decode_ops-ReadsFrom last_op i (suc f) lt = last-ReadsFrom f i
  decode_ops-ReadsFrom {d = d} (more_ops {h = h} {v = v} {os = os} ih hk hv hs) i (suc f) lt =
      let hd = wire_header d.op_type true d.err_code in
      let lw = length-append (wire v) (wire_ops os ++ hd) in
      let assoc = append_assoc (wire v) (wire_ops os) hd in
      rw assoc (
        op-ReadsFrom f v (wire v) (wire_ops os ++ hd) (record { ops = os; done_header = d }) ih hk
          (decode_value-Reads hv f (omega (arith, ap length assoc)))
          (decode_ops-ReadsFrom hs i f (omega (arith, ap length assoc))))
