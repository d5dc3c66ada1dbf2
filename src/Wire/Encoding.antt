-- ===== src/Wire/Encoding.antt =====
-- What encodePacketValue of zk/structs.go writes, against the specification `wire`.
use go_zookeeper.Base.{
  ℕ, ◌+◌, ◌-◌, ◌≤◌, ◌≡◌, refl, ap, sym, ℤ, uint32, uint64, Bytes, Bool, true, false, [], ◌++◌,
  arith, length, take, drop, length-append, length-drop, length-take, take-append-drop,
  append_assoc, append-nil, lt→ltb, drop-append, take-append, drop-drop,
}
use native.Mathlib.Nat.{add_assoc, add-zero, zero-add}
use go_zookeeper.Wire.{Result, ok, Slice, slice_range, overwrite, be_bytes, ◌>>=◌}
use go_zookeeper.Wire.Value.{MultiHeader, Kind, Kinds, Value, Values, Ops}
use go_zookeeper.Wire.Encode.{
  Write, encode_bool, encode_int32, encode_int64, encode_counted, encode_nil, encode_after,
  encode_header, encode_op, encode_value, encode_values, encode_ops, count_values,
}
use go_zookeeper.Wire.Spec.{
  HasKind, HasItems, HasFields, HasOps, is_bool, is_int32, is_int64, is_string, is_nil, is_bytes,
  is_slice, is_struct, is_multi, no_items, more_items, no_fields, more_fields, last_op, more_ops,
  wire_bool, wire_counted, wire_header, wire, wire_values, wire_ops,
}
use go_zookeeper.Wire.Memory.{overwrite-eq, overwrite_front, slice_range_ok, slice_from_ok}

-- Into a slice with room, the encoder writes `w` over the front of the memory and nothing else.
abbrev pub Writes : (Slice → Result Write) → Bytes → Type 0
Writes e w =
    (s : Slice)
    → length w ≤ s.len
    → length w ≤ length s.mem
    → e s ≡ ok (record { n = length w; mem = w ++ drop (length w) s.mem })

encode_bool-Writes : (b : Bool) → Writes (encode_bool b) (wire_bool b)
unfolding encode_bool
encode_bool-Writes b s h k = rw (lt→ltb 0 s.len h, overwrite-eq (wire_bool b) s.mem k)

encode_int32-Writes : (z : ℤ) → Writes (encode_int32 z) (be_bytes 4 (uint32 z))
unfolding encode_int32
encode_int32-Writes z s h k =
    rw (slice_range_ok 0 4 s (omega arith) k, overwrite-eq (be_bytes 4 (uint32 z)) s.mem k)

encode_int64-Writes : (z : ℤ) → Writes (encode_int64 z) (be_bytes 8 (uint64 z))
unfolding encode_int64
encode_int64-Writes z s h k =
    rw (slice_range_ok 0 8 s (omega arith) k, overwrite-eq (be_bytes 8 (uint64 z)) s.mem k)

encode_nil-Writes : Writes encode_nil (be_bytes 4 0xffff_ffff)
unfolding encode_nil
encode_nil-Writes s h k =
    rw (slice_range_ok 0 4 s (omega arith) k, overwrite-eq (be_bytes 4 0xffff_ffff) s.mem k)

encode_counted-Writes : (bs : Bytes) → Writes (encode_counted bs) (wire_counted bs)
unfolding encode_counted
encode_counted-Writes bs s h k =
    let e : length (wire_counted bs) ≡ 4 + length bs = omega arith in
    let d = drop-drop 4 (length bs) s.mem in
    let head = overwrite-eq (be_bytes 4 (length bs)) s.mem (omega arith) in
    let room : 4 + length bs ≤ length s.mem = omega arith in
    let tail = overwrite-eq bs (drop 4 s.mem) (omega (arith, length-drop 4 s.mem)) in
    rw
      (
        e,
        slice_range_ok 0 4 s (omega arith) (omega arith),
        slice_range_ok 4 (4 + length bs) s (omega arith) room,
        head,
        tail,
        d,
      )
      (ap (λ k. ok (record { n = 4 + length bs; mem = wire_counted bs ++ drop k s.mem })) (sym e))

-- What `encode_after` writes behind the bytes `pre`.
pub encode_after-Writes :
    (e : Slice → Result Write) (w pre rest : Bytes) (n len : ℕ)
    → Writes e w
    → n ≡ length pre
    → n + length w ≤ len
    → length w ≤ length rest
    → encode_after n e (record { len = len; mem = pre ++ rest })
      ≡ ok (record { n = n + length w; mem = (pre ++ w) ++ drop (length w) rest })
unfolding encode_after
encode_after-Writes e w pre rest n len we hn hl hr =
    rw
      (
        slice_from_ok n (record { len = len; mem = pre ++ rest }) (omega arith),
        drop-append pre rest n hn,
        we (record { len = len - n; mem = rest }) (omega arith) hr,
        take-append pre rest n hn,
      )
      (rw append_assoc)

-- Three writes behind one another.
encode_header-Writes :
    (h : MultiHeader) → Writes (encode_header h) (wire_header h.op_type h.done h.err_code)
unfolding encode_header
encode_header-Writes h s a b =
    let t = be_bytes 4 (uint32 h.op_type) in
    let f = wire_bool h.done in
    let e = be_bytes 4 (uint32 h.err_code) in
    let l1 : 4 ≤ s.len = omega arith in
    let l2 : 4 ≤ length s.mem = omega arith in
    let l4 : 1 ≤ length (drop 4 s.mem) = omega (arith, length-drop 4 s.mem) in
    let l6 : 4 ≤ length (drop 1 (drop 4 s.mem)) =
      omega (arith, length-drop 4 s.mem, length-drop 1 (drop 4 s.mem)) in
    rw
      (
        encode_after-Writes (encode_int32 h.op_type) t [] s.mem 0 s.len
            (encode_int32-Writes h.op_type) refl l1 l2,
        encode_after-Writes (encode_bool h.done) f t (drop 4 s.mem) 4 s.len
            (encode_bool-Writes h.done) refl (omega arith) l4,
        encode_after-Writes (encode_int32 h.err_code) e (t ++ f) (drop 1 (drop 4 s.mem)) 5 s.len
            (encode_int32-Writes h.err_code) refl a l6,
      )
      (rw (drop-drop 4 1 s.mem, drop-drop 5 4 s.mem))

-- The loop over values, behind the bytes `pre`.
abbrev WritesFrom : (ℕ → Slice → Result Write) → Bytes → Type 0
WritesFrom e w =
    (pre rest : Bytes) (n len : ℕ)
    → n ≡ length pre
    → n + length w ≤ len
    → length w ≤ length rest
    → e n (record { len = len; mem = pre ++ rest })
      ≡ ok (record { n = n + length w; mem = (pre ++ w) ++ drop (length w) rest })

nothing-WritesFrom : WritesFrom (λ n s. ok (record { n = n; mem = s.mem })) []
nothing-WritesFrom pre rest n len hn hl hr = rw (add-zero n, append-nil pre)

-- A write of `w` and then a loop that writes `ws`.
WritesFrom-then :
    (e : Slice → Result Write) (f : ℕ → Slice → Result Write) (w ws : Bytes)
    → Writes e w
    → WritesFrom f ws
    → WritesFrom (λ n s. encode_after n e s >>= λ r. f r.n (record s { mem = r.mem })) (w ++ ws)
WritesFrom-then e f w ws he hf pre rest n len hn hl hr =
    let lw = length-append w ws in
    let l1 : n + length w ≤ len = omega arith in
    let l2 : length w ≤ length rest = omega arith in
    let l3 : n + length w ≡ length (pre ++ w) = omega (arith, length-append pre w) in
    let l4 : n + length w + length ws ≤ len = omega arith in
    let l5 : length ws ≤ length (drop (length w) rest) =
      omega (arith, length-drop (length w) rest) in
    rw
      (
        encode_after-Writes e w pre rest n len he hn l1 l2,
        hf (pre ++ w) (drop (length w) rest) (n + length w) len l3 l4 l5,
      )
      (rw (
        drop-drop (length w) (length ws) rest,
        lw,
        append_assoc pre w ws,
        add_assoc n (length w) (length ws),
      ))

-- A loop from the front, and behind it one more write.
loop-Writes :
    (f : ℕ → Slice → Result Write) (e : Slice → Result Write) (w ws : Bytes)
    → WritesFrom f w
    → Writes e ws
    → Writes (λ s. f 0 s >>= λ r. encode_after r.n e (record s { mem = r.mem })) (w ++ ws)
loop-Writes f e w ws hf he s a b =
    let lw = length-append w ws in
    let l1 : 0 + length w ≤ s.len = omega arith in
    let l2 : length w ≤ length s.mem = omega arith in
    let l3 : 0 + length w ≡ length w = omega arith in
    let l4 : 0 + length w + length ws ≤ s.len = omega arith in
    let l5 : length ws ≤ length (drop (length w) s.mem) =
      omega (arith, length-drop (length w) s.mem) in
    rw
      (
        hf [] s.mem 0 s.len refl l1 l2,
        encode_after-Writes e ws w (drop (length w) s.mem) (0 + length w) s.len he l3 l4 l5,
      )
      (rw (l3, lw, drop-drop (length w) (length ws) s.mem))

from_front : (f : ℕ → Slice → Result Write) (w : Bytes) → WritesFrom f w → Writes (f 0) w
from_front f w hf s a b =
    let l1 : 0 + length w ≤ s.len = omega arith in
    rw (hf [] s.mem 0 s.len refl l1 b) (rw (zero-add (length w)))

encode_op-Writes :
    (h : MultiHeader) (e : Slice → Result Write) (w : Bytes)
    → Writes e w
    → Writes (encode_op h e) (wire_header h.op_type false h.err_code ++ w)
unfolding encode_op
encode_op-Writes h e w he =
    let h' = record h { done = false } in
    loop-Writes (λ n. encode_after n (encode_header h')) e (wire_header h.op_type false h.err_code)
      w
      (λ pre rest n len.
        encode_after-Writes (encode_header h') (wire_header h.op_type false h.err_code) pre rest n
          len (encode_header-Writes h'))
      he

-- The count goes over the four bytes that the loop left out.
slice-Writes :
    (f : ℕ → Slice → Result Write) (c : ℕ) (w : Bytes)
    → WritesFrom f w
    → Writes
        (λ s. f 4 s >>= λ r.
          slice_range 0 4 s >>= λ _. ok (record { n = r.n; mem = overwrite (be_bytes 4 c) r.mem }))
        (be_bytes 4 c ++ w)
slice-Writes f c w hf s a b =
    let e : length (be_bytes 4 c ++ w) ≡ 4 + length w = omega arith in
    let l1 : 4 ≡ length (take 4 s.mem) = omega (arith, length-take 4 s.mem) in
    let l2 : 4 + length w ≤ s.len = omega arith in
    let l3 : length w ≤ length (drop 4 s.mem) = omega (arith, length-drop 4 s.mem) in
    let loop =
      rw (take-append-drop 4 s.mem) at (hf (take 4 s.mem) (drop 4 s.mem) 4 s.len l1 l2 l3) in
    rw
      (
        loop,
        slice_range_ok 0 4 s (omega arith) (omega arith),
        append_assoc (take 4 s.mem) w (drop (length w) (drop 4 s.mem)),
        overwrite_front (be_bytes 4 c) (take 4 s.mem) (w ++ drop (length w) (drop 4 s.mem)) l1,
        drop-drop 4 (length w) s.mem,
        e,
      )
      (ap (λ k. ok (record { n = 4 + length w; mem = (be_bytes 4 c ++ w) ++ drop k s.mem }))
        (sym e))

mutual
  unfolding encode_value wire

  pub encode_value-Writes : {k : Kind} {v : Value} → HasKind k v → Writes (encode_value v) (wire v)
  encode_value-Writes (is_bool b) = encode_bool-Writes b
  encode_value-Writes (is_int32 z _) = encode_int32-Writes z
  encode_value-Writes (is_int64 z _) = encode_int64-Writes z
  encode_value-Writes (is_string bs _) = encode_counted-Writes bs
  encode_value-Writes is_nil = encode_nil-Writes
  encode_value-Writes (is_bytes bs _) = encode_counted-Writes bs
  encode_value-Writes (is_slice {vs = vs} hs _) =
      slice-Writes (encode_values vs) (count_values vs) (wire_values vs)
        (encode_items-WritesFrom hs)
  encode_value-Writes (is_struct {vs = vs} hs) =
      from_front (encode_values vs) (wire_values vs) (encode_fields-WritesFrom hs)
  encode_value-Writes (is_multi {os = os} {d = d} hs _) =
      loop-Writes (encode_ops os) (encode_header (record d { done = true })) (wire_ops os) _
        (encode_ops-WritesFrom hs) (encode_header-Writes (record d { done = true }))

  encode_items-WritesFrom :
      {k : Kind} {vs : Values} → HasItems k vs → WritesFrom (encode_values vs) (wire_values vs)
  encode_items-WritesFrom no_items = nothing-WritesFrom
  encode_items-WritesFrom (more_items {v = v} {vs = vs} h hs) =
      WritesFrom-then (encode_value v) (encode_values vs) (wire v) (wire_values vs)
        (encode_value-Writes h) (encode_items-WritesFrom hs)

  encode_fields-WritesFrom :
      {ks : Kinds} {vs : Values} → HasFields ks vs → WritesFrom (encode_values vs) (wire_values vs)
  encode_fields-WritesFrom no_fields = nothing-WritesFrom
  encode_fields-WritesFrom (more_fields {v = v} {vs = vs} h hs) =
      WritesFrom-then (encode_value v) (encode_values vs) (wire v) (wire_values vs)
        (encode_value-Writes h) (encode_fields-WritesFrom hs)

  encode_ops-WritesFrom : {os : Ops} → HasOps os → WritesFrom (encode_ops os) (wire_ops os)
  encode_ops-WritesFrom last_op = nothing-WritesFrom
  encode_ops-WritesFrom (more_ops {h = h} {v = v} {os = os} _ _ hv hs) =
      WritesFrom-then (encode_op h (encode_value v)) (encode_ops os)
        (wire_header h.op_type false h.err_code ++ wire v) (wire_ops os)
        (encode_op-Writes h (encode_value v) (wire v) (encode_value-Writes hv))
        (encode_ops-WritesFrom hs)
