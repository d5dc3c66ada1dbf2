-- ===== src/Wire/Decoding.antt =====
-- What decodePacketValue of zk/structs.go reads back from the bytes of the specification.
use go_zookeeper.Base.{
  ℕ, ◌+◌, ◌-◌, ◌^◌, ◌≤◌, ◌<◌, ◌≡◌, refl, ap, sym, uint32, to_int32, uint32-lt, to_int32-uint32,
  is_neg, Bytes, Bool, true, false, none, some, [], ◌++◌, arith, length, length-append,
  append_assoc, lt→ltb, drop-append, take-append,
}
use native.Mathlib.Nat.{add_assoc, zero-add}
use go_zookeeper.Wire.{Result, ok, Slice, slice_from, be_bytes, ◌>>=◌}
use go_zookeeper.Wire.Value.{MultiHeader, Value, Values, string, bytes, slice, cons}
use go_zookeeper.Wire.Decode.{
  Read, decode_bool, read_uint32, read_uint64, read_counted, map_read, decode_bytes, decode_header,
}
use go_zookeeper.Wire.Spec.{wire_bool, wire_counted, wire_header, IsHeader}
use go_zookeeper.Wire.Memory.{slice_range_ok, slice_from_ok, be_value32, be_value64}

-- At the front of any memory that begins with `w`, in a slice that shows at least `w`, `d` reads `a`.
abbrev pub Reads {ℓ} : {A : Type ℓ} → (Slice → Result (Read A)) → Bytes → A → Type ℓ
Reads d w a =
    (rest : Bytes) (len : ℕ)
    → length w ≤ len
    → d (record { len = len; mem = w ++ rest }) ≡ ok (record { n = length w; value = a })

pub decode_bool-Reads : (b : Bool) → Reads decode_bool (wire_bool b) b
unfolding decode_bool
decode_bool-Reads true rest len h = rw (lt→ltb 0 len h)
decode_bool-Reads false rest len h = rw (lt→ltb 0 len h)

pub read_uint32_lem :
    (w : ℕ) (rest : Bytes) (len : ℕ)
    → w < 2 ^ 32
    → read_uint32 (record { len = len; mem = be_bytes 4 w ++ rest }) ≡ ok w
unfolding read_uint32
read_uint32_lem w rest len h =
    rw
      (slice_range_ok 0 4 (record { len = len; mem = be_bytes 4 w ++ rest }) (omega arith)
        (omega arith))
      (ap ok (be_value32 w h))

pub read_uint64_lem :
    (w : ℕ) (rest : Bytes) (len : ℕ)
    → w < 2 ^ 64
    → read_uint64 (record { len = len; mem = be_bytes 8 w ++ rest }) ≡ ok w
unfolding read_uint64
read_uint64_lem w rest len h =
    rw
      (slice_range_ok 0 8 (record { len = len; mem = be_bytes 8 w ++ rest }) (omega arith)
        (omega arith))
      (ap ok (be_value64 w h))

pub read_counted_lem :
    (w : ℕ) (bs rest : Bytes) (len : ℕ)
    → read_counted (length bs) (record { len = len; mem = be_bytes 4 w ++ (bs ++ rest) })
      ≡ ok (record { n = 4 + length bs; value = bs })
unfolding read_counted
read_counted_lem w bs rest len =
    let e : 4 + length bs - 4 ≡ length bs = omega arith in
    rw (
      slice_range_ok 4 (4 + length bs) (record { len = len; mem = be_bytes 4 w ++ (bs ++ rest) })
          (omega arith) (omega (arith, length-append bs rest)),
      take-append bs rest (4 + length bs - 4) e,
    )

pub decode_header-Reads :
    {d : Bool} {h : MultiHeader}
    → IsHeader d h
    → Reads decode_header (wire_header h.op_type d h.err_code) h
unfolding decode_header
decode_header-Reads {d} {h} i rest len r =
    let t = be_bytes 4 (uint32 h.op_type) in
    let e = be_bytes 4 (uint32 h.err_code) in
    let w = wire_header h.op_type d h.err_code in
    rw
      (
        slice_from_ok 0 (record { len = len; mem = w ++ rest }) (omega arith),
        read_uint32_lem (uint32 h.op_type) ((wire_bool d ++ e) ++ rest) (len - 0)
            (uint32-lt h.op_type),
        slice_from_ok 4 (record { len = len; mem = w ++ rest }) (omega arith),
        decode_bool-Reads d (e ++ rest) (len - 4) (omega arith),
        slice_from_ok 5 (record { len = len; mem = w ++ rest }) (omega arith),
        read_uint32_lem (uint32 h.err_code) rest (len - 5) (uint32-lt h.err_code),
        to_int32-uint32 h.op_type i.type_range,
        to_int32-uint32 h.err_code i.err_range,
      )
      (ap (λ b. ok (record { n = 9; value = record h { done = b } })) (sym i.flag))

-- The same for a loop that has `n` bytes behind it.
abbrev pub ReadsFrom {ℓ} : {A : Type ℓ} → (ℕ → Slice → Result (Read A)) → Bytes → A → Type ℓ
ReadsFrom d w a =
    (pre rest : Bytes) (n len : ℕ)
    → n ≡ length pre
    → n + length w ≤ len
    → d n (record { len = len; mem = pre ++ (w ++ rest) })
      ≡ ok (record { n = n + length w; value = a })

-- The round of both loops of decodePacketValue: one value, and then the others.
pub cons-ReadsFrom :
    (d : Slice → Result (Read Value)) (f : ℕ → Slice → Result (Read Values)) (w ws : Bytes)
    (v : Value) (vs : Values)
    → Reads d w v
    → ReadsFrom f ws vs
    → ReadsFrom
        (λ n s. slice_from n s >>= λ sub. d sub >>= λ r.
          f (n + r.n) s >>= λ q. ok (record { n = q.n; value = cons r.value q.value }))
        (w ++ ws)
        (cons v vs)
cons-ReadsFrom d f w ws v vs hd hf pre rest n len hn hl =
    let lw = length-append w ws in
    let l1 : n ≤ len = omega arith in
    let l2 : length w ≤ len - n = omega arith in
    let l3 : n + length w ≡ length (pre ++ w) = omega (arith, length-append pre w) in
    let l4 : n + length w + length ws ≤ len = omega arith in
    let back = append_assoc pre w (ws ++ rest) in
    rw
      (
        append_assoc w ws rest,
        slice_from_ok n (record { len = len; mem = pre ++ (w ++ (ws ++ rest)) }) l1,
        drop-append pre (w ++ (ws ++ rest)) n hn,
        hd (ws ++ rest) (len - n) l2,
        ← back,
        hf (pre ++ w) rest (n + length w) len l3 l4,
      )
      (rw (lw, add_assoc n (length w) (length ws)))

pub from_front {ℓ} :
    {A : Type ℓ} (d : ℕ → Slice → Result (Read A)) (w : Bytes) (a : A)
    → ReadsFrom d w a
    → Reads (d 0) w a
from_front d w a h rest len l = rw (h [] rest 0 len refl (omega arith)) (rw (zero-add (length w)))

pub string-Reads :
    (bs : Bytes)
    → length bs < 2 ^ 32
    → Reads
        (λ s. read_uint32 s >>= λ ln. read_counted ln s >>= λ r. ok (map_read string r))
        (wire_counted bs)
        (Value.string bs)
unfolding map_read
string-Reads bs h rest len l =
    let e : 4 + length bs ≡ length (wire_counted bs) = omega arith in
    rw (read_uint32_lem (length bs) (bs ++ rest) len h, read_counted_lem (length bs) bs rest len, e)

pub nil-Reads : Reads decode_bytes (be_bytes 4 0xffff_ffff) (bytes none)
unfolding decode_bytes
nil-Reads rest len l = rw (read_uint32_lem 0xffff_ffff rest len (omega arith))

pub bytes-Reads :
    (bs : Bytes) → length bs < 2 ^ 31 → Reads decode_bytes (wire_counted bs) (bytes (some bs))
unfolding decode_bytes
bytes-Reads bs h rest len l =
    let e : 4 + length bs ≡ length (wire_counted bs) = omega arith in
    let small : is_neg (to_int32 (length bs)) ≡ false = ground arith in
    rw (
      read_uint32_lem (length bs) (bs ++ rest) len (omega arith),
      small,
      read_counted_lem (length bs) bs rest len,
      e,
    )

-- A slice: its count and its elements.
pub slice-Reads :
    (f : ℕ → ℕ → Slice → Result (Read Values)) (vs : Values) (c : ℕ) (w : Bytes)
    → c < 2 ^ 32
    → ReadsFrom (f c) w vs
    → Reads
        (λ s. read_uint32 s >>= λ count. f count 4 s >>= λ r. ok (map_read slice r))
        (be_bytes 4 c ++ w)
        (Value.slice vs)
unfolding map_read
slice-Reads f vs c w h hf rest len l =
    let e : 4 + length w ≡ length (be_bytes 4 c ++ w) = omega arith in
    rw (read_uint32_lem c (w ++ rest) len h, hf (be_bytes 4 c) rest 4 len refl (omega arith), e)
