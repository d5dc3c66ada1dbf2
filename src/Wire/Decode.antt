-- ===== src/Wire/Decode.antt =====
-- decodePacketValue, decodePacket and multiRequest.Decode of zk/structs.go. A read returns the value and
-- the number of bytes that it took; the values that a failed read has filled in are dropped.
use go_zookeeper.Base.{
  ℕ, zero, suc, ◌+◌, to_int32, to_int64, is_neg, Bytes, Bool, true, false, not, none, some,
  if◌then◌else◌, ltb, ◌==◌, length, [], ◌∷◌,
}
use go_zookeeper.Constants.{api_error, unhandled_field_type}
use go_zookeeper.Wire.{
  index_range, out_of_fuel, Result, ok, err, panic, ◌>>=◌, Slice, slice_range, slice_from, contents,
  be_value,
}
use go_zookeeper.Wire.Value.{
  MultiHeader, Kind, Kinds, Value, Values, Ops, bool, int32, int64, string, bytes, slice, struct,
  multi, other, end, field, nil, cons, no_ops, op,
}
use go_zookeeper.Wire.Structs.{request_struct_for_op}
use go_zookeeper.Wire.Encode.{recover_short}

pub record Read {ℓ} (A : Type ℓ) : Type ℓ where
  pub n : ℕ
  pub value : A

-- buf[n] != 0
unfoldable pub first_bool : Bytes → Result (Read Bool)
first_bool [] = panic index_range
first_bool (b ∷ _) = ok (record { n = 1; value = not (b == 0) })

unfoldable pub decode_bool : Slice → Result (Read Bool)
unfolding first_bool
decode_bool s = if ltb 0 s.len then first_bool s.mem else panic index_range

-- Uint32(buf[n:n+4])
unfoldable pub read_uint32 : Slice → Result ℕ
read_uint32 s = do b ← slice_range 0 4 s; ok (be_value 0 (contents b))

unfoldable pub read_uint64 : Slice → Result ℕ
read_uint64 s = do b ← slice_range 0 8 s; ok (be_value 0 (contents b))

-- The string or the []byte that follows its length `ln`.
unfoldable pub read_counted : ℕ → Slice → Result (Read Bytes)
read_counted ln s = do b ← slice_range 4 (4 + ln) s; ok (record { n = 4 + ln; value = contents b })

unfoldable pub map_read {ℓ κ} : {A : Type ℓ} {B : Type κ} → (A → B) → Read A → Read B
map_read f r = record { n = r.n; value = f r.value }

-- The two cases of a []byte whose length word is `w`: int(int32(w)) is negative, or it is `w`.
unfoldable pub decode_bytes_of : ℕ → Slice → Result (Read Value)
unfolding read_counted map_read
decode_bytes_of w s =
    if is_neg (to_int32 w)
    then ok (record { n = 4; value = bytes none })
    else (read_counted w s >>= λ r. ok (map_read (λ bs. bytes (some bs)) r))

unfoldable pub decode_bytes : Slice → Result (Read Value)
unfolding read_uint32 decode_bytes_of
decode_bytes s = do w ← read_uint32 s; decode_bytes_of w s

-- The loop over the `count` elements of a slice, `n` bytes read so far.
unfoldable pub decode_items : (Slice → Result (Read Value)) → ℕ → ℕ → Slice → Result (Read Values)
decode_items f zero n s = ok (record { n = n; value = nil })
decode_items f (suc count) n s = do
  sub ← slice_from n s
  r ← f sub
  rest ← decode_items f count (n + r.n) s
  ok (record { n = rest.n; value = cons r.value rest.value })

-- `m` is the method multiRequest.Decode, which the reflective decoder calls for that type.
unfoldable mutual
  pub decode_with : (Slice → Result (Read Value)) → Kind → Slice → Result (Read Value)
  decode_with m bool s = do r ← decode_bool s; ok (map_read bool r)
  decode_with m int32 s = do w ← read_uint32 s; ok (record { n = 4; value = int32 (to_int32 w) })
  decode_with m int64 s = do w ← read_uint64 s; ok (record { n = 8; value = int64 (to_int64 w) })
  decode_with m string s = do ln ← read_uint32 s; r ← read_counted ln s; ok (map_read string r)
  decode_with m bytes s = decode_bytes s
  decode_with m (slice k) s = do
    count ← read_uint32 s
    r ← decode_items (decode_with m k) count 4 s
    ok (map_read slice r)
  decode_with m (struct ks) s = do r ← decode_fields m ks 0 s; ok (map_read struct r)
  decode_with m multi s = m s
  decode_with m other s = err unhandled_field_type

  pub decode_fields : (Slice → Result (Read Value)) → Kinds → ℕ → Slice → Result (Read Values)
  decode_fields m end n s = ok (record { n = n; value = nil })
  decode_fields m (field k ks) n s = do
    sub ← slice_from n s
    r ← decode_with m k sub
    rest ← decode_fields m ks (n + r.n) s
    ok (record { n = rest.n; value = cons r.value rest.value })

-- The three fields of a multiHeader, read one after the other.
unfoldable pub decode_header : Slice → Result (Read MultiHeader)
decode_header s = do
  s₀ ← slice_from 0 s
  t ← read_uint32 s₀
  s₁ ← slice_from 4 s
  d ← decode_bool s₁
  s₂ ← slice_from (4 + d.n) s
  e ← read_uint32 s₂
  ok (record {
    n = 4 + d.n + 4;
    value = record { op_type = to_int32 t; done = d.value; err_code = to_int32 e };
  })

pub record Multi : Type 0 where
  pub ops : Ops
  pub done_header : MultiHeader

abbrev pub add_op : MultiHeader → Value → Multi → Multi
add_op h v r = record r { ops = op h v r.ops }

abbrev pub to_multi : Multi → Value
to_multi r = multi r.ops r.done_header

-- The loop of multiRequest.Decode at buf[total:]. Each round reads a header, which takes nine bytes.
-- The decoder of a request inside may be this one again.
unfoldable pub decode_ops : ℕ → ℕ → Slice → Result (Read Multi)
decode_ops zero total s = panic out_of_fuel
decode_ops (suc fuel) total s = do
  sub ← slice_from total s
  h ← decode_header sub
  elim h.value.done [
    | true ↦ ok (record { n = total + h.n; value = record { ops = no_ops; done_header = h.value } })
    | false ↦ elim (request_struct_for_op h.value.op_type) [
      | none ↦ err api_error
      | some k ↦ do
        sub' ← slice_from (total + h.n) s
        r ← decode_with (λ t. decode_ops fuel 0 t >>= λ q. ok (map_read to_multi q)) k sub'
        rest ← decode_ops fuel (total + h.n + r.n) s
        ok (map_read (add_op h.value r.value) rest)
    ]
  ]

unfoldable pub decode_multi : ℕ → Slice → Result (Read Value)
decode_multi fuel s = decode_ops fuel 0 s >>= λ q. ok (map_read to_multi q)

-- A slice of capacity c holds no more than c / 9 headers, so c + 1 rounds are enough.
unfoldable pub decode_value : Kind → Slice → Result (Read Value)
unfolding decode_multi
decode_value k s = decode_with (decode_multi (suc (length s.mem))) k s

unfoldable pub decode_packet : Kind → Slice → Result (Read Value)
unfolding recover_short
decode_packet k s = recover_short (decode_value k s)
