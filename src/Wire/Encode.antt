-- ===== src/Wire/Encode.antt =====
-- encodePacketValue, encodePacket and multiRequest.Encode of zk/structs.go. A write returns the number
-- of bytes written and the memory of the slice after it; after an error or a panic the memory is
-- of no interest, since every writer starts from the front of its buffer again.
use go_zookeeper.Base.{
  ℕ, suc, ◌+◌, ℤ, uint32, uint64, Bytes, Bool, true, false, none, some, if◌then◌else◌, ltb, length,
  take, [], ◌∷◌, ◌++◌,
}
use go_zookeeper.Constants.{unhandled_field_type, short_buffer}
use go_zookeeper.Wire.{
  index_range, slice_bounds, Result, ok, err, panic, ◌>>=◌, Slice, slice_range, slice_from,
  overwrite, overwrite_at, be_bytes,
}
use go_zookeeper.Wire.Value.{
  MultiHeader, Value, Values, Ops, bool, int32, int64, string, bytes, slice, struct, multi, other,
  nil, cons, no_ops, op,
}

pub record Write : Type 0 where
  pub n : ℕ
  pub mem : Bytes

-- buf[n] = 1 or 0
unfoldable pub encode_bool : Bool → Slice → Result Write
encode_bool b s =
    if ltb 0 s.len
    then ok (record { n = 1; mem = overwrite ((if b then 1 else 0) ∷ []) s.mem })
    else panic index_range

unfoldable pub encode_int32 : ℤ → Slice → Result Write
encode_int32 z s = do
  _ ← slice_range 0 4 s
  ok (record { n = 4; mem = overwrite (be_bytes 4 (uint32 z)) s.mem })

unfoldable pub encode_int64 : ℤ → Slice → Result Write
encode_int64 z s = do
  _ ← slice_range 0 8 s
  ok (record { n = 8; mem = overwrite (be_bytes 8 (uint64 z)) s.mem })

-- A length of 32 bits and the bytes: a string, or a []byte that is not nil.
unfoldable pub encode_counted : Bytes → Slice → Result Write
encode_counted bs s = do
  _ ← slice_range 0 4 s
  let mem' = overwrite (be_bytes 4 (length bs)) s.mem
  _ ← slice_range 4 (4 + length bs) s
  ok (record { n = 4 + length bs; mem = overwrite_at 4 bs mem' })

-- A nil []byte is the length 0xffffffff.
unfoldable pub encode_nil : Slice → Result Write
encode_nil s = do
  _ ← slice_range 0 4 s
  ok (record { n = 4; mem = overwrite (be_bytes 4 0xffff_ffff) s.mem })

-- Runs an encoder on buf[total:] and adds what it wrote.
unfoldable pub encode_after : ℕ → (Slice → Result Write) → Slice → Result Write
encode_after total encode s = do
  sub ← slice_from total s
  w ← encode sub
  ok (record { n = total + w.n; mem = take total s.mem ++ w.mem })

-- The three fields of a multiHeader.
unfoldable pub encode_header : MultiHeader → Slice → Result Write
encode_header h s = do
  a ← encode_after 0 (encode_int32 h.op_type) s
  b ← encode_after a.n (encode_bool h.done) (record s { mem = a.mem })
  encode_after b.n (encode_int32 h.err_code) (record s { mem = b.mem })

-- An operation of a multiRequest, a struct of its header and of the request that `encode` writes.
unfoldable pub encode_op : MultiHeader → (Slice → Result Write) → Slice → Result Write
encode_op h encode s = do
  a ← encode_after 0 (encode_header (record h { done = false })) s
  encode_after a.n encode (record s { mem = a.mem })

unfoldable mutual
  pub encode_value : Value → Slice → Result Write
  encode_value (bool b) s = encode_bool b s
  encode_value (int32 z) s = encode_int32 z s
  encode_value (int64 z) s = encode_int64 z s
  encode_value (string bs) s = encode_counted bs s
  encode_value (bytes none) s = encode_nil s
  encode_value (bytes (some bs)) s = encode_counted bs s
  encode_value (slice vs) s = do
    w ← encode_values vs 4 s
    _ ← slice_range 0 4 s
    ok (record { n = w.n; mem = overwrite (be_bytes 4 (count_values vs)) w.mem })
  encode_value (struct vs) s = encode_values vs 0 s
  encode_value (multi ops d) s = do
    w ← encode_ops ops 0 s
    encode_after w.n (encode_header (record d { done = true })) (record s { mem = w.mem })
  encode_value other s = err unhandled_field_type

  -- The loop over the fields of a struct or over the elements of a slice, `n` bytes written so far.
  pub encode_values : Values → ℕ → Slice → Result Write
  encode_values nil n s = ok (record { n = n; mem = s.mem })
  encode_values (cons v vs) n s = do
    w ← encode_after n (encode_value v) s
    encode_values vs w.n (record s { mem = w.mem })

  -- The loop of multiRequest.Encode.
  pub encode_ops : Ops → ℕ → Slice → Result Write
  encode_ops no_ops total s = ok (record { n = total; mem = s.mem })
  encode_ops (op h v os) total s = do
    w ← encode_after total (encode_op h (encode_value v)) s
    encode_ops os w.n (record s { mem = w.mem })

  pub count_values : Values → ℕ
  count_values nil = 0
  count_values (cons v vs) = suc (count_values vs)

-- The recover of encodePacket and decodePacket: a slice out of bounds is an error, and any other panic
-- goes on.
unfoldable pub recover_short {ℓ} : {A : Type ℓ} → Result A → Result A
recover_short (ok a) = ok a
recover_short (err e) = err e
recover_short (panic slice_bounds) = err short_buffer
recover_short (panic p) = panic p

unfoldable pub encode_packet : Value → Slice → Result Write
unfolding recover_short
encode_packet v s = recover_short (encode_value v s)
