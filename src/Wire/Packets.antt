-- ===== src/Wire/Packets.antt =====
-- encodePacket and decodePacket of zk/structs.go: the round trip, and what they do at the end of a buffer.
use go_zookeeper.Base.{
  ℕ, suc, false, ◌+◌, ◌-◌, ◌^◌, ◌≤◌, ◌<◌, ◌≡◌, sym, ◌∙◌, Bytes, ◌++◌, arith, length, drop,
  length-append, ltb,
}
use native.Mathlib.Nat.{zero-add}
use go_zookeeper.Wire.{Result, ok, panic, index_range, Slice, ◌>>=◌}
use go_zookeeper.Wire.Value.{Kind, Value, string, nil, cons, struct}
use go_zookeeper.Wire.Structs.{path_response_type, path_watch_request_type}
use go_zookeeper.Wire.Encode.{encode_packet}
use go_zookeeper.Wire.Decode.{decode_with, decode_value, decode_packet, decode_bool, map_read, Read}
use go_zookeeper.Wire.Spec.{HasKind, wire, wire_counted}
use go_zookeeper.Wire.Memory.{slice_from_ok}
use go_zookeeper.Wire.Encoding.{encode_value-Writes}
use go_zookeeper.Wire.Decoding.{read_uint32_lem, read_counted_lem}
use go_zookeeper.Wire.RoundTrip.{decode_value-Reads}

-- With room for its bytes, encodePacket writes exactly the bytes that stand for the value, at the front
-- of the buffer, returns their number, and leaves the rest of the buffer alone.
pub encode_packet-wire :
    {k : Kind} {v : Value} (s : Slice)
    → HasKind k v
    → length (wire v) ≤ s.len
    → length (wire v) ≤ length s.mem
    → encode_packet v s
      ≡ ok (record { n = length (wire v); mem = wire v ++ drop (length (wire v)) s.mem })
unfolding encode_packet
encode_packet-wire s h l m = rw (encode_value-Writes h s l m)

-- decodePacket reads a value back from the bytes that stand for it, whatever follows them in memory.
pub decode_packet-wire :
    {k : Kind} {v : Value} (rest : Bytes) (len : ℕ)
    → HasKind k v
    → length (wire v) ≤ len
    → decode_packet k (record { len = len; mem = wire v ++ rest })
      ≡ ok (record { n = length (wire v); value = v })
unfolding decode_packet decode_value
decode_packet-wire {v = v} rest len h l = rw (
    decode_value-Reads h (suc (length (wire v ++ rest)))
      (omega (arith, length-append (wire v) rest)) rest len l)

-- A value that is encoded into a buffer with room is decoded, from the part of the buffer that was
-- written, as the same value, and the decoder takes every byte that was written.
pub decode-encode :
    {k : Kind} {v : Value} (s : Slice)
    → HasKind k v
    → length (wire v) ≤ s.len
    → length (wire v) ≤ length s.mem
    → (encode_packet v s >>= λ w. decode_packet k (record { len = w.n; mem = w.mem }))
      ≡ ok (record { n = length (wire v); value = v })
decode-encode {v = v} s h l m =
    rw (encode_packet-wire s h l m)
      (decode_packet-wire (drop (length (wire v)) s.mem) (length (wire v)) h (omega arith))

-- Two values of a type for which encodePacket, on the same buffer with room for both, returns the same
-- number and leaves the same bytes are equal.
pub encode_packet-injective :
    {k : Kind} {u v : Value} (s : Slice)
    → HasKind k u
    → HasKind k v
    → length (wire u) ≤ s.len
    → length (wire u) ≤ length s.mem
    → length (wire v) ≤ s.len
    → length (wire v) ≤ length s.mem
    → encode_packet u s ≡ encode_packet v s
    → u ≡ v
encode_packet-injective {k} {u} {v} s hu hv lu mu lv mv e =
    let du = decode-encode s hu lu mu in
    let dv = decode-encode s hv lv mv in
    let same : (encode_packet u s >>= λ w. decode_packet k (record { len = w.n; mem = w.mem }))
        ≡ (encode_packet v s >>= λ w. decode_packet k (record { len = w.n; mem = w.mem })) =
      rw e in
    let eq : Path (Result (Read Value)) (ok (record { n = length (wire u); value = u }))
        (ok (record { n = length (wire v); value = v })) =
      sym du ∙ same ∙ dv in
    cc

-- The decoder of a string looks at the capacity of its slice and not at its length: of a packet that
-- was cut to any length, down to 0, it returns the whole string that the memory held before.
pub decode_past_end :
    (bs rest : Bytes) (len : ℕ)
    → length bs < 2 ^ 32
    → decode_packet path_response_type (record { len = len; mem = wire_counted bs ++ rest })
      ≡ ok (record { n = 4 + length bs; value = struct (cons (string bs) nil) })
unfolding decode_packet decode_value decode_with map_read
decode_past_end bs rest len h =
    rw
      (
        slice_from_ok 0 (record { len = len; mem = wire_counted bs ++ rest }) (omega arith),
        read_uint32_lem (length bs) (bs ++ rest) (len - 0) h,
        read_counted_lem (length bs) bs rest (len - 0),
      )
      (rw (zero-add (4 + length bs)))

-- Where the buffer ends before the boolean of a request, the decoder panics with an index out of range,
-- which decodePacket does not recover, instead of returning the error for a short buffer.
pub decode_bool_panics :
    (bs rest : Bytes)
    → length bs < 2 ^ 32
    → decode_packet path_watch_request_type
        (record { len = 4 + length bs; mem = wire_counted bs ++ rest })
      ≡ panic index_range
unfolding decode_packet decode_value decode_with map_read decode_bool
decode_bool_panics bs rest h =
    let s : Slice = record { len = 4 + length bs; mem = wire_counted bs ++ rest } in
    let done : ltb 0 (4 + length bs - (0 + (4 + length bs))) ≡ false = ground arith in
    rw (
      slice_from_ok 0 s (omega arith),
      read_uint32_lem (length bs) (bs ++ rest) (4 + length bs - 0) h,
      read_counted_lem (length bs) bs rest (4 + length bs - 0),
      slice_from_ok (0 + (4 + length bs)) s (omega arith),
      done,
    )
