-- ===== src/Wire/Spec.antt =====
-- What the codec of zk/structs.go should do: the bytes that stand for a value, and which values a type
-- has.
use go_zookeeper.Base.{
  ◌^◌, ◌<◌, ℤ, uint32, uint64, IsInt32, IsInt64, Bytes, Bool, true, false, none, some, length, [],
  ◌∷◌, ◌++◌, ◌≡◌, if◌then◌else◌,
}
use go_zookeeper.Wire.{be_bytes}
use go_zookeeper.Wire.Value.{
  MultiHeader, Kind, Kinds, Value, Values, Ops, bool, int32, int64, string, bytes, slice, struct,
  multi, other, end, field, nil, cons, no_ops, op,
}
use go_zookeeper.Wire.Structs.{request_struct_for_op}
use go_zookeeper.Wire.Encode.{count_values}

abbrev pub wire_bool : Bool → Bytes
wire_bool b = (if b then 1 else 0) ∷ []

abbrev pub wire_counted : Bytes → Bytes
wire_counted bs = be_bytes 4 (length bs) ++ bs

-- The header of an operation says that more follow, and the last header that none do.
abbrev pub wire_header : ℤ → Bool → ℤ → Bytes
wire_header t d e = be_bytes 4 (uint32 t) ++ (wire_bool d ++ be_bytes 4 (uint32 e))

unfoldable mutual
  pub wire : Value → Bytes
  wire (bool b) = wire_bool b
  wire (int32 z) = be_bytes 4 (uint32 z)
  wire (int64 z) = be_bytes 8 (uint64 z)
  wire (string bs) = wire_counted bs
  wire (bytes none) = be_bytes 4 0xffff_ffff
  wire (bytes (some bs)) = wire_counted bs
  wire (slice vs) = be_bytes 4 (count_values vs) ++ wire_values vs
  wire (struct vs) = wire_values vs
  wire (multi ops d) = wire_ops ops ++ wire_header d.op_type true d.err_code
  wire other = []

  pub wire_values : Values → Bytes
  wire_values nil = []
  wire_values (cons v vs) = wire v ++ wire_values vs

  pub wire_ops : Ops → Bytes
  wire_ops no_ops = []
  wire_ops (op h v os) = wire_header h.op_type false h.err_code ++ (wire v ++ wire_ops os)

-- A header of the wire: its integers are in range, and its flag is `d`.
pub record IsHeader (d : Bool) (h : MultiHeader) : Type 0 where
  pub flag : h.done ≡ d
  pub type_range : IsInt32 h.op_type
  pub err_range : IsInt32 h.err_code

mutual
  pub data HasKind : Kind → Value → Type 0 where
    is_bool : (b : Bool) → HasKind bool (bool b)
    is_int32 : (z : ℤ) → IsInt32 z → HasKind int32 (int32 z)
    is_int64 : (z : ℤ) → IsInt64 z → HasKind int64 (int64 z)
    is_string : (bs : Bytes) → length bs < 2 ^ 32 → HasKind string (string bs)
    is_nil : HasKind bytes (bytes none)
    is_bytes : (bs : Bytes) → length bs < 2 ^ 31 → HasKind bytes (bytes (some bs))
    is_slice :
        {k : Kind} {vs : Values}
        → HasItems k vs
        → count_values vs < 2 ^ 32
        → HasKind (slice k) (slice vs)
    is_struct : {ks : Kinds} {vs : Values} → HasFields ks vs → HasKind (struct ks) (struct vs)
    is_multi :
        {os : Ops} {d : MultiHeader} → HasOps os → IsHeader true d → HasKind multi (multi os d)

  pub data HasItems : Kind → Values → Type 0 where
    no_items : {k : Kind} → HasItems k nil
    more_items :
        {k : Kind} {v : Value} {vs : Values} → HasKind k v → HasItems k vs → HasItems k (cons v vs)

  pub data HasFields : Kinds → Values → Type 0 where
    no_fields : HasFields end nil
    more_fields :
        {k : Kind} {ks : Kinds} {v : Value} {vs : Values}
        → HasKind k v
        → HasFields ks vs
        → HasFields (field k ks) (cons v vs)

  pub data HasOps : Ops → Type 0 where
    last_op : HasOps no_ops
    more_ops :
        {h : MultiHeader} {k : Kind} {v : Value} {os : Ops}
        → IsHeader false h
        → request_struct_for_op h.op_type ≡ some k
        → HasKind k v
        → HasOps os
        → HasOps (op h v os)
