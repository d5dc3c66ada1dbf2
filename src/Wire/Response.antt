-- ===== src/Wire/Response.antt =====
-- multiResponse.Decode of zk/structs.go. The values that a failed read has filled in are dropped.
pub mod Ends
use go_zookeeper.Base.{
  ℕ, zero, suc, ◌+◌, ℤ, pos, int_eq, Bytes, true, false, Option, none, some, List, [], ◌∷◌, length,
  if◌then◌else◌,
}
use go_zookeeper.Constants.{
  Error, ErrCode, api_error, to_error, op_error, op_create, op_set_data, op_check, op_delete,
}
use go_zookeeper.Wire.{Result, ok, err, panic, out_of_fuel, ◌>>=◌, Slice, slice_from}
use go_zookeeper.Wire.Value.{MultiHeader, Kind, Value, int32, string}
use go_zookeeper.Wire.Structs.{stat_type}
use go_zookeeper.Wire.Decode.{Read, decode_header, decode_value}

-- multiResponseOp
pub record MultiResponseOp : Type 0 where
  pub header : MultiHeader
  pub string : Bytes
  pub stat : Option Value
  pub err : ErrCode

-- multiResponse
pub record MultiResponse : Type 0 where
  pub ops : List MultiResponseOp
  pub done_header : MultiHeader

-- The result of Decode where it has read the whole response: the response, the number of bytes, and the
-- error that it returns with them.
pub record ReadResponse : Type 0 where
  pub n : ℕ
  pub value : MultiResponse
  pub multi_err : Option Error

-- The switch on the type of the header: what is decoded for it, if anything.
pub data Part : Type 0 where
  nothing : Part
  unknown : Part
  part : Kind → Part

unfoldable pub part_of : ℤ → Part
part_of t =
    if int_eq t op_error
    then part Kind.int32
    else if int_eq t op_create
    then part Kind.string
    else if int_eq t op_set_data
    then part stat_type
    else if int_eq t op_check
    then nothing
    else if int_eq t op_delete
    then nothing
    else unknown

abbrev pub new_op : MultiHeader → MultiResponseOp
new_op h = record { header = h; string = []; stat = none; err = pos 0 }

-- The field that the decoded value goes to
abbrev pub set_part : MultiHeader → Value → MultiResponseOp
set_part h (int32 z) = record { header = h; string = []; stat = none; err = z }
set_part h (string s) = record { header = h; string = s; stat = none; err = pos 0 }
set_part h v = record { header = h; string = []; stat = some v; err = pos 0 }

-- One operation of the response, behind its header, which ends at `total`.
unfoldable pub decode_part : MultiHeader → Part → ℕ → Slice → Result (Read MultiResponseOp)
decode_part h unknown total s = err api_error
decode_part h nothing total s = ok (record { n = 0; value = new_op h })
decode_part h (part k) total s = do
  sub ← slice_from total s
  r ← decode_value k sub
  ok (record { n = r.n; value = set_part h r.value })

-- The first error of the operations
unfoldable pub first_error : Option Error → MultiResponseOp → Option Error
first_error (some e) o = some e
first_error none o = if int_eq o.err (pos 0) then none else to_error o.err

abbrev pub add_response : MultiResponseOp → ReadResponse → ReadResponse
add_response o r = record {
  n = r.n;
  value = record { ops = o ∷ r.value.ops; done_header = r.value.done_header };
  multi_err = r.multi_err;
}

-- The loop, at buf[total:], with the error so far. Each round reads a header, which takes nine bytes.
unfoldable pub decode_responses : ℕ → ℕ → Option Error → Slice → Result ReadResponse
unfolding decode_part part_of first_error
decode_responses zero total e s = panic out_of_fuel
decode_responses (suc fuel) total e s = do
  sub ← slice_from total s
  h ← decode_header sub
  elim h.value.done [
    | true ↦ ok (record {
      n = total + h.n;
      value = record { ops = []; done_header = h.value };
      multi_err = e;
    })
    | false ↦ do
      r ← decode_part h.value (part_of h.value.op_type) (total + h.n) s
      rest ← decode_responses fuel (total + h.n + r.n) (first_error e r.value) s
      ok (add_response r.value rest)
  ]

unfoldable pub decode_response : Slice → Result ReadResponse
unfolding decode_responses
decode_response s = decode_responses (suc (length s.mem)) 0 none s
