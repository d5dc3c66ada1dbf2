-- ===== src/Wire/Response/Ends.antt =====
-- multiResponse.Decode of zk/structs.go ends.
use go_zookeeper.Base.{
  ℕ, zero, suc, ◌+◌, ◌≤◌, ◌<◌, Option, none, arith, length, Bool-cases, inl, inr,
}
use go_zookeeper.Constants.{Error}
use go_zookeeper.Wire.{Slice}
use go_zookeeper.Wire.Value.{MultiHeader}
use go_zookeeper.Wire.Fuel.{
  Ensures, holds, rejected, Ensures-bind, slice_from-Ensures, decode_header-Ensures,
  decode_value-Ensures,
}
use go_zookeeper.Wire.Response.{
  Part, nothing, unknown, part, part_of, decode_part, decode_responses, decode_response,
}

decode_part-Ensures :
    (h : MultiHeader) (p : Part) (n : ℕ) (s : Slice)
    → n ≤ length s.mem
    → Ensures (λ r. n + r.n ≤ length s.mem) (decode_part h p n s)
unfolding decode_part
decode_part-Ensures h unknown n s hn = rejected
decode_part-Ensures h nothing n s hn = holds (omega arith)
decode_part-Ensures h (part k) n s hn =
    Ensures-bind (slice_from-Ensures n s)
      λ sub e. Ensures-bind (decode_value-Ensures k sub) λ r l. holds (omega arith)

decode_responses-Ensures :
    (f n : ℕ) (e : Option Error) (s : Slice)
    → n ≤ length s.mem
    → length s.mem < f + n
    → Ensures (λ r. r.n ≤ length s.mem) (decode_responses f n e s)
unfolding decode_responses
decode_responses-Ensures zero n e s hn hf = absurd (omega arith)
decode_responses-Ensures (suc f) n e s hn hf = Ensures-bind (slice_from-Ensures n s) λ sub k.
    Ensures-bind (decode_header-Ensures sub) λ h l. elim (Bool-cases h.value.done) [
      | inl last ↦ rw last (holds (omega arith))
      | inr more ↦ rw more (
          Ensures-bind
            (decode_part-Ensures h.value (part_of h.value.op_type) (n + h.n) s (omega arith))
            λ r lr.
              Ensures-bind
                (decode_responses-Ensures f (n + h.n + r.n) _ s (omega arith) (omega arith))
                λ q lq. holds lq)
    ]

-- On every input the decoder of a multiResponse ends, with a response, an error of the package or a panic of
-- the run time, and a response takes no more bytes than the slice has capacity.
pub decode_response-Ensures : (s : Slice) → Ensures (λ r. r.n ≤ length s.mem) (decode_response s)
unfolding decode_response
decode_response-Ensures s =
    decode_responses-Ensures (suc (length s.mem)) 0 none s (omega arith) (omega arith)
