-- ===== src/Wire/Fuel.antt =====
-- The rounds that the model of multiRequest.Decode is given are enough for every input, and no decoder
-- takes more bytes than the capacity of its slice.
use mathlib.Core.Logic.{◌≢◌}
use go_zookeeper.Base.{
  ℕ, zero, suc, ◌+◌, ◌-◌, ◌≤◌, ◌<◌, ◌≡◌, refl, Bytes, [], ◌∷◌, arith, length, length-drop, leb, ltb,
  ◌&&◌, Bool-cases, Option-cases, inl, inr, is_neg, to_int32,
}
use go_zookeeper.Constants.{Error}
use go_zookeeper.Wire.{
  Fault, out_of_fuel, Result, ok, err, panic, ◌>>=◌, Slice, slice_range, slice_from,
}
use go_zookeeper.Wire.Value.{
  Kind, Kinds, Value, bool, int32, int64, string, bytes, multi, other, slice, struct, end, field,
}
use go_zookeeper.Wire.Structs.{request_struct_for_op}
use go_zookeeper.Wire.Encode.{recover_short}
use go_zookeeper.Wire.Decode.{
  decode_packet, Read, first_bool, decode_bool, read_uint32, read_uint64, read_counted, map_read,
  decode_bytes, decode_items, decode_with, decode_fields, decode_header, decode_ops, decode_multi,
  decode_value, to_multi,
}

-- A run that ends: with a value for which `P` holds, with an error, or with a panic of the program.
pub data Ensures {ℓ κ} {A : Type ℓ} (P : A → Type κ) : Result A → Type (ℓ ⊔ κ) where
  holds : {a : A} → P a → Ensures P (ok a)
  rejected : {e : Error} → Ensures P (err e)
  faulted : {p : Fault} → p ≢ out_of_fuel → Ensures P (panic p)

module _ {ℓ κ} {A : Type ℓ} {P : A → Type κ} where
  pub Ensures-bind {ℓ' κ'} :
      {B : Type ℓ'} {Q : B → Type κ'} {r : Result A} {f : A → Result B}
      → Ensures P r
      → ((a : A) → P a → Ensures Q (f a))
      → Ensures Q (r >>= f)
  Ensures-bind (holds {a} h) k = k a h
  Ensures-bind rejected k = rejected
  Ensures-bind (faulted n) k = faulted n

  pub Ensures-mono {κ'} :
      {Q : A → Type κ'} {r : Result A} → Ensures P r → ((a : A) → P a → Q a) → Ensures Q r
  Ensures-mono (holds {a} h) k = holds (k a h)
  Ensures-mono rejected k = rejected
  Ensures-mono (faulted n) k = faulted n

  pub Ensures-ends : {r : Result A} → Ensures P r → r ≢ panic out_of_fuel
  Ensures-ends (holds h) e = cc
  Ensures-ends rejected e = cc
  Ensures-ends (faulted n) e = n (cc)

-- A read that takes at most `bound` bytes, and one that takes `n` of them exactly.
abbrev Within {ℓ} : {A : Type ℓ} → ℕ → Read A → Type 0
Within bound r = r.n ≤ bound

pub slice_range-Ensures :
    (lo hi : ℕ) (s : Slice) → Ensures (λ _. hi ≤ length s.mem) (slice_range lo hi s)
unfolding slice_range
slice_range-Ensures lo hi s = elim (Bool-cases (leb lo hi && leb hi (length s.mem))) [
  | inl e ↦ rw e (holds (ground arith))
  | inr e ↦ rw e (faulted (λ q. cc))
]

pub slice_from-Ensures :
    (lo : ℕ) (s : Slice) → Ensures (λ t. length t.mem ≡ length s.mem - lo) (slice_from lo s)
unfolding slice_from
slice_from-Ensures lo s = elim (Bool-cases (leb lo s.len)) [
  | inl e ↦ rw e (holds (length-drop lo s.mem))
  | inr e ↦ rw e (faulted (λ q. cc))
]

first_bool-Ensures : (m : Bytes) → Ensures (λ r. (r.n ≡ 1) × (1 ≤ length m)) (first_bool m)
unfolding first_bool
first_bool-Ensures [] = faulted (λ q. cc)
first_bool-Ensures (b ∷ m) = holds (refl, omega arith)

decode_bool-Ensures : (s : Slice) → Ensures (λ r. (r.n ≡ 1) × (1 ≤ length s.mem)) (decode_bool s)
unfolding decode_bool
decode_bool-Ensures s = elim (Bool-cases (ltb 0 s.len)) [
  | inl e ↦ rw e (first_bool-Ensures s.mem)
  | inr e ↦ rw e (faulted (λ q. cc))
]

read_uint32-Ensures : (s : Slice) → Ensures (λ _. 4 ≤ length s.mem) (read_uint32 s)
unfolding read_uint32
read_uint32-Ensures s = Ensures-bind (slice_range-Ensures 0 4 s) λ _ h. holds h

read_uint64-Ensures : (s : Slice) → Ensures (λ _. 8 ≤ length s.mem) (read_uint64 s)
unfolding read_uint64
read_uint64-Ensures s = Ensures-bind (slice_range-Ensures 0 8 s) λ _ h. holds h

read_counted-Ensures : (ln : ℕ) (s : Slice) → Ensures (Within (length s.mem)) (read_counted ln s)
unfolding read_counted
read_counted-Ensures ln s = Ensures-bind (slice_range-Ensures 4 (4 + ln) s) λ _ h. holds h

map_read-Ensures {ℓ κ} :
    {A : Type ℓ} {B : Type κ} (f : A → B) {bound : ℕ} {r : Result (Read A)}
    → Ensures (Within bound) r
    → Ensures (Within bound) (r >>= λ q. ok (map_read f q))
unfolding map_read
map_read-Ensures f h = Ensures-bind h λ _ l. holds l

decode_bytes-Ensures : (s : Slice) → Ensures (Within (length s.mem)) (decode_bytes s)
unfolding decode_bytes
decode_bytes-Ensures s = Ensures-bind (read_uint32-Ensures s) λ w h.
    elim (Bool-cases (is_neg (to_int32 w))) [
      | inl e ↦ rw e (holds h)
      | inr e ↦ rw e (map_read-Ensures _ (read_counted-Ensures w s))
    ]

decode_items-Ensures :
    (f : Slice → Result (Read Value)) (bound : ℕ)
    → ((s : Slice) → length s.mem ≤ bound → Ensures (Within (length s.mem)) (f s))
    → (c n : ℕ) (s : Slice) → n ≤ length s.mem
    → length s.mem ≤ bound
    → Ensures (Within (length s.mem)) (decode_items f c n s)
unfolding decode_items
decode_items-Ensures f bound hf zero n s hn hb = holds hn
decode_items-Ensures f bound hf (suc c) n s hn hb = Ensures-bind (slice_from-Ensures n s) λ sub e.
    Ensures-bind (hf sub (omega arith)) λ r l.
      Ensures-bind (decode_items-Ensures f bound hf c (n + r.n) s (omega arith) hb) λ q k. holds k

-- Every decoder, if the one for multiRequest does so on slices of that capacity.
module _ (m : Slice → Result (Read Value)) (bound : ℕ)
    (hm : (s : Slice) → length s.mem ≤ bound → Ensures (Within (length s.mem)) (m s)) where
  mutual
    unfolding decode_with

    decode_with-Ensures :
        (k : Kind) (s : Slice)
        → length s.mem ≤ bound
        → Ensures (Within (length s.mem)) (decode_with m k s)
    decode_with-Ensures bool s hb =
        map_read-Ensures Value.bool (Ensures-mono (decode_bool-Ensures s) (λ r h. omega arith))
    decode_with-Ensures int32 s hb = Ensures-bind (read_uint32-Ensures s) λ _ h. holds h
    decode_with-Ensures int64 s hb = Ensures-bind (read_uint64-Ensures s) λ _ h. holds h
    decode_with-Ensures string s hb =
        Ensures-bind (read_uint32-Ensures s) λ ln _. map_read-Ensures _ (read_counted-Ensures ln s)
    decode_with-Ensures bytes s hb = decode_bytes-Ensures s
    decode_with-Ensures (slice k) s hb = Ensures-bind (read_uint32-Ensures s) λ c h.
        map_read-Ensures _
          (decode_items-Ensures (decode_with m k) bound (decode_with-Ensures k) c 4 s h hb)
    decode_with-Ensures (struct ks) s hb =
        map_read-Ensures _ (decode_fields-Ensures ks 0 s (omega arith) hb)
    decode_with-Ensures multi s hb = hm s hb
    decode_with-Ensures other s hb = rejected

    decode_fields-Ensures :
        (ks : Kinds) (n : ℕ) (s : Slice)
        → n ≤ length s.mem
        → length s.mem ≤ bound
        → Ensures (Within (length s.mem)) (decode_fields m ks n s)
    decode_fields-Ensures end n s hn hb = holds hn
    decode_fields-Ensures (field k ks) n s hn hb = Ensures-bind (slice_from-Ensures n s) λ sub e.
        Ensures-bind (decode_with-Ensures k sub (omega arith))
          λ r l. Ensures-bind (decode_fields-Ensures ks (n + r.n) s (omega arith) hb) λ q h. holds h

-- A header takes nine bytes.
pub decode_header-Ensures :
    (s : Slice) → Ensures (λ r. (r.n ≡ 9) × (9 ≤ length s.mem)) (decode_header s)
unfolding decode_header
decode_header-Ensures s = Ensures-bind (slice_from-Ensures 0 s) λ _ _.
    Ensures-bind (read_uint32-Ensures _) λ _ _. Ensures-bind (slice_from-Ensures 4 s) λ _ _.
      Ensures-bind (decode_bool-Ensures _) λ d h.
        Ensures-bind (slice_from-Ensures (4 + d.n) s)
          λ t e. Ensures-bind (read_uint32-Ensures t) λ _ k. holds (omega arith, omega arith)

decode_ops-Ensures :
    (f n : ℕ) (s : Slice)
    → n ≤ length s.mem
    → length s.mem < f + n
    → Ensures (Within (length s.mem)) (decode_ops f n s)
unfolding decode_ops
decode_ops-Ensures zero n s hn hf = absurd (omega arith)
decode_ops-Ensures (suc f) n s hn hf = Ensures-bind (slice_from-Ensures n s) λ sub e.
    Ensures-bind (decode_header-Ensures sub) λ h l. elim (Bool-cases h.value.done) [
      | inl last ↦ rw last (holds (omega arith))
      | inr more ↦ rw more (elim (Option-cases (request_struct_for_op h.value.op_type)) [
        | inl unknown ↦ rw unknown rejected
        | inr (k, known) ↦ rw known (
            Ensures-bind (slice_from-Ensures (n + h.n) s) λ sub' e'.
              Ensures-bind
                (decode_with-Ensures (λ t. decode_ops f 0 t >>= λ q. ok (map_read to_multi q))
                  (length sub'.mem)
                  (λ t lt.
                    map_read-Ensures to_multi
                      (decode_ops-Ensures f 0 t (omega arith) (omega arith)))
                  k sub' (omega arith))
                λ r lr.
                  map_read-Ensures _
                    (decode_ops-Ensures f (n + h.n + r.n) s (omega arith) (omega arith)))
      ])
    ]

-- The reflective decoder always ends, whatever the bytes are: with a value, with an error of the package
-- or with a panic of the run time. The value that it returns took no more bytes than the slice has
-- capacity.
pub decode_value-Ensures :
    (k : Kind) (s : Slice) → Ensures (λ r. r.n ≤ length s.mem) (decode_value k s)
unfolding decode_value decode_multi
decode_value-Ensures k s =
    decode_with-Ensures (decode_multi (suc (length s.mem))) (length s.mem)
      (λ t lt.
        map_read-Ensures to_multi
          (decode_ops-Ensures (suc (length s.mem)) 0 t (omega arith) (omega arith)))
      k s (omega arith)

recover_short-Ensures {ℓ κ} :
    {A : Type ℓ} {P : A → Type κ} {r : Result A} → Ensures P r → Ensures P (recover_short r)
unfolding recover_short
recover_short-Ensures (holds h) = holds h
recover_short-Ensures rejected = rejected
recover_short-Ensures (faulted {p = Fault.slice_bounds} n) = rejected
recover_short-Ensures (faulted {p = Fault.index_range} n) = faulted n
recover_short-Ensures (faulted {p = Fault.unexpected_error} n) = faulted n
recover_short-Ensures (faulted {p = Fault.out_of_fuel} n) = faulted n

pub decode_packet-Ensures :
    (k : Kind) (s : Slice) → Ensures (λ r. r.n ≤ length s.mem) (decode_packet k s)
unfolding decode_packet
decode_packet-Ensures k s = recover_short-Ensures (decode_value-Ensures k s)
