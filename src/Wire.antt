-- ===== src/Wire.antt =====
-- zk/structs.go: the wire format. This file has what encodePacketValue and decodePacketValue stand on:
-- byte slices with their capacity, the run-time panics of slicing, and big-endian integers.
pub mod Value
pub mod Structs
pub mod Encode
pub mod Decode
pub mod Spec
pub mod Memory
pub mod Encoding
pub mod Decoding
pub mod RoundTrip
pub mod Fuel
pub mod Packets
pub mod Response
use go_zookeeper.Base.{
  ℕ, zero, suc, ◌+◌, ◌-◌, ◌*◌, ◌/◌, ◌%◌, ◌^◌, Bytes, Bool, true, false, ◌&&◌, if◌then◌else◌, leb,
  ltb, length, take, drop, [], ◌∷◌, ◌++◌,
}
use go_zookeeper.Constants.{Error}

-- A panic of the Go run time, or one that the code asks for (`unexpected_error`). `out_of_fuel` has no
-- counterpart in the program.
pub data Fault : Type 0 where
  slice_bounds index_range unexpected_error out_of_fuel : Fault

pub data Result {ℓ} (A : Type ℓ) : Type ℓ where
  ok : A → Result A
  err : Error → Result A
  panic : Fault → Result A

infixl 5 ◌>>=◌
abbrev pub ◌>>=◌ {ℓ κ} : {A : Type ℓ} {B : Type κ} → Result A → (A → Result B) → Result B
ok a >>= f = f a
err e >>= f = err e
panic p >>= f = panic p

-- A Go slice of bytes: its length, and the memory from its first byte to the end of its capacity.
pub record Slice : Type 0 where
  pub len : ℕ
  pub mem : Bytes

-- s[lo:hi], which Go bounds by the capacity.
unfoldable pub slice_range : ℕ → ℕ → Slice → Result Slice
slice_range lo hi s =
    if leb lo hi && leb hi (length s.mem)
    then ok (record { len = hi - lo; mem = drop lo s.mem })
    else panic Fault.slice_bounds

-- s[lo:], which Go bounds by the length.
unfoldable pub slice_from : ℕ → Slice → Result Slice
slice_from lo s =
    if leb lo s.len
    then ok (record { len = s.len - lo; mem = drop lo s.mem })
    else panic Fault.slice_bounds

-- The bytes that a slice shows.
abbrev pub contents : Slice → Bytes
contents s = take s.len s.mem

-- copy(s, bs): the memory after it.
abbrev pub overwrite : Bytes → Bytes → Bytes
overwrite [] m = m
overwrite (b ∷ bs) [] = []
overwrite (b ∷ bs) (x ∷ m) = b ∷ overwrite bs m

abbrev pub overwrite_at : ℕ → Bytes → Bytes → Bytes
overwrite_at n bs m = take n m ++ overwrite bs (drop n m)

-- PutUint32 and PutUint64 write these bytes, at k = 4 and k = 8.
abbrev pub be_bytes : ℕ → ℕ → Bytes
be_bytes zero w = []
be_bytes (suc k) w = (w / 256 ^ k % 256) ∷ be_bytes k w

-- Uint32 and Uint64 read bytes so, from acc = 0.
abbrev pub be_value : ℕ → Bytes → ℕ
be_value acc [] = acc
be_value acc (b ∷ bs) = be_value (acc * 256 + b) bs
