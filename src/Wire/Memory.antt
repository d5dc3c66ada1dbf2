-- ===== src/Wire/Memory.antt =====
-- Laws of the memory operations of Wire.antt and of big-endian integers.
use go_zookeeper.Base.{
  ℕ, zero, suc, ◌-◌, ◌^◌, ◌≤◌, ◌<◌, ◌≡◌, refl, ap, Bytes, [], ◌∷◌, ◌++◌, arith, length, drop,
  le→leb,
}
use go_zookeeper.Wire.{
  ok, panic, slice_bounds, Slice, slice_range, slice_from, overwrite, be_bytes, be_value,
}

pub overwrite-eq : (bs m : Bytes) → length bs ≤ length m → overwrite bs m ≡ bs ++ drop (length bs) m
overwrite-eq [] m h = refl
overwrite-eq (b ∷ bs) [] h = absurd (omega arith)
overwrite-eq (b ∷ bs) (x ∷ m) h = ap (λ t. b ∷ t) (overwrite-eq bs m (omega arith))

-- Bytes of the same length as the front of the memory replace it.
pub overwrite_front :
    (bs pre rest : Bytes) → length bs ≡ length pre → overwrite bs (pre ++ rest) ≡ bs ++ rest
overwrite_front [] [] rest h = refl
overwrite_front [] (x ∷ pre) rest h = absurd (omega arith)
overwrite_front (b ∷ bs) [] rest h = absurd (omega arith)
overwrite_front (b ∷ bs) (x ∷ pre) rest h =
    ap (λ t. b ∷ t) (overwrite_front bs pre rest (omega arith))

pub length-be_bytes : (k w : ℕ) → length (be_bytes k w) ≡ k
length-be_bytes zero w = refl
length-be_bytes (suc k) w = ap suc (length-be_bytes k w)

-- The integers that PutUint32 and PutUint64 write are read back.
pub be_value32 : (w : ℕ) → w < 2 ^ 32 → be_value 0 (be_bytes 4 w) ≡ w
be_value32 w h = omega arith

pub be_value64 : (w : ℕ) → w < 2 ^ 64 → be_value 0 (be_bytes 8 w) ≡ w
be_value64 w h = omega arith

pub slice_range_ok :
    (lo hi : ℕ) (s : Slice)
    → lo ≤ hi
    → hi ≤ length s.mem
    → slice_range lo hi s ≡ ok (record { len = hi - lo; mem = drop lo s.mem })
unfolding slice_range
slice_range_ok lo hi s h k = rw (le→leb lo hi h, le→leb hi (length s.mem) k)

pub slice_range_fails : (lo hi : ℕ) (s : Slice) → hi < lo → slice_range lo hi s ≡ panic slice_bounds
unfolding slice_range
slice_range_fails lo hi s h = ground (arith, h)

pub slice_from_ok :
    (lo : ℕ) (s : Slice)
    → lo ≤ s.len
    → slice_from lo s ≡ ok (record { len = s.len - lo; mem = drop lo s.mem })
unfolding slice_from
slice_from_ok lo s h = rw (le→leb lo s.len h)
