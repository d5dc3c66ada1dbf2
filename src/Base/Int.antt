-- ===== src/Base/Int.antt =====
-- Signed integers over the native numbers, and Go's fixed-width integers as the numbers that their
-- bit patterns stand for.
use Prim.Native.Nat.{ℕ, ◌-◌, ◌%◌, ◌^◌, ◌<◌}
use mathlib.Core.Path.{◌≡◌}
use mathlib.Core.Bool.{Bool, true, false}
use native.Mathlib.Omega.{arith}
use go_zookeeper.Base.Tests.{ltb, ◌==◌, if◌then◌else◌}

-- `negsuc n` is -(n + 1).
pub data ℤ : Type 0 where
  pos : ℕ → ℤ
  negsuc : ℕ → ℤ

abbrev pub is_neg : ℤ → Bool
is_neg (pos n) = false
is_neg (negsuc n) = true

abbrev pub is_pos : ℤ → Bool
is_pos (pos n) = ltb 0 n
is_pos (negsuc n) = false

abbrev pub int_eq : ℤ → ℤ → Bool
int_eq (pos m) (pos n) = m == n
int_eq (negsuc m) (negsuc n) = m == n
int_eq _ _ = false

abbrev pub int_lt : ℤ → ℤ → Bool
int_lt (pos m) (pos n) = ltb m n
int_lt (pos m) (negsuc n) = false
int_lt (negsuc m) (pos n) = true
int_lt (negsuc m) (negsuc n) = ltb n m

-- The ranges of int32 and int64.
abbrev pub IsInt32 : ℤ → Type 0
IsInt32 (pos n) = n < 2 ^ 31
IsInt32 (negsuc n) = n < 2 ^ 31

abbrev pub IsInt64 : ℤ → Type 0
IsInt64 (pos n) = n < 2 ^ 63
IsInt64 (negsuc n) = n < 2 ^ 63

-- Go's conversions uint32(v) of a signed value, and int32(w) of an unsigned one: the pattern of 32
-- bits is kept.
abbrev pub uint32 : ℤ → ℕ
uint32 (pos n) = n % 2 ^ 32
uint32 (negsuc n) = 2 ^ 32 - 1 - n % 2 ^ 32

abbrev pub to_int32 : ℕ → ℤ
to_int32 w =
    if ltb (w % 2 ^ 32) (2 ^ 31) then pos (w % 2 ^ 32) else negsuc (2 ^ 32 - 1 - w % 2 ^ 32)

abbrev pub uint64 : ℤ → ℕ
uint64 (pos n) = n % 2 ^ 64
uint64 (negsuc n) = 2 ^ 64 - 1 - n % 2 ^ 64

abbrev pub to_int64 : ℕ → ℤ
to_int64 w =
    if ltb (w % 2 ^ 64) (2 ^ 63) then pos (w % 2 ^ 64) else negsuc (2 ^ 64 - 1 - w % 2 ^ 64)

pub uint32-lt : (z : ℤ) → uint32 z < 2 ^ 32
uint32-lt (pos n) = omega arith
uint32-lt (negsuc n) = omega arith

pub uint64-lt : (z : ℤ) → uint64 z < 2 ^ 64
uint64-lt (pos n) = omega arith
uint64-lt (negsuc n) = omega arith

pub to_int32-uint32 : (z : ℤ) → IsInt32 z → to_int32 (uint32 z) ≡ z
to_int32-uint32 (pos n) h = ground arith
to_int32-uint32 (negsuc n) h = ground arith

pub to_int64-uint64 : (z : ℤ) → IsInt64 z → to_int64 (uint64 z) ≡ z
to_int64-uint64 (pos n) h = ground arith
to_int64-uint64 (negsuc n) h = ground arith

pub to_int32-IsInt32 : (w : ℕ) → IsInt32 (to_int32 w)
to_int32-IsInt32 w = ground arith

pub to_int64-IsInt64 : (w : ℕ) → IsInt64 (to_int64 w)
to_int64-IsInt64 w = ground arith

pub int_eq_iff : (a b : ℤ) → int_eq a b ≡ true → a ≡ b
int_eq_iff (pos m) (pos n) h = ground arith
int_eq_iff (pos m) (negsuc n) h = ground arith
int_eq_iff (negsuc m) (pos n) h = ground arith
int_eq_iff (negsuc m) (negsuc n) h = ground arith

pub int_eq_refl : (a : ℤ) → int_eq a a ≡ true
int_eq_refl (pos n) = ground arith
int_eq_refl (negsuc n) = ground arith
