-- ===== src/Base/Text.antt =====
-- Go strings as lists of bytes.
use Prim.Native.Nat.{ℕ, ◌<◌}
use Prim.Native.Char.{code}
use Prim.Native.String.{String}
use mathlib.Core.Path.{◌≡◌, refl}
use mathlib.Core.Bool.{Bool, true, false, ◌&&◌}
use mathlib.Core.List.{List, [], ◌∷◌, ◌++◌}
use native.Mathlib.Omega.{arith}
use go_zookeeper.Base.Tests.{◌==◌, if◌then◌else◌}

abbrev pub Bytes : Type 0
Bytes = List ℕ

-- A literal of ASCII text, byte by byte.
abbrev pub str : String → Bytes
str String.[] = []
str (String.◌∷◌ c s) = code c ∷ str s

abbrev pub IsByte : ℕ → Type 0
IsByte b = b < 256

unfoldable pub bytes_eq : Bytes → Bytes → Bool
bytes_eq [] [] = true
bytes_eq [] (y ∷ ys) = false
bytes_eq (x ∷ xs) [] = false
bytes_eq (x ∷ xs) (y ∷ ys) = x == y && bytes_eq xs ys

pub bytes_eq_refl : (xs : Bytes) → bytes_eq xs xs ≡ true
unfolding bytes_eq
bytes_eq_refl [] = refl
bytes_eq_refl (x ∷ xs) = ground (arith, bytes_eq_refl xs)

pub bytes_eq→eq : (xs ys : Bytes) → bytes_eq xs ys ≡ true → xs ≡ ys
unfolding bytes_eq
bytes_eq→eq [] [] h = refl
bytes_eq→eq [] (y ∷ ys) h = ground arith
bytes_eq→eq (x ∷ xs) [] h = ground arith
bytes_eq→eq (x ∷ xs) (y ∷ ys) h = ground (arith, bytes_eq→eq xs ys)

-- strings.Split at a separator of one byte: the text before the first one, and the texts after each.
abbrev pub upto : ℕ → Bytes → Bytes
upto sep [] = []
upto sep (b ∷ r) = let rest = upto sep r in if b == sep then [] else b ∷ rest

abbrev pub others : ℕ → Bytes → List Bytes
others sep [] = []
others sep (b ∷ r) = let rest = others sep r in if b == sep then upto sep r ∷ rest else rest

abbrev pub split : ℕ → Bytes → List Bytes
split sep s = upto sep s ∷ others sep s

-- strings.Join with a separator of one byte
abbrev pub join : ℕ → List Bytes → Bytes
join sep [] = []
join sep (s ∷ []) = s
join sep (s ∷ t ∷ ss) = s ++ (sep ∷ join sep (t ∷ ss))
