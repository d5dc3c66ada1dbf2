-- ===== src/Flw/Hex.antt =====
-- Numbers in hexadecimal, as the servers print them, and what the parsers of zk/flw.go make of them.
use go_zookeeper.Base.{
  ℕ, zero, suc, ◌+◌, ◌-◌, ◌*◌, ◌/◌, ◌%◌, ◌^◌, ◌≤◌, ◌<◌, ◌≡◌, refl, ℤ, pos, uint64, uint64-lt,
  to_int64-uint64, IsInt64, Bytes, str, false, Option, none, some, [], ◌∷◌, ◌++◌, arith,
  if◌then◌else◌, ltb, leb, Bool-cases, inl, inr,
}
use native.Mathlib.Numerals.{unary_clauses}
use go_zookeeper.Constants.{Error, number_out_of_range}
use go_zookeeper.Flw.Numbers.{
  lower, digit_of, parse_digits, parse_prefixed, parse_uint, signed, parse_int, has_hex_prefix,
  parse_int64,
}

hex_char : ℕ → ℕ
hex_char d = if ltb d 10 then b'0' + d else b'a' + (d - 10)

-- The digits of `n` below 16 ^ k, the first one above 0 first.
hex_chars : ℕ → ℕ → Bytes
unfolding hex_char
hex_chars zero n = []
hex_chars (suc k) n =
    let rest = hex_chars k (n / 16) in
    if ltb n 16 then hex_char n ∷ [] else rest ++ (hex_char (n % 16) ∷ [])

-- Long.toHexString behind the prefix 0x
unfoldable pub hex_string : ℕ → Bytes
unfolding hex_chars
hex_string n = str "0x" ++ hex_chars 16 n

digit_of-hex_char : (d : ℕ) → d < 16 → digit_of (hex_char d) ≡ some d
unfolding digit_of hex_char lower
digit_of-hex_char d h = ground arith

-- The digits `cs` take the accumulator `n` of ParseUint to `m`, without an error.
data Reads (base max : ℕ) : ℕ → Bytes → ℕ → Type 0 where
  none_left : {n : ℕ} → Reads base max n [] n
  reads :
      {n m c : ℕ} {cs : Bytes} (d : ℕ)
      → digit_of c ≡ some d
      → d < base
      → n * base + d ≤ max
      → Reads base max (n * base + d) cs m
      → Reads base max n (c ∷ cs) m

parse_digits-Reads :
    {base max n m : ℕ} {cs : Bytes} → Reads base max n cs m → parse_digits base max n cs ≡ (m, none)
unfolding parse_digits
parse_digits-Reads none_left = refl
parse_digits-Reads {base} {max} {n} (reads {c} {cs} d e small fits r) =
    let l : leb base d ≡ false = ground arith in
    let k : ltb max (n * base + d) ≡ false = ground arith in
    rw (e, parse_digits) (rw (l, k) (parse_digits-Reads r))

Reads-append :
    {base max n m k : ℕ} {xs ys : Bytes}
    → Reads base max n xs m
    → Reads base max m ys k
    → Reads base max n (xs ++ ys) k
Reads-append none_left q = q
Reads-append (reads d e small fits r) q = reads d e small fits (Reads-append r q)

one_digit :
    {max m : ℕ} (acc d : ℕ)
    → d < 16
    → acc * 16 + d ≡ m
    → m ≤ max
    → Reads 16 max acc (hex_char d ∷ []) m
one_digit acc d h e l = rw (← e) (reads d (digit_of-hex_char d h) h (omega arith) none_left)

hex_chars-Reads : {max : ℕ} (k n : ℕ) → n < 16 ^ k → n ≤ max → Reads 16 max 0 (hex_chars k n) n
unfolding hex_chars
hex_chars-Reads zero n h l = let e : n ≡ 0 = omega arith in rw e none_left
hex_chars-Reads (suc k) n h l = elim (Bool-cases (ltb n 16)) [
  | inl s ↦ rw s (one_digit 0 n (ground arith) (omega arith) l)
  | inr s ↦
      let p : ℕ = 16 ^ k in
      let less : n < 16 * p = omega (arith, simp unary_clauses at h) in
      let small : n / 16 < p = omega arith in
      rw s (
        Reads-append (hex_chars-Reads k (n / 16) small (omega arith))
          (one_digit (n / 16) (n % 16) (omega arith) (omega arith) l))
]

first_byte : (xs : Bytes) (b : ℕ) → (c : ℕ) × (cs : Bytes) × (xs ++ (b ∷ []) ≡ c ∷ cs)
first_byte [] b = (b, [], refl)
first_byte (x ∷ xs) b = (x, xs ++ (b ∷ []), refl)

some_digit : (k n : ℕ) → (c : ℕ) × (cs : Bytes) × (hex_chars (suc k) n ≡ c ∷ cs)
unfolding hex_chars
some_digit k n = elim (Bool-cases (ltb n 16)) [
  | inl s ↦ rw s (hex_char n, [], refl)
  | inr s ↦ rw s (first_byte (hex_chars k (n / 16)) (hex_char (n % 16)))
]

parse_uint-hex_string :
    (bits n : ℕ) → n < 2 ^ 64 → n ≤ 2 ^ bits - 1 → parse_uint bits (hex_string n) ≡ (n, none)
unfolding parse_uint parse_prefixed hex_string lower
parse_uint-hex_string bits n h l =
    let (c, cs, e) = some_digit 15 n in
    let r = parse_digits-Reads (hex_chars-Reads {max = 2 ^ bits - 1} 16 n h l) in rw e (rw e at r)

-- A text of the server that is the pattern of 64 bits of a signed number, in hexadecimal, is read back as
-- that number, with no error.
pub parse_int64-hex_string : (z : ℤ) → IsInt64 z → parse_int64 (hex_string (uint64 z)) ≡ (z, none)
unfolding parse_int64 hex_string has_hex_prefix
parse_int64-hex_string z h =
    rw
      (
        parse_uint-hex_string 64 (uint64 z) (uint64-lt z) (omega (arith, uint64-lt z)),
        to_int64-uint64 z h,
      )
      refl

-- A number that fits into an int64, or else the greatest one that does.
abbrev pub clamp : ℕ → ℤ × Option Error
clamp n = if ltb n (2 ^ 63) then (pos n, none) else (pos (2 ^ 63 - 1), some number_out_of_range)

-- ParseInt reads such a text as a number that is not negative, and one from 2 ^ 63 on as 2 ^ 63 - 1, with
-- an error.
pub parse_int-hex_string : (n : ℕ) → n < 2 ^ 64 → parse_int 64 (hex_string n) ≡ clamp n
unfolding parse_int hex_string signed
parse_int-hex_string n h = rw (parse_uint-hex_string 64 n h (omega arith)) (ground arith)
