-- ===== src/Flw/Numbers.antt =====
-- ParseUint and ParseInt of strconv with the base 0, and parseInt64 of zk/flw.go. The result is the value
-- and the error, as in Go: an error of the range comes with the nearest value. An underscore, which
-- no group of the regular expressions matches, is read as an error.
use go_zookeeper.Base.{
  ℕ, ◌+◌, ◌-◌, ◌*◌, ◌^◌, ℤ, pos, to_int64, Bytes, Bool, true, false, ◌&&◌, Option, none, some, [],
  ◌∷◌, if◌then◌else◌, ltb, leb, ◌==◌,
}
use go_zookeeper.Constants.{Error, bad_number, number_out_of_range}
use go_zookeeper.Conn.Connect.{neg_of}

unfoldable pub lower : ℕ → ℕ
lower c = if leb b'A' c && leb c b'Z' then c + 32 else c

unfoldable pub digit_of : ℕ → Option ℕ
unfolding lower
digit_of c =
    if leb b'0' c && leb c b'9'
    then some (c - b'0')
    else if leb b'a' (lower c) && leb (lower c) b'z'
    then some (lower c - b'a' + 10)
    else none

-- The loop of ParseUint; a value above `max` ends it.
unfoldable pub parse_digits : ℕ → ℕ → ℕ → Bytes → ℕ × Option Error
parse_digits base max n [] = (n, none)
parse_digits base max n (c ∷ cs) = elim (digit_of c) [
  | none ↦ (0, some bad_number)
  | some d ↦
      let rest = parse_digits base max (n * base + d) cs in
      if leb base d
      then (0, some bad_number)
      else if ltb max (n * base + d)
      then (max, some number_out_of_range)
      else rest
]

-- The text after a first 0: a base with one digit or more, or else base 8.
unfoldable pub parse_prefixed : ℕ → Bytes → ℕ × Option Error
unfolding parse_digits lower
parse_prefixed max (x ∷ y ∷ ds) =
    if lower x == b'b'
    then parse_digits 2 max 0 (y ∷ ds)
    else if lower x == b'o'
    then parse_digits 8 max 0 (y ∷ ds)
    else if lower x == b'x'
    then parse_digits 16 max 0 (y ∷ ds)
    else parse_digits 8 max 0 (x ∷ y ∷ ds)
parse_prefixed max s = parse_digits 8 max 0 s

-- strconv.ParseUint(s, 0, bits)
unfoldable pub parse_uint : ℕ → Bytes → ℕ × Option Error
unfolding parse_prefixed
parse_uint bits [] = (0, some bad_number)
parse_uint bits (c ∷ cs) =
    if c == b'0'
    then parse_prefixed (2 ^ bits - 1) cs
    else parse_digits 10 (2 ^ bits - 1) 0 (c ∷ cs)

-- The value of ParseInt from what ParseUint returned for the text without its sign.
unfoldable pub signed : ℕ → Bool → ℕ × Option Error → ℤ × Option Error
signed bits neg (n, some bad_number) = (pos 0, some bad_number)
signed bits true (n, e) =
    if ltb (2 ^ (bits - 1)) n
    then (neg_of (2 ^ (bits - 1)), some number_out_of_range)
    else (neg_of n, e)
signed bits false (n, e) =
    if leb (2 ^ (bits - 1)) n
    then (pos (2 ^ (bits - 1) - 1), some number_out_of_range)
    else (pos n, e)

-- strconv.ParseInt(s, 0, bits)
unfoldable pub parse_int : ℕ → Bytes → ℤ × Option Error
unfolding parse_uint signed
parse_int bits [] = (pos 0, some bad_number)
parse_int bits (c ∷ cs) =
    if c == b'+'
    then signed bits false (parse_uint bits cs)
    else if c == b'-'
    then signed bits true (parse_uint bits cs)
    else signed bits false (parse_uint bits (c ∷ cs))

-- strings.HasPrefix(s, "0x")
unfoldable pub has_hex_prefix : Bytes → Bool
has_hex_prefix (a ∷ b ∷ r) = a == b'0' && b == b'x'
has_hex_prefix s = false

unfoldable pub parse_int64 : Bytes → ℤ × Option Error
unfolding has_hex_prefix parse_uint parse_int
parse_int64 s =
    if has_hex_prefix s then (let p = parse_uint 64 s in (to_int64 p.0, p.1)) else parse_int 64 s
