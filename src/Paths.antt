-- ===== src/Paths.antt =====
-- validatePath of zk/util.go. utf8.DecodeRuneInString and utf8.DecodeLastRuneInString are parameters:
-- each gives a rune and its width in bytes.
pub mod Ascii
pub mod Scan
pub mod Parts
pub mod Whole
use go_zookeeper.Base.{
  ℕ, zero, suc, ◌+◌, ◌-◌, Bytes, Bool, not, ◌&&◌, ◌||◌, ◌==◌, ltb, leb, if◌then◌else◌, List, [],
  ◌∷◌, length, take, drop, Option, none, some, get_elem?,
}
use go_zookeeper.Constants.{invalid_path}
use go_zookeeper.Wire.{Result, ok, err, panic, slice_bounds, index_range, out_of_fuel, ◌>>=◌}

pub record Utf8 : Type 0 where
  pub first_rune : Bytes → ℕ × ℕ
  pub last_rune : Bytes → ℕ × ℕ

-- s[lo:], s[:hi] and s[i] of a string, which panic out of range
unfoldable pub text_from : ℕ → Bytes → Result Bytes
text_from lo s = if leb lo (length s) then ok (drop lo s) else panic slice_bounds

unfoldable pub text_to : ℕ → Bytes → Result Bytes
text_to hi s = if leb hi (length s) then ok (take hi s) else panic slice_bounds

unfoldable pub byte_at : ℕ → Bytes → Result ℕ
byte_at i s = elim (get_elem? s i) [ none ↦ panic index_range | some b ↦ ok b ]

-- The last case of the switch.
abbrev pub is_forbidden : ℕ → Bool
is_forbidden r =
    leb r 0x1f
    || (leb 0x7f r && leb r 0x9f)
    || (leb 0xf000 r && leb r 0xf8ff)
    || (leb 0xfff0 r && ltb r 0xffff)

-- The case of a '/' at `i`.
unfoldable pub check_slash : Utf8 → Bytes → ℕ → Result (Unit {0})
unfolding text_to
check_slash u path i = do
  before ← text_to i path
  if (u.last_rune before).0 == b'/' then err invalid_path else ok tt

-- The rune before `i`, or the one before that if it is a '.'.
unfoldable pub rune_before : Utf8 → Bytes → ℕ → Result ℕ
unfolding text_to
rune_before u path i = text_to i path >>= λ before.
    if (u.last_rune before).0 == b'.'
    then (text_to (i - (u.last_rune before).1) path >>= λ t. ok (u.last_rune t).0)
    else ok (u.last_rune before).0

-- What follows a '.' at `i`, where `w` is still the width of the rune before.
unfoldable pub check_next : Utf8 → Bytes → ℕ → ℕ → Result (Unit {0})
unfolding text_from
check_next u path i w =
    if i + 1 == length path
    then err invalid_path
    else (text_from (i + w) path >>= λ rest.
        if (u.first_rune rest).0 == b'/' then err invalid_path else ok tt)

-- The case of a '.' at `i`.
unfoldable pub check_dot : Utf8 → Bytes → ℕ → ℕ → Result (Unit {0})
unfolding rune_before check_next
check_dot u path i w = do
  last ← rune_before u path i
  if last == b'/' then check_next u path i w else ok tt

-- The switch on the rune at `i`.
unfoldable pub check_rune : Utf8 → Bytes → ℕ → ℕ → ℕ → Result (Unit {0})
unfolding check_slash check_dot
check_rune u path i w r =
    if r == 0
    then err invalid_path
    else if r == b'/'
    then check_slash u path i
    else if r == b'.'
    then check_dot u path i w
    else if is_forbidden r
    then err invalid_path
    else ok tt

-- The loop, with rounds for the bytes that are left.
unfoldable pub check_runes : Utf8 → Bytes → ℕ → ℕ → ℕ → Result (Unit {0})
unfolding check_rune text_from
check_runes u path zero i w = if ltb i (length path) then panic out_of_fuel else ok tt
check_runes u path (suc fuel) i w = elim (ltb i (length path)) [
  | Bool.false ↦ ok tt
  | Bool.true ↦ text_from i path >>= λ rest. check_rune u path i w (u.first_rune rest).0 >>= λ _.
      check_runes u path fuel (i + (u.first_rune rest).1) (u.first_rune rest).1
]

unfoldable pub validate_path : Utf8 → Bytes → Bool → Result (Unit {0})
unfolding check_runes byte_at
validate_path u path is_sequential =
    if length path == 0
    then err invalid_path
    else (byte_at 0 path >>= λ b.
        if not (b == b'/')
        then err invalid_path
        else if length path == 1
        then ok tt
        else (byte_at (length path - 1) path >>= λ last.
            if not is_sequential && last == b'/'
            then err invalid_path
            else check_runes u path (length path) 1 0))
