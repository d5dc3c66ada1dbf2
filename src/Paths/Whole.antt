-- ===== src/Paths/Whole.antt =====
-- validatePath of zk/util.go on any ASCII text: a path is "/" and parts.
use go_zookeeper.Base.{
  suc, length, ◌≡◌, refl, Bytes, Bool, true, false, not, ◌&&◌, ◌||◌, ◌==◌, [], ◌∷◌, arith,
  Bool-cases, inl, inr, split,
}
use go_zookeeper.Paths.{Utf8, validate_path, byte_at}
use go_zookeeper.Paths.Ascii.{ReadsAscii, IsAscii, verdict, ends_in_slash}
use go_zookeeper.Paths.Parts.{are_parts, drop_first_dot, validate_path-are_parts}

-- "/" and parts, of which the last is empty in a sequential path or in "/" itself only.
abbrev pub is_path : Bytes → Bool → Bool
is_path [] is_sequential = false
is_path (b ∷ rest) is_sequential =
    b == b'/'
    && ((is_sequential || not (ends_in_slash rest)) && are_parts (drop_first_dot (split b'/' rest)))

pub validate_path-is_path :
    (u : Utf8)
    → ReadsAscii u
    → (path : Bytes) (is_sequential : Bool) → IsAscii path
    → validate_path u path is_sequential ≡ verdict (is_path path is_sequential)
unfolding validate_path byte_at
validate_path-is_path u au [] is_sequential h = refl
validate_path-is_path u au (b ∷ rest) is_sequential h = elim (Bool-cases (b == b'/')) [
  | inl e ↦
      let slash : b ≡ b'/' = ground (arith, e) in
      rw (slash) (validate_path-are_parts u au rest is_sequential h.1)
  | inr e ↦ let longer : (suc (length rest) == 0) ≡ false = ground arith in rw (longer, e) refl
]

-- A path that is refused as a sequential one is refused.
pub is_path-sequential :
    (path : Bytes) (is_sequential : Bool)
    → is_path path true ≡ false
    → is_path path is_sequential ≡ false
is_path-sequential [] is_sequential h = refl
is_path-sequential (b ∷ rest) true h = h
is_path-sequential (b ∷ rest) false h = ground arith
