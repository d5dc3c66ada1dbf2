-- ===== src/Paths/Parts.antt =====
-- validatePath of zk/util.go on ASCII paths, by the parts between the slashes.
use go_zookeeper.Base.{
  ℕ, ◌≡◌, refl, Bytes, Bool, true, false, not, ◌&&◌, ◌||◌, ◌==◌, if◌then◌else◌, List, [], ◌∷◌,
  arith, Bool-cases, inl, inr, upto, others, split, str, bytes_eq,
}
use go_zookeeper.Paths.{Utf8, is_forbidden, validate_path}
use go_zookeeper.Paths.Ascii.{
  ReadsAscii, IsAscii, verdict, newest, newest_past_dot, is_end, scan, ends_in_slash,
}
use go_zookeeper.Paths.Scan.{validate_path-scan}

abbrev pub all_allowed : Bytes → Bool
all_allowed [] = true
all_allowed (b ∷ r) = let rest = all_allowed r in not (is_forbidden b) && rest

-- A part is not "." or "..", has no forbidden character, and is empty only at the end.
abbrev pub is_part : Bytes → Bool → Bool
is_part [] is_last = is_last
is_part (b ∷ []) is_last = not (b == b'.') && all_allowed (b ∷ [])
is_part (b ∷ c ∷ []) is_last = not (b == b'.' && c == b'.') && all_allowed (b ∷ c ∷ [])
is_part (b ∷ c ∷ d ∷ r) is_last = all_allowed (b ∷ c ∷ d ∷ r)

abbrev pub no_parts : List Bytes → Bool
no_parts [] = true
no_parts (s ∷ ss) = false

unfoldable pub are_parts : List Bytes → Bool
are_parts [] = true
are_parts (s ∷ ss) = is_part s (no_parts ss) && are_parts ss

-- The first part is not looked at if it is "." and another one follows.
unfoldable pub drop_first_dot : List Bytes → List Bytes
drop_first_dot [] = []
drop_first_dot (s ∷ []) = s ∷ []
drop_first_dot (s ∷ t ∷ ss) = if bytes_eq s (str ".") then t ∷ ss else s ∷ t ∷ ss

-- The loop within a part that is neither empty nor ".", at the start of a part, and after a first '.'.
abbrev ScansInside : Bytes → Type 0
ScansInside r =
    (back : Bytes)
    → (newest back == b'/') ≡ false
    → (newest_past_dot back == b'/') ≡ false
    → scan 1 back r ≡ (all_allowed (upto b'/' r) && are_parts (others b'/' r))

abbrev ScansStart : Bytes → Type 0
ScansStart r = (back : Bytes) → scan 1 (b'/' ∷ back) r ≡ are_parts (split b'/' r)

abbrev ScansDot : Bytes → Type 0
ScansDot r =
    (back : Bytes)
    → is_end r ≡ false
    → scan 1 (b'.' ∷ b'/' ∷ back) r
      ≡ (is_part (b'.' ∷ upto b'/' r) (no_parts (others b'/' r)) && are_parts (others b'/' r))

and_assoc : (a b c : Bool) → (a && (b && c)) ≡ ((a && b) && c)
and_assoc true b c = refl
and_assoc false b c = refl

-- A byte that is not a '/' or a '.', and what follows.
plain_step :
    (back : Bytes) (b : ℕ) (r : Bytes)
    → (b == b'/') ≡ false
    → (b == b'.') ≡ false
    → ScansInside r
    → scan 1 back (b ∷ r) ≡ (all_allowed (b ∷ upto b'/' r) && are_parts (others b'/' r))
plain_step back b r e f inside =
    let rest = inside (b ∷ back) e (rw (f) e) in
    unfold scan in
    elim (Bool-cases (b == 0)) [
      | inl z ↦ let zero_byte : b ≡ 0 = ground (arith, z) in rw (zero_byte)
      | inr z ↦ rw (z, e, f, rest) (and_assoc (not (is_forbidden b)) _ _)
    ]

is_part-plain :
    (b : ℕ) (s : Bytes) (is_last : Bool)
    → (b == b'.') ≡ false
    → is_part (b ∷ s) is_last ≡ all_allowed (b ∷ s)
is_part-plain b [] is_last f = rw (f)
is_part-plain b (c ∷ []) is_last f = rw (f)
is_part-plain b (c ∷ d ∷ s) is_last f = refl

is_part-dot :
    (b : ℕ) (s : Bytes) (is_last : Bool)
    → (b == b'.') ≡ false
    → is_part (b'.' ∷ b ∷ s) is_last ≡ all_allowed (b ∷ s)
is_part-dot b [] is_last f = rw (f)
is_part-dot b (c ∷ s) is_last f = refl

inside_step : (b : ℕ) (r : Bytes) → ScansInside r → ScansStart r → ScansInside (b ∷ r)
unfolding scan are_parts
inside_step b r inside start back h k = elim (Bool-cases (b == b'/')) [
  | inl e ↦ let slash : b ≡ b'/' = ground (arith, e) in rw (slash, h) (start back)
  | inr e ↦ elim (Bool-cases (b == b'.')) [
    | inl f ↦ let dot : b ≡ b'.' = ground (arith, f) in rw (dot, k) (inside (b'.' ∷ back) refl h)
    | inr f ↦ rw (plain_step back b r e f inside, e)
  ]
]

start_step : (b : ℕ) (r : Bytes) → ScansInside r → ScansDot r → ScansStart (b ∷ r)
unfolding scan are_parts
start_step b r inside dot back = elim (Bool-cases (b == b'/')) [
  | inl e ↦ let slash : b ≡ b'/' = ground (arith, e) in rw (slash)
  | inr e ↦ elim (Bool-cases (b == b'.')) [
    | inl f ↦ let is_dot : b ≡ b'.' = ground (arith, f) in rw (is_dot) (at_dot r dot)
    | inr f ↦ rw (
      plain_step (b'/' ∷ back) b r e f inside,
      e,
      is_part-plain b (upto b'/' r) (no_parts (others b'/' r)) f,
    )
  ]
]
  where
    at_dot :
        (r : Bytes)
        → ScansDot r
        → scan 1 (b'/' ∷ back) (b'.' ∷ r)
          ≡ (is_part (b'.' ∷ upto b'/' r) (no_parts (others b'/' r)) && are_parts (others b'/' r))
    at_dot [] d = refl
    at_dot (c ∷ r) d = elim (Bool-cases (c == b'/')) [
      | inl g ↦ rw (g)
      | inr g ↦ rw (g) (rw g at (d back g))
    ]

dot_step : (b : ℕ) (r : Bytes) → ScansInside r → ScansDot (b ∷ r)
unfolding scan are_parts
dot_step b r inside back e = elim (Bool-cases (b == b'.')) [
  | inl f ↦ let is_dot : b ≡ b'.' = ground (arith, f) in rw (is_dot) (at_dot r inside)
  | inr f ↦ rw (
    plain_step (b'.' ∷ b'/' ∷ back) b r e f inside,
    e,
    is_part-dot b (upto b'/' r) (no_parts (others b'/' r)) f,
  )
]
  where
    at_dot :
        (r : Bytes)
        → ScansInside r
        → scan 1 (b'.' ∷ b'/' ∷ back) (b'.' ∷ r) ≡ (
            is_part (b'.' ∷ b'.' ∷ upto b'/' r) (no_parts (others b'/' r))
            && are_parts (others b'/' r))
    at_dot [] d = refl
    at_dot (c ∷ r) d = elim (Bool-cases (c == b'/')) [
      | inl g ↦ rw (g)
      | inr g ↦ rw (g) (rw g at (d (b'.' ∷ b'.' ∷ b'/' ∷ back) refl refl))
    ]

scan-states : (r : Bytes) → ScansInside r × ScansStart r × ScansDot r
unfolding scan are_parts
scan-states [] = (λ back h k. refl, λ back. refl, λ back h. cc)
scan-states (b ∷ r) =
    let (inside, start, dot) = scan-states r in
    (inside_step b r inside start, start_step b r inside dot, dot_step b r inside)

drop_none :
    (s : Bytes) (ss : List Bytes) → bytes_eq s (str ".") ≡ false → drop_first_dot (s ∷ ss) ≡ s ∷ ss
unfolding drop_first_dot
drop_none s [] h = refl
drop_none s (t ∷ ss) h = rw (h)

other_first :
    (b : ℕ) (r : Bytes) → (b == b'.') ≡ false → bytes_eq (upto b'/' (b ∷ r)) (str ".") ≡ false
unfolding bytes_eq
other_first b r f = elim (Bool-cases (b == b'/')) [ inl e ↦ rw (e) | inr e ↦ rw (e, f) ]

-- The first part, where the width of the rune before is 0.
scan-first : (r : Bytes) → scan 0 (b'/' ∷ []) r ≡ are_parts (drop_first_dot (split b'/' r))
scan-first [] = unfold scan are_parts drop_first_dot in refl
scan-first (b ∷ r) = elim (Bool-cases (b == b'.')) [
  | inl f ↦ let is_dot : b ≡ b'.' = ground (arith, f) in rw (is_dot) (at_dot r)
  | inr f ↦
      rw (drop_none _ (others b'/' (b ∷ r)) (other_first b r f), ← (scan-states (b ∷ r)).1 [])
        (unfold scan in rw (f))
]
  where
    at_dot :
        (r : Bytes)
        → scan 0 (b'/' ∷ []) (b'.' ∷ r) ≡ are_parts (drop_first_dot (split b'/' (b'.' ∷ r)))
    at_dot [] = unfold scan are_parts drop_first_dot in refl
    at_dot (c ∷ r) = elim (Bool-cases (c == b'/')) [
      | inl g ↦
          let is_slash : c ≡ b'/' = ground (arith, g) in
          rw (is_slash) (
            unfold drop_first_dot bytes_eq in
            rw (← (scan-states r).1 (b'.' ∷ b'/' ∷ [])) (unfold scan in refl))
      | inr g ↦
          let other : bytes_eq (b'.' ∷ upto b'/' (c ∷ r)) (str ".") ≡ false =
            unfold bytes_eq in rw (g) in
          rw (drop_none _ (others b'/' (b'.' ∷ c ∷ r)) other)
            (unfold scan are_parts in (scan-states (c ∷ r)).2 [] g)
    ]

-- "/" and the rest of an ASCII path pass exactly if, a first part "." set aside where another part
-- follows, every part between slashes is not "." or "..", has no forbidden character and is not
-- empty, the last one excepted, which is empty only in a sequential path or in "/" itself; a path that does not pass is ErrInvalidPath.
pub validate_path-are_parts :
    (u : Utf8)
    → ReadsAscii u
    → (rest : Bytes) (is_sequential : Bool) → IsAscii rest
    → validate_path u (b'/' ∷ rest) is_sequential
      ≡ verdict (
          (is_sequential || not (ends_in_slash rest))
          && are_parts (drop_first_dot (split b'/' rest)))
validate_path-are_parts u au rest is_sequential h =
    rw (validate_path-scan u au rest is_sequential h, scan-first rest)

-- A "." part at the front is not rejected: an ASCII path with "/./" before a part that does not
-- start with '.' passes exactly if it does with "/" there.
pub validate_path-dot :
    (u : Utf8)
    → ReadsAscii u
    → (c : ℕ) (p : Bytes) (is_sequential : Bool) → IsAscii (c ∷ p)
    → (c == b'.') ≡ false
    → validate_path u (b'/' ∷ b'.' ∷ b'/' ∷ c ∷ p) is_sequential
      ≡ validate_path u (b'/' ∷ c ∷ p) is_sequential
validate_path-dot u au c p is_sequential h f =
    let long : IsAscii (b'.' ∷ b'/' ∷ c ∷ p) = (omega arith, (omega arith, h)) in
    rw
      (
        validate_path-are_parts u au (b'.' ∷ b'/' ∷ c ∷ p) is_sequential long,
        validate_path-are_parts u au (c ∷ p) is_sequential h,
        drop_none _ (others b'/' (c ∷ p)) (other_first c p f),
      )
      (unfold drop_first_dot bytes_eq in refl)
