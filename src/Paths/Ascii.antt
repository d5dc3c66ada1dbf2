-- ===== src/Paths/Ascii.antt =====
-- ASCII paths for validatePath of zk/util.go: what the decoders say of them, and the test of each byte.
use mathlib.Core.List.{reverse, reverse-cons}
use go_zookeeper.Base.{
  ℕ, suc, ◌<◌, ◌≡◌, refl, sym, ◌∙◌, Bytes, Bool, true, false, not, ◌&&◌, ◌||◌, ◌==◌, if◌then◌else◌,
  [], ◌∷◌, ◌++◌, length, arith, append_assoc, length-append, take-append, drop-append, All, le→leb,
}
use go_zookeeper.Constants.{invalid_path}
use go_zookeeper.Wire.{Result, ok, err}
use go_zookeeper.Paths.{Utf8, text_from, text_to, is_forbidden, byte_at}

-- What the decoders document of ASCII text; the last rune of the empty text is U+FFFD.
pub record ReadsAscii (u : Utf8) : Type 0 where
  pub first_byte : (b : ℕ) (rest : Bytes) → b < 128 → u.first_rune (b ∷ rest) ≡ (b, 1)
  pub last_byte : (before : Bytes) (b : ℕ) → b < 128 → u.last_rune (before ++ (b ∷ [])) ≡ (b, 1)
  pub no_last : u.last_rune [] ≡ (0xfffd, 0)

abbrev pub IsAscii : Bytes → Type 0
IsAscii = All (λ b. b < 128)

abbrev pub verdict : Bool → Result (Unit {0})
verdict true = ok tt
verdict false = err invalid_path

-- The last rune of the text whose bytes, from the last to the first, are `back`.
abbrev pub newest : Bytes → ℕ
newest [] = 0xfffd
newest (c ∷ back) = c

-- The same, past one '.'.
abbrev pub newest_past_dot : Bytes → ℕ
newest_past_dot [] = 0xfffd
newest_past_dot (c ∷ back) = if c == b'.' then newest back else c

abbrev pub is_end : Bytes → Bool
is_end [] = true
is_end (c ∷ r) = c == b'/'

abbrev pub is_nil : Bytes → Bool
is_nil [] = true
is_nil (c ∷ r) = false

-- The test of a byte `b` between `back` and `r`; `w` is 0 for the first one.
abbrev pub is_fine : ℕ → Bytes → ℕ → Bytes → Bool
is_fine w back b r =
    if b == 0
    then false
    else if b == b'/'
    then not (newest back == b'/')
    else if b == b'.'
    then not (newest_past_dot back == b'/' && (if w == 0 then is_nil r else is_end r))
    else not (is_forbidden b)

unfoldable pub scan : ℕ → Bytes → Bytes → Bool
scan w back [] = true
scan w back (b ∷ r) = is_fine w back b r && scan 1 (b ∷ back) r

pub length-reverse : (xs : Bytes) → length (reverse xs) ≡ length xs
length-reverse [] = refl
length-reverse (x ∷ xs) =
    rw (reverse-cons x xs) (omega (arith, length-append (reverse xs) (x ∷ []), length-reverse xs))

abbrev pub ends_in_slash : Bytes → Bool
ends_in_slash [] = false
ends_in_slash (c ∷ []) = c == b'/'
ends_in_slash (c ∷ d ∷ r) = ends_in_slash (d ∷ r)

pub byte_at-last :
    (a c : ℕ) (r : Bytes)
    → (b : ℕ) × (byte_at (suc (length r)) (a ∷ c ∷ r) ≡ ok b)
      × ((b == b'/') ≡ ends_in_slash (c ∷ r))
unfolding byte_at
byte_at-last a c [] = (c, refl, refl)
byte_at-last a c (d ∷ r) = byte_at-last c d r

-- The bytes up to a position, and those from there.
pub text_to_lem :
    (back rest : Bytes) → text_to (length back) (reverse back ++ rest) ≡ ok (reverse back)
unfolding text_to
text_to_lem back rest =
    let l = length-reverse back in
    rw (
      le→leb (length back) (length (reverse back ++ rest))
          (omega (arith, length-append (reverse back) rest)),
      take-append (reverse back) rest (length back) (sym l),
    )

pub text_from_lem :
    (back rest : Bytes) (i : ℕ) → i ≡ length back → text_from i (reverse back ++ rest) ≡ ok rest
unfolding text_from
text_from_lem back rest i e =
    let l = length-reverse back in
    rw (
      le→leb i (length (reverse back ++ rest)) (omega (arith, length-append (reverse back) rest)),
      drop-append (reverse back) rest i (e ∙ sym l),
    )

pub past : (b : ℕ) (back rest : Bytes) → reverse (b ∷ back) ++ rest ≡ reverse back ++ (b ∷ rest)
past b back rest = rw (reverse-cons b back) (append_assoc (reverse back) (b ∷ []) rest)

pub reject : (b : Bool) → (if b then err invalid_path else ok tt) ≡ verdict (not b)
reject true = refl
reject false = refl

-- The test of the last byte, before the loop.
pub by_end :
    (loop : Result (Unit {0})) (fine sequential slash : Bool)
    → loop ≡ verdict fine
    → (if not sequential && slash then err invalid_path else loop)
      ≡ verdict ((sequential || not slash) && fine)
by_end loop fine true slash e = e
by_end loop fine false true e = refl
by_end loop fine false false e = e
