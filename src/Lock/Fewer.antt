-- ===== src/Lock/Fewer.antt =====
-- The children in front of a lock of zk/lock.go, and that they become fewer.
use mathlib.Core.Logic.Or
use mathlib.Core.Bool.{Bool-set}
use mathlib.Core.List.{Mem, mem-cons, not-mem-nil}
use go_zookeeper.Base.{
  ℕ, suc, ◌<◌, ◌≤◌, ◌≡◌, refl, Bytes, bytes_eq, bytes_eq→eq, bytes_eq_refl, Bool, true, false, ◌||◌,
  List, [], ◌∷◌, arith, ltb, lt→ltb, if◌then◌else◌, Bool-cases, inl, inr,
}

-- How many of the names have a number below `s`.
abbrev pub below : (Bytes → ℕ) → ℕ → List Bytes → ℕ
below num s [] = 0
below num s (p ∷ ps) = let n = below num s ps in if ltb (num p) s then suc n else n

abbrev pub has : Bytes → List Bytes → Bool
has p [] = false
has p (x ∷ xs) = let rest = has p xs in bytes_eq x p || rest

abbrev pub AllDiffer : List Bytes → Type 0
AllDiffer [] = Unit
AllDiffer (x ∷ xs) = (has x xs ≡ false) × AllDiffer xs

-- From the names `xs` to the names `ys`: `q` is gone, and no other name with a number below `s` was added.
abbrev pub Loses : (Bytes → ℕ) → ℕ → Bytes → List Bytes → List Bytes → Type 0
Loses num s q xs ys =
    AllDiffer ys
    × (has q ys ≡ false)
    × ((p : Bytes) → has p ys ≡ true → num p < s → has p xs ≡ true)

remove : Bytes → List Bytes → List Bytes
remove p [] = []
remove p (x ∷ xs) = let rest = remove p xs in if bytes_eq x p then xs else x ∷ rest

below-remove :
    (num : Bytes → ℕ) (s : ℕ) (p : Bytes) (xs : List Bytes)
    → has p xs ≡ true
    → num p < s
    → below num s xs ≡ suc (below num s (remove p xs))
unfolding remove
below-remove num s p [] h l = cc
below-remove num s p (x ∷ xs) h l = elim (Bool-cases (bytes_eq x p)) [
  | inl e ↦
      let same : x ≡ p = bytes_eq→eq x p e in
      let low : ltb (num x) s ≡ true = rw (same) (lt→ltb (num p) s l) in rw (e, low) refl
  | inr e ↦
      let rest = below-remove num s p xs (rw e at h) l in
      rw (e, rest) (elim (Bool-cases (ltb (num x) s)) [ inl k ↦ rw k refl | inr k ↦ rw k refl ])
]

has-remove :
    (p r : Bytes) (xs : List Bytes)
    → has r xs ≡ true
    → bytes_eq p r ≡ false
    → has r (remove p xs) ≡ true
unfolding remove
has-remove p r [] h n = cc
has-remove p r (x ∷ xs) h n = elim (Bool-cases (bytes_eq x p)) [
  | inl e ↦
      let same : x ≡ p = bytes_eq→eq x p e in
      let other : bytes_eq x r ≡ false = rw (same) n in rw (e) (rw other at h)
  | inr e ↦ elim (Bool-cases (bytes_eq x r)) [
    | inl k ↦ rw (e, k) refl
    | inr k ↦ rw (e, k) (has-remove p r xs (rw k at h) n)
  ]
]

has-front : (p : Bytes) (xs : List Bytes) → has p (p ∷ xs) ≡ true
has-front p xs = rw (bytes_eq_refl p) refl

pub has-behind : (p x : Bytes) (xs : List Bytes) → has p xs ≡ true → has p (x ∷ xs) ≡ true
has-behind p x xs h =
    rw (h) (elim (Bool-cases (bytes_eq x p)) [ inl e ↦ rw e refl | inr e ↦ rw e refl ])

differs :
    (p r : Bytes) (xs : List Bytes) → has p xs ≡ false → has r xs ≡ true → bytes_eq p r ≡ false
differs p r xs n h = elim (Bool-cases (bytes_eq p r)) [
  | inl e ↦ let same : p ≡ r = bytes_eq→eq p r e in cc
  | inr e ↦ e
]

-- Names that all differ, and of which those below `s` stand in another list, are no more than those there.
below-le :
    (num : Bytes → ℕ) (s : ℕ) (ys xs : List Bytes)
    → AllDiffer ys
    → ((p : Bytes) → has p ys ≡ true → num p < s → has p xs ≡ true)
    → below num s ys ≤ below num s xs
below-le num s [] xs d h = omega arith
below-le num s (y ∷ ys) xs d h = elim (Bool-cases (ltb (num y) s)) [
  | inl k ↦
      let low : num y < s = ground (arith, k) in
      let there : has y xs ≡ true = h y (has-front y ys) low in
      let fewer =
        below-le num s ys (remove y xs) d.1
          (λ p m l. has-remove y p xs (h p (has-behind p y ys m) l) (differs y p ys d.0 m)) in
      let count = below-remove num s y xs there low in rw (k, count) (omega (arith, fewer))
  | inr k ↦ rw (k) (below-le num s ys xs d.1 (λ p m l. h p (has-behind p y ys m) l))
]

pub mem-has : (p : Bytes) (xs : List Bytes) → Mem p xs → has p xs ≡ true
mem-has p [] m = absurd (not-mem-nil m)
mem-has p (x ∷ xs) m =
    Or.elim (Bool-set (has p (x ∷ xs)) true) (mem-cons.0 m)
      (λ e. let same : p ≡ x = e in rw (← same) (has-front p xs))
      (λ m'. has-behind p x xs (mem-has p xs m'))

-- A name with a number below `s` that goes leaves fewer such names.
pub Loses-below :
    (num : Bytes → ℕ) (s : ℕ) (q : Bytes) (xs ys : List Bytes)
    → Mem q xs
    → num q < s
    → Loses num s q xs ys
    → below num s ys < below num s xs
Loses-below num s q xs ys m l (d, gone, old) =
    let low : ltb (num q) s ≡ true = lt→ltb (num q) s l in
    let all =
      below-le num s (q ∷ ys) xs (gone, d)
        (λ p h k. elim (Bool-cases (bytes_eq q p)) [
          | inl e ↦ let same : q ≡ p = bytes_eq→eq q p e in rw (← same) (mem-has q xs m)
          | inr e ↦ old p (rw e at h) k
        ]) in
    rw low at all
