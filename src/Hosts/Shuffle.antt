-- ===== src/Hosts/Shuffle.antt =====
-- stringShuffle of zk/util.go returns a permutation.
use mathlib.Core.List.{Perm}
use mathlib.Core.List.Perm
use go_zookeeper.Base.{
  ℕ, zero, suc, ◌-◌, ◌≤◌, ◌<◌, ◌≡◌, refl, ap, ◌∙◌, List, [], ◌∷◌, some, arith, length, get_elem?,
  get_elem?-lt, set,
}
use go_zookeeper.Outcome.{done}
use go_zookeeper.Hosts.{swap, shuffle_from, string_shuffle}

module _ {ℓ} {A : Type ℓ} where
  length-set : (xs : List A) (i : ℕ) (v : A) → length (set xs i v) ≡ length xs
  length-set [] i v = refl
  length-set (x ∷ xs) zero v = refl
  length-set (x ∷ xs) (suc i) v = ap suc (length-set xs i v)

  -- A write puts one element in the place of another.
  set-perm :
      (xs : List A) (i : ℕ) (x y : A) → get_elem? xs i ≡ some x → Perm (x ∷ set xs i y) (y ∷ xs)
  set-perm [] i x y e = cc
  set-perm (a ∷ xs) zero x y e = let a-eq : a ≡ x = cc in rw a-eq (Perm.swap y x xs)
  set-perm (a ∷ xs) (suc i) x y e =
      Perm.trans (Perm.swap a x (set xs i y))
        (Perm.trans (Perm.cons a (set-perm xs i x y e)) (Perm.swap y a xs))

  get_elem?-set :
      (xs : List A) (i j : ℕ) (x y : A)
      → get_elem? xs j ≡ some y
      → get_elem? (set xs i y) j ≡ some y
  get_elem?-set [] i j x y e = e
  get_elem?-set (a ∷ xs) zero zero x y e = refl
  get_elem?-set (a ∷ xs) zero (suc j) x y e = e
  get_elem?-set (a ∷ xs) (suc i) zero x y e = e
  get_elem?-set (a ∷ xs) (suc i) (suc j) x y e = get_elem?-set xs i j x y e

  swap_lem :
      (xs : List A) (i j : ℕ)
      → i < length xs
      → j < length xs
      → (ys : List A) × (swap xs i j ≡ done ys) × Perm ys xs × (length ys ≡ length xs)
  unfolding swap
  swap_lem xs i j hi hj =
      let (x, ex) = get_elem?-lt xs i hi in
      let (y, ey) = get_elem?-lt xs j hj in
      (
        set (set xs i y) j x,
        rw (ex, ey, swap),
        Perm.cons_inv (
            Perm.trans (set-perm (set xs i y) j y x (get_elem?-set xs i j x y ey))
              (set-perm xs i x y ex)),
        length-set (set xs i y) j x ∙ length-set xs i y,
      )

  shuffle_from_lem :
      (rand : ℕ → ℕ) (i : ℕ) (xs : List A)
      → ((k : ℕ) → rand k ≤ k)
      → i ≤ length xs - 1
      → (ys : List A) × (shuffle_from rand i xs ≡ done ys) × Perm ys xs
  unfolding shuffle_from
  shuffle_from_lem rand zero xs hr hi = (xs, refl, Perm.rfl)
  shuffle_from_lem rand (suc i) xs hr hi =
      let (ys, e, p, l) =
        swap_lem xs (suc i) (rand (suc i)) (omega arith) (omega (arith, hr (suc i))) in
      let (zs, f, q) = shuffle_from_lem rand i ys hr (omega (arith, l)) in
      (zs, rw e f, Perm.trans q p)

  -- Whatever numbers rand.Intn draws within its documented range, stringShuffle returns without a panic,
  -- and its result is a permutation of its argument.
  pub string_shuffle-perm :
      (rand : ℕ → ℕ) (xs : List A)
      → ((k : ℕ) → rand k ≤ k)
      → (ys : List A) × (string_shuffle rand xs ≡ done ys) × Perm ys xs
  unfolding string_shuffle
  string_shuffle-perm rand xs hr = shuffle_from_lem rand (length xs - 1) xs hr (omega arith)
