-- ===== src/Outcome.antt =====
-- What a call of a Go function returns in its last result.
use go_zookeeper.Base.{◌≡◌, refl}
use go_zookeeper.Constants.{Error}

-- A value with a nil error, an error, or a run-time panic.
pub data Outcome {ℓ} (A : Type ℓ) : Type ℓ where
  done : A → Outcome A
  failed : Error → Outcome A
  crashed : Outcome A

infixl 5 ◌>>=◌
abbrev pub ◌>>=◌ {ℓ κ} : {A : Type ℓ} {B : Type κ} → Outcome A → (A → Outcome B) → Outcome B
done a >>= f = f a
failed e >>= f = failed e
crashed >>= f = crashed

-- A chain that ends with a value has one at each of its links.
pub bind-done {ℓ κ} :
    {A : Type ℓ} {B : Type κ} (x : Outcome A) (f : A → Outcome B) {b : B}
    → (x >>= f) ≡ done b
    → (a : A) × (x ≡ done a) × (f a ≡ done b)
bind-done (done a) f e = (a, refl, e)
bind-done (failed g) f e = cc
bind-done crashed f e = cc
