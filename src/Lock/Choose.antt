-- ===== src/Lock/Choose.antt =====
-- Which child the lock of zk/lock.go waits on, and when it is acquired.
use mathlib.Core.List.{Mem, mem-cons_self, mem-cons_of_mem}
use go_zookeeper.Base.{
  ℕ, ◌≤◌, ◌<◌, ◌≡◌, refl, ℤ, pos, negsuc, Bytes, Bool, true, false, ◌&&◌, Option, none, some, List,
  [], ◌∷◌, ◌⊎◌, inl, inr, All, arith, Bool-cases, if◌then◌else◌, ltb,
}
use go_zookeeper.Constants.{Error}
use go_zookeeper.Lock.{Pick, acquired, behind, parse_seq, pick_child, pick, choose}

pub All-imp {ℓ κ μ} :
    {A : Type ℓ} {P : A → Type κ} {Q : A → Type μ} (xs : List A)
    → ((a : A) → P a → Q a)
    → All P xs
    → All Q xs
All-imp [] f h = tt
All-imp (x ∷ xs) f h = (f x h.0, All-imp xs f h.1)

pos-if : (b : Bool) (x y : ℕ) → (if b then pos x else pos y) ≡ pos (if b then x else y)
pos-if true x y = refl
pos-if false x y = refl

module _ (num : Bytes → ℕ) (whole : List Bytes) where
  -- What the loop has found after the names `seen`.
  abbrev HasFound : ℕ → List Bytes → ℕ → Option Bytes → Type 0
  HasFound s seen lowest none = (lowest ≡ s) × All (λ p. s ≤ num p) seen
  HasFound s seen lowest (some q) =
      Mem q whole × (num q < s) × (lowest < s) × All (λ p. num p < s → num p ≤ num q) seen

  abbrev pick_of : ℕ → Option Bytes → Pick
  pick_of lowest none = record { lowest_seq = pos lowest; prev_seq = negsuc 0; prev_seq_path = [] }
  pick_of lowest (some q) = record {
    lowest_seq = pos lowest;
    prev_seq = pos (num q);
    prev_seq_path = q;
  }

  abbrev Goes : ℕ → Bytes → List Bytes → ℕ → Option Bytes → Type 0
  Goes s p seen lowest found =
      (lowest' : ℕ) × (found' : Option Bytes) × (pick_child (pos s) p (pos (num p))
          (pick_of lowest found)
        ≡ pick_of lowest' found')
      × HasFound s (p ∷ seen) lowest' found'

  first_lower :
      (s : ℕ) (p : Bytes) (seen : List Bytes) (lowest : ℕ)
      → Mem p whole
      → HasFound s seen lowest none
      → Goes s p seen lowest none
  unfolding pick_child
  first_lower s p seen lowest mp (e, h) = elim (Bool-cases (ltb (num p) s)) [
    | inl lt ↦
        let less : num p < s = ground arith in
        (
          num p,
          some p,
          rw (e, lt),
          (mp, less, less, (λ l. omega arith, All-imp seen (λ a g l. absurd (omega arith)) h)),
        )
    | inr ge ↦ (lowest, none, rw (e, ge), (e, (ground arith, h)))
  ]

  next_lower :
      (s : ℕ) (p : Bytes) (seen : List Bytes) (lowest : ℕ) (q : Bytes)
      → Mem p whole
      → HasFound s seen lowest (some q)
      → Goes s p seen lowest (some q)
  unfolding pick_child
  next_lower s p seen lowest q mp (m, lt, low, h) =
      let low' = if ltb (num p) lowest then num p else lowest in
      let lower : low' < s = ground arith in
      elim (Bool-cases (ltb (num p) s && ltb (num q) (num p))) [
        | inl e ↦
            let less : num p < s = ground arith in
            let more : num q < num p = ground arith in
            (
              low',
              some p,
              rw (e) (rw (pos-if (ltb (num p) lowest) (num p) lowest)),
              (mp, less, lower, (λ l. omega arith, All-imp seen (λ a g l. omega (arith, g l)) h)),
            )
        | inr e ↦ (
          low',
          some q,
          rw (e) (rw (pos-if (ltb (num p) lowest) (num p) lowest)),
          (m, lt, lower, (λ l. ground arith, h)),
        )
      ]

  goes :
      (s : ℕ) (p : Bytes) (seen : List Bytes) (lowest : ℕ) (found : Option Bytes)
      → Mem p whole
      → HasFound s seen lowest found
      → Goes s p seen lowest found
  goes s p seen lowest none = first_lower s p seen lowest
  goes s p seen lowest (some q) = next_lower s p seen lowest q

  abbrev onto : List Bytes → List Bytes → List Bytes
  onto [] seen = seen
  onto (p ∷ ps) seen = onto ps (p ∷ seen)

  All-onto {κ} :
      (P : Bytes → Type κ) (ps seen : List Bytes) → All P (onto ps seen) → All P ps × All P seen
  All-onto P [] seen h = (tt, h)
  All-onto P (p ∷ ps) seen h = let (a, b) = All-onto P ps (p ∷ seen) h in ((b.0, a), b.1)

  module _ (atoi : Bytes → ℤ × Option Error) where
    -- Each name ends in a number, which `num` gives.
    abbrev AreNumbered : List Bytes → Type 0
    AreNumbered = All (λ p. parse_seq atoi p ≡ (pos (num p), none))

    pick_lem :
        (s : ℕ) (names seen : List Bytes) (lowest : ℕ) (found : Option Bytes)
        → AreNumbered names
        → ((q : Bytes) → Mem q names → Mem q whole)
        → HasFound s seen lowest found
        → (lowest' : ℕ) × (found' : Option Bytes) × (pick atoi (pos s) names (pick_of lowest found)
            ≡ inr (pick_of lowest' found'))
          × HasFound s (onto names seen) lowest' found'
    unfolding pick
    pick_lem s [] seen lowest found n sub h = (lowest, found, refl, h)
    pick_lem s (p ∷ ps) seen lowest found n sub h =
        let (lowest', found', e, h') = goes s p seen lowest found (sub p mem-cons_self) h in
        let (lowest'', found'', e', h'') =
          pick_lem s ps (p ∷ seen) lowest' found' n.1 (λ q m. sub q (mem-cons_of_mem p m)) h' in
        (lowest'', found'', rw (pick, n.0) (rw (n.0) (rw (e) e')), h'')

-- The lock with the number `s` is acquired, where no child has a lower number; or else it waits on a child
-- that has the greatest of the numbers below `s`. Each name ends in a number, which `num` gives.
pub choose_lem :
    (atoi : Bytes → ℤ × Option Error) (num : Bytes → ℕ) (s : ℕ) (names : List Bytes)
    → All (λ p. parse_seq atoi p ≡ (pos (num p), none)) names
    → ((choose atoi (pos s) names ≡ acquired) × All (λ p. s ≤ num p) names)
      ⊎ ((q : Bytes) × (choose atoi (pos s) names ≡ behind q)
          × Mem q names
          × (num q < s)
          × All (λ p. num p < s → num p ≤ num q) names)
unfolding choose
choose_lem atoi num s names n =
    let (lowest, found, e, h) = pick_lem num names atoi s names [] s none n (λ q m. m) (refl, tt) in
    by_found lowest found e h
  where
    by_found :
        (lowest : ℕ) (found : Option Bytes)
        → pick atoi (pos s) names (pick_of num names s none) ≡ inr (pick_of num names lowest found)
        → HasFound num names s (onto num names names []) lowest found
        → ((choose atoi (pos s) names ≡ acquired) × All (λ p. s ≤ num p) names)
          ⊎ ((q : Bytes) × (choose atoi (pos s) names ≡ behind q)
              × Mem q names
              × (num q < s)
              × All (λ p. num p < s → num p ≤ num q) names)
    by_found lowest none e h = inl (
      rw (choose, e) (let same = h.0 in ground arith),
      (All-onto num names (λ p. s ≤ num p) names [] h.1).0,
    )
    by_found lowest (some q) e (m, lt, low, h) = inr (
      q,
      rw (choose, e) (ground arith),
      m,
      lt,
      (All-onto num names (λ p. num p < s → num p ≤ num q) names [] h).0,
    )
