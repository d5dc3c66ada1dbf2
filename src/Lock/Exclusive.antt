-- ===== src/Lock/Exclusive.antt =====
-- Locks of zk/lock.go that look at the same children.
use mathlib.Core.List.{Mem}
use mathlib.Core.List.{Memᴰ}
use native.Mathlib.Bridge.{le_prop}
use mathlib.Core.Logic.{∥∥₁_elim}
use go_zookeeper.Base.{
  ℕ, ◌≤◌, ◌≡◌, refl, ℤ, pos, negsuc, int_eq, Bytes, Option, none, some, List, [], ◌∷◌, ◌⊎◌, inl,
  inr, All, arith, if◌then◌else◌,
}
use go_zookeeper.Constants.{Error}
use go_zookeeper.Lock.{Pick, acquired, behind, refused, parse_seq, pick_child, pick, choose}
use go_zookeeper.Lock.Choose.{choose_lem}

All-at :
    (num : Bytes → ℕ) (s : ℕ) (q : Bytes) (names : List Bytes)
    → All (λ p. s ≤ num p) names
    → Mem q names
    → s ≤ num q
All-at num s q names h m = ∥∥₁_elim m le_prop (λ d. at names h d)
  where
    at : (names : List Bytes) → All (λ p. s ≤ num p) names → Memᴰ q names → s ≤ num q
    at [] h m = elim m [ ]
    at (x ∷ xs) h (Memᴰ.head e) = rw e h.0
    at (x ∷ xs) h (Memᴰ.tail d) = at xs h.1 d

pub acquired-lowest :
    (atoi : Bytes → ℤ × Option Error) (num : Bytes → ℕ) (s : ℕ) (names : List Bytes)
    → All (λ p. parse_seq atoi p ≡ (pos (num p), none)) names
    → choose atoi (pos s) names ≡ acquired
    → All (λ p. s ≤ num p) names
acquired-lowest atoi num s names n a = elim (choose_lem atoi num s names n) [
  | inl (e, h) ↦ h
  | inr (q, e, m, lt, h) ↦ cc
]

pick-parsed :
    (atoi : Bytes → ℤ × Option Error) (seq : ℤ) (names : List Bytes) (k k' : Pick)
    → pick atoi seq names k ≡ inr k'
    → All (λ p. (parse_seq atoi p).1 ≡ none) names
pick-parsed atoi seq [] k k' h = tt
pick-parsed atoi seq (p ∷ ps) k k' h =
    go (pick-parsed atoi seq ps (pick_child seq p (parse_seq atoi p).0 k) k') (parse_seq atoi p).1
      refl (unfold pick in h)
  where
    go :
        (pick atoi seq ps (pick_child seq p (parse_seq atoi p).0 k) ≡ inr k'
          → All (λ p. (parse_seq atoi p).1 ≡ none) ps)
        → (e : Option Error) → (parse_seq atoi p).1 ≡ e
        → elim e [
          | some x ↦ inl x
          | none ↦ pick atoi seq ps (pick_child seq p (parse_seq atoi p).0 k)
        ]
          ≡ inr k'
        → All (λ p. (parse_seq atoi p).1 ≡ none) (p ∷ ps)
    go ih (some x) e h = cc
    go ih none e h = (e, ih h)

pub acquired-parsed :
    (atoi : Bytes → ℤ × Option Error) (seq : ℤ) (names : List Bytes)
    → choose atoi seq names ≡ acquired
    → All (λ p. (parse_seq atoi p).1 ≡ none) names
unfolding choose
acquired-parsed atoi seq names h =
    let k : Pick = record { lowest_seq = seq; prev_seq = negsuc 0; prev_seq_path = [] } in
    go (pick atoi seq names k) refl h
  where
    go :
        (r : Error ⊎ Pick)
        → pick atoi seq names (record { lowest_seq = seq; prev_seq = negsuc 0; prev_seq_path = [] })
          ≡ r
        → elim r [
          | inl e ↦ refused e
          | inr k ↦ if int_eq seq k.lowest_seq then acquired else behind k.prev_seq_path
        ]
          ≡ acquired
        → All (λ p. (parse_seq atoi p).1 ≡ none) names
    go (inl x) e h = cc
    go (inr k) e h =
        pick-parsed atoi seq names
          (record { lowest_seq = seq; prev_seq = negsuc 0; prev_seq_path = [] }) k e

-- Two locks that both have a child among the names, and that both find themselves acquired by these names, have
-- the same number, where each name ends in a number.
pub choose-exclusive :
    (atoi : Bytes → ℤ × Option Error) (num : Bytes → ℕ) (names : List Bytes) (p q : Bytes)
    → All (λ r. parse_seq atoi r ≡ (pos (num r), none)) names
    → Mem p names
    → Mem q names
    → choose atoi (pos (num p)) names ≡ acquired
    → choose atoi (pos (num q)) names ≡ acquired
    → num p ≡ num q
choose-exclusive atoi num names p q n mp mq a b = omega (
  arith,
  All-at num (num p) q names (acquired-lowest atoi num (num p) names n a) mq,
  All-at num (num q) p names (acquired-lowest atoi num (num q) names n b) mp,
)
